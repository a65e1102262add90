-- ===== src/Compactor.antt =====
-- internal/compactor: the trigger of compaction passes.
pub mod Scheduler
