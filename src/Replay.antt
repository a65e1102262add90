-- ===== src/Replay.antt =====
-- internal/replay: session state, the branch graph, and one branch from a summary checkpoint, each
-- rebuilt from the event log.
pub mod Graph
pub mod Session
pub mod Checkpoint
pub mod Consults
