-- ===== src/Eventlog.antt =====
-- internal/eventlog: events, their validation, the kinds, and the in-memory store.
pub mod Event
pub mod Store
