-- ===== src/Examples.antt =====
-- Concrete sessions, packets, requests and calls, on which the theorems are run.
pub mod Events
pub mod Histories
pub mod Branches
pub mod Packets
pub mod Exits
pub mod Calls
pub mod Stores
pub mod Schedules
pub mod Consults
pub mod Recoveries
pub mod Admissions
pub mod Turns
