-- ===== src/Agent.antt =====
-- The agent (crates/agent/src): its cached configuration and its decision to lock a session.
pub mod Tables
pub mod Db
pub mod Config
pub mod Rows
pub mod AppUsage
pub mod View
pub mod Pushed
pub mod Reads
pub mod Offline
pub mod Locks
pub mod Usage
pub mod Lock
pub mod Grace
pub mod Timer
pub mod State
pub mod Sessions
pub mod Counting
pub mod Armed
pub mod Obeys
pub mod Requests
pub mod Decided
pub mod Units
pub mod Escapes
pub mod Exec
pub mod Quotes
