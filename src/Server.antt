-- ===== src/Server.antt =====
-- The server (crates/server/src): the time that a child has left, from what the database holds.
pub mod Db
pub mod Windows
pub mod Closest
pub mod Remaining
pub mod Entries
pub mod Usage
pub mod Totals
pub mod AppUsage
pub mod Ingest
pub mod Resend
pub mod Settings
pub mod Groups
pub mod Approvals
pub mod Push
