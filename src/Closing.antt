-- ===== src/Closing.antt =====
-- crates/agent/src/app_enforce.rs: which processes are closed, and how.
pub mod Targets
pub mod Chosen
pub mod Unapproved
pub mod Closer
pub mod Step
pub mod Rounds
pub mod Escalation
pub mod Safety
pub mod Grace
