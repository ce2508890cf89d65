-- ===== src/Limits.antt =====
-- crates/agent/src/app_limits.rs: the time left of each app group, and its warnings.
pub mod Names
pub mod Status
pub mod Warnings
pub mod Once
