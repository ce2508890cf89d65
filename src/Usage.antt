-- ===== src/Usage.antt =====
-- crates/agent/src/app_usage.rs: the time of running apps, counted in whole seconds per tick.
pub mod Accounting
pub mod Users
pub mod Carry
pub mod Runs
