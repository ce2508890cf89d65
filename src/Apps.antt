-- ===== src/Apps.antt =====
-- crates/common/src/apps.rs: app ids and the rules of app groups, shared by agent and server.
pub mod Chars
pub mod Id
pub mod Groups
pub mod First
pub mod Assign
