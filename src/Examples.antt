-- ===== src/Examples.antt =====
-- Runs of the definitions on concrete inputs, and the theorems at such inputs.
mod Apps
mod Limits
mod Usage
mod Targets
mod Closer
mod Times
mod Agent
mod Server
mod Dns
mod Sessions
mod Sync
mod Push
mod Armed
mod Ingest
mod Requests
mod Settings
mod Groups
mod Approvals
mod Config
mod Units
