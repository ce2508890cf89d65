-- ===== src/Lib.antt =====
-- ScreenGuard: parental time limits for Linux computers. An agent on each computer counts screen time
-- and app time, and locks sessions and closes apps; a server holds the children's profiles.
--
-- Parts and files:
-- - App ids and app groups, shared by agent and server (crates/common/src/apps.rs): Apps, with
--   Apps/Chars for the methods of `str`, Apps/Id for `AppKind` and `AppId`, Apps/Groups for
--   `GroupRule`, `group_matches` and `assign_group`, Apps/Assign and Apps/First for proofs.
-- - The configuration that the server sends (crates/common/src/models.rs): Models.
-- - Time left of app groups (crates/agent/src/app_limits.rs): Limits, with Limits/Names for
--   `group_name` of crates/agent/src/i18n.rs, Limits/Status for `group_status`, Limits/Warnings for
--   `due_warnings`, Limits/Once for proofs.
-- - Time of running apps (crates/agent/src/app_usage.rs): Usage, with Usage/Accounting for
--   `AppAccounting`; Usage/Users, Usage/Carry and Usage/Runs hold proofs.
-- - Closing of apps (crates/agent/src/app_enforce.rs): Closing, with Closing/Targets for `targets`
--   and Closing/Closer for `Closer`; the other children of Closing hold proofs.
-- - The agent's database (crates/agent/src/db.rs): Agent, with Agent/Tables for its tables, Agent/Db
--   for the queries of the decision to lock, Agent/Config for the configuration that the server
--   pushes, Agent/AppUsage for the seconds of apps and groups, Agent/State for pairing, screen time to
--   send, sessions, mode and capabilities; Agent/Rows, Agent/View, Agent/Pushed and Agent/Reads hold
--   proofs.
-- - The decision of an agent (crates/agent/src/enforcement.rs): Agent/Offline for `offline_evaluate`,
--   Agent/Lock for `evaluate_enforcement` and `execute_lock`; Agent/Locks, Agent/Usage and Agent/Grace
--   hold proofs.
-- - The heartbeat loop (crates/agent/src/heartbeat.rs): Agent/Timer for the timer of screen time,
--   Agent/Sessions for `handle_session_event` (with the states of crates/agent/src/dbus.rs),
--   Agent/Armed for the armed locks, with `handle_midnight` of crates/agent/src/enforcement.rs,
--   Agent/Requests for the requests for new apps; Agent/Counting, Agent/Obeys and Agent/Decided hold
--   proofs.
-- - Which app a process is (crates/agent/src/app_ident.rs and crates/agent/src/app_catalog.rs):
--   Agent/Units for `classify`, `unescape` and `parse_unit`, Agent/Exec for `split_exec` and
--   `exec_binary`; Agent/Escapes and Agent/Quotes hold proofs. Text/Affixes has methods of `str`.
-- - The DNS proxy (crates/agent/src/dns_proxy.rs): Dns for `is_blocked`, Dns/Query for `parse_qname`,
--   `make_nxdomain` and `handle_query`; Dns/Answers holds proofs.
-- - The answer of the server to a heartbeat (crates/server/src/remaining.rs, and the tables of
--   crates/server/src/db.rs): Server, with Server/Db for the queries, Server/Windows for
--   `check_schedule_windows`, Server/Remaining for `calculate_remaining_for_agent`, Server/Settings for
--   `replace_daily_limits`, Server/Push for `build_config_push`, whose children hold proofs;
--   Server/AppUsage for the app totals of crates/server/src/app_usage.rs, with proofs in Server/Ingest and
--   Server/Resend; the other children of Server hold proofs.
-- - The app groups of a profile (crates/server/src/app_groups.rs): Server/Groups for the tables, rules
--   and `list_groups`, Server/Groups/Board for `set_membership`, Server/Groups/Limits for limits and
--   extra time, Server/Groups/Life for the groups themselves; its other children hold proofs.
-- - New apps (crates/server/src/app_approvals.rs and `app_request` of crates/server/src/app_usage.rs):
--   Server/Approvals, with proofs in Server/Approvals/Blocked. The order in which the database returns
--   rules, `to_lowercase` and fresh ids are parameters (`Listing`).
-- - Screen time between agent and server (`send_usage_sync` of crates/agent/src/heartbeat.rs and the
--   usage sync of crates/server/src/ws.rs): Sync, whose events are heartbeats and syncs that arrive or
--   are lost, and the agent's reset at midnight; the children of Sync hold proofs.
-- - Times stands for `NaiveTime` of chrono, whose operations are parameters with their documented
--   laws; Text for the methods of `str` that read numbers, Text/Decimal for their print.
-- - Prelude: tests on numbers, equality, lists, maps (`HashMap` and `HashSet` as association lists
--   whose keys stand once) and signed integers. Examples: runs on concrete inputs.
--
-- How the state is read: a struct is a record, and a method that changes it returns the new one. A
-- map is an association list; an iteration over a set is a list whose elements stand once, in any
-- order. An `Instant` or a `Duration` is a number of nanoseconds, and a difference of instants stops
-- at 0, as in the standard library. `u32` and `u64` values are natural numbers, reduced modulo the
-- width where the code adds or casts; `i32` and `i64` are integers, with the wrap-around of a release
-- build written out. Text is the native string, walked character by character; its length is that of
-- its UTF-8 form. Signals to processes are a log; whether a process is alive is a parameter that may
-- depend on all signals sent before. Loops are recursions on lists; the loop over the labels of a DNS
-- name has the length of the packet as fuel, and each label takes one byte of it at least.
--
-- A database is a record of tables: a table is a map by its primary key or a list of rows, in the order
-- of the query where that matters. A query succeeds, but an insert that breaks a constraint of its
-- table. JSON is read back as it was written. The order of the rows of a sync, which a query sets, is
-- that of the table. The server's local date, weekday and time are arguments, as are the time zone data
-- (`Zones`) and the group time on other computers. What the heartbeat loop spawns is a list of
-- actions, and the end of a lock an event of its own. Unicode texts of DNS labels and the answers of
-- the other DNS server are parameters.
--
-- `execute_lock` is told by its steps: what the database and the set of locked users hold after the
-- grace period is an argument, and a failure of D-Bus, which ends it early, is left out.
--
-- Not modelled: reading /proc and sending signals (`ProcSignals`), the D-Bus and network layers, the
-- migrations of the agent's database, most tables of the server's, most notices of the heartbeat
-- loop, serde formats, the tray and the web interface.
pub mod Prelude
pub mod Apps
pub mod Models
pub mod Times
pub mod Text
pub mod Dns
pub mod Agent
pub mod Server
pub mod Limits
pub mod Usage
pub mod Closing
pub mod Sync
mod Examples
