-- ===== src/Agent/State.antt =====
-- crates/agent/src/db.rs, lines 234-330, 677-866 and 959-976: the pairing, the sync of screen time,
-- the last answer of the server, the sessions, the mode and the capabilities of the agent's database.
use screenguard.Prelude.{
  eq_nat, eq_string, eq_pair, ℕ, Bool, true, not, ◌&&◌, Option, none, some, List, [], ◌∷◌, String,
  ◌==◌, if◌then◌else◌, contains,
}
use screenguard.Prelude.Dict.{Dict, get, insert, remove, retain}
use screenguard.Prelude.Int.{ℤ}
use screenguard.Agent.Tables.{ServerConnection, UsageRow, ServerRemaining, AgentState, Db}

pub data AgentMode : Type 0 where
  unpaired online offline : AgentMode

unfoldable pub mode_named : String → AgentMode
mode_named s = if s == "online" then online else if s == "offline" then offline else unpaired

unfoldable pub get_agent_mode : Db → AgentMode
get_agent_mode db = mode_named db.agent_state.mode

-- The row for a mode that is entered at the time `now`.
abbrev pub state_for : ℤ → AgentMode → AgentState
state_for now unpaired = record { mode = "unpaired"; offline_since = none }
state_for now online = record { mode = "online"; offline_since = none }
state_for now offline = record { mode = "offline"; offline_since = some now }

unfoldable pub set_agent_mode : ℤ → Db → AgentMode → Db
set_agent_mode now db mode = record db { agent_state = state_for now mode }

unfoldable pub get_offline_since : Db → Option ℤ
get_offline_since db = db.agent_state.offline_since

unfoldable pub get_server_connection : Db → Option ServerConnection
get_server_connection db = db.server_connection

unfoldable pub save_server_connection : Db → ServerConnection → Db
save_server_connection db c = record db { server_connection = some c }

unfoldable pub reset_pairing : ℤ → Db → Db
reset_pairing now db = set_agent_mode now (record db { server_connection = none }) unpaired

unfoldable pub wipe_for_rebind : Db → Db
wipe_for_rebind db = record db {
  server_connection = none;
  config_meta = none;
  managed_users = [];
  cached_schedules = [];
  cached_daily_limits = [];
  cached_adjustments = [];
  cached_enforcement = [];
  usage_log = [];
  app_usage_log = [];
  group_usage_log = [];
  cached_app_groups = [];
  cached_group_elsewhere = [];
  server_remaining = [];
  active_sessions = [];
  cached_blocked_domains = [];
  agent_state = record { mode = "unpaired"; offline_since = none };
}

abbrev pub due_usage : Dict (ℕ × String) UsageRow → List ((ℕ × String) × ℕ)
due_usage [] = []
due_usage ((key, row) ∷ rows) =
    let rest = due_usage rows in if row.synced then rest else (key, row.used_seconds) ∷ rest

unfoldable pub get_unsynced_usage : Db → List ((ℕ × String) × ℕ)
get_unsynced_usage db = due_usage db.usage_log

unfoldable pub upsert_server_remaining : Db → ℕ → ℤ → String → Db
upsert_server_remaining db uid remaining_minutes enforce = record db {
  server_remaining =
      insert db.server_remaining uid
        (record { remaining_minutes = remaining_minutes; enforce = enforce });
}

unfoldable pub get_server_remaining : Db → ℕ → Option ServerRemaining
get_server_remaining db uid = get db.server_remaining uid

-- A row of another user with the same session goes.
abbrev pub is_own : ℕ → String → ℕ × String → Bool → Bool
is_own uid session_id key is_idle = not (key.1 == session_id && not (key.0 == uid))

unfoldable pub upsert_session : Db → ℕ → String → Bool → Db
upsert_session db uid session_id is_idle = record db {
  active_sessions =
      insert (retain (is_own uid session_id) db.active_sessions) (uid, session_id) is_idle;
}

abbrev pub is_live : List (ℕ × String) → ℕ × String → Bool → Bool
is_live live key is_idle = contains live key

unfoldable pub reconcile_sessions : Db → List (ℕ × String) → Db
reconcile_sessions db live = record db {
  active_sessions = retain (is_live live) db.active_sessions;
}

unfoldable pub remove_session : Db → ℕ → String → Db
remove_session db uid session_id = record db {
  active_sessions = remove db.active_sessions (uid, session_id);
}

abbrev pub session_ids : (Bool → Bool) → ℕ → Dict (ℕ × String) Bool → List String
session_ids counts uid [] = []
session_ids counts uid (((u, s), is_idle) ∷ rows) =
    let rest = session_ids counts uid rows in if u == uid && counts is_idle then s ∷ rest else rest

unfoldable pub get_active_session_ids : Db → ℕ → List String
get_active_session_ids db uid = session_ids (λ is_idle. not is_idle) uid db.active_sessions

unfoldable pub get_all_session_ids : Db → ℕ → List String
get_all_session_ids db uid = session_ids (λ is_idle. true) uid db.active_sessions

unfoldable pub save_capability : Db → String → Bool → Db
save_capability db capability available = record db {
  agent_capabilities = insert db.agent_capabilities capability available;
}

unfoldable pub get_capability : Db → String → Option Bool
get_capability db capability = get db.agent_capabilities capability
