-- ===== src/Sync.antt =====
-- The screen time of an agent and of the server: crates/agent/src/heartbeat.rs, lines 997-1000 and
-- 1180-1209, crates/agent/src/enforcement.rs, lines 229-241, crates/server/src/ws.rs, lines 318-331. A `NaiveDate` is its printed text; `reprint`
-- is the text of the date that a text is read as, if it is one.
use screenguard.Prelude.{
  eq_nat, eq_string, eq_pair, ℕ, ◌+◌, Bool, true, false, Option, none, some, List, [], ◌∷◌, String,
  ltb, if◌then◌else◌,
}
use screenguard.Prelude.Int.{as_i64}
use screenguard.Times.{NaiveTime}
use screenguard.Models.{GroupUsage}
use screenguard.Agent.Tables.{Db as AgentDb}
use screenguard.Agent.Db.{add_usage_seconds, mark_usage_synced}
use screenguard.Agent.State.{get_unsynced_usage}
use screenguard.Agent.Config.{get_managed_uids}
use screenguard.Agent.Armed.{reset_all}
use screenguard.Server.Db.{AgentUser, Db as ServerDb, get_agent_user, reconcile_usage_seconds}
use screenguard.Server.Windows.{Zones}
use screenguard.Server.Remaining.{Moment, calculate_remaining_for_agent}
pub mod Marks
pub mod Stored
pub mod Totals
pub mod Counts
pub mod Midnight
pub mod Agree

pub record UsageEntry : Type 0 where
  pub local_uid : ℕ
  pub date : String
  pub used_seconds : ℕ

-- The seconds of a heartbeat, user by user.
unfoldable pub count_seconds : AgentDb → String → List (ℕ × ℕ) → AgentDb
count_seconds db today [] = db
count_seconds db today ((uid, secs) ∷ users) =
    count_seconds (if ltb 0 secs then add_usage_seconds db uid today secs else db) today users

abbrev pub entries_of : (String → Option String) → List ((ℕ × String) × ℕ) → List UsageEntry
entries_of reprint [] = []
entries_of reprint (((uid, date), secs) ∷ rows) =
    let rest = entries_of reprint rows in
    elim (reprint date) [
      | none ↦ rest
      | some d ↦ record { local_uid = uid; date = d; used_seconds = secs } ∷ rest
    ]

unfoldable pub mark_all : AgentDb → List ((ℕ × String) × ℕ) → AgentDb
mark_all db [] = db
mark_all db (((uid, date), secs) ∷ rows) = mark_all (mark_usage_synced db uid date) rows

abbrev pub send :
    (String → Option String)
    → AgentDb
    → List ((ℕ × String) × ℕ)
    → AgentDb × Option (List UsageEntry)
send reprint db [] = (db, none)
send reprint db (r ∷ rows) = (mark_all db (r ∷ rows), some (entries_of reprint (r ∷ rows)))

-- The message, if there is one, and the database once it is handed to the connection.
unfoldable pub send_usage_sync :
    (String → Option String) → AgentDb → AgentDb × Option (List UsageEntry)
send_usage_sync reprint db = send reprint db (get_unsynced_usage db)

abbrev pub store_entry : ServerDb → UsageEntry → Option AgentUser → ServerDb
store_entry db entry none = db
store_entry db entry (some user) =
    reconcile_usage_seconds db user.id entry.date (as_i64 entry.used_seconds)

-- The handling of a usage sync.
unfoldable pub store_usage : String → ServerDb → List UsageEntry → ServerDb
store_usage agent db [] = db
store_usage agent db (entry ∷ entries) =
    store_usage agent (store_entry db entry (get_agent_user db agent entry.local_uid)) entries

abbrev pub receive : String → ServerDb → Option (List UsageEntry) → ServerDb
receive agent db none = db
receive agent db (some entries) = store_usage agent db entries

-- An agent and the server. A message that is sent may be lost with the connection.
pub record World : Type 0 where
  pub agent_db : AgentDb
  pub server_db : ServerDb

-- A heartbeat has the agent's date, and the date that the server reads when it hears of it. At
-- midnight the agent resets what it counted yesterday.
pub data Event : Type 0 where
  heartbeat : Bool → String → String → List (ℕ × ℕ) → Event
  usage_sync : Bool → Event
  midnight : String → Event

module _ {T : Type 0} ⦃c : NaiveTime T⦄ ⦃z : Zones T⦄ (first last : T) (admin_tz agent_tz : String)
    (elsewhere : String → List GroupUsage) (agent : String) (at : Moment T)
    (reprint : String → Option String) where
  -- What a heartbeat does to the server, whose date is `today`.
  abbrev pub heard : ServerDb → String → List (ℕ × ℕ) → ServerDb
  heard db today users =
      (calculate_remaining_for_agent first last admin_tz agent_tz elsewhere agent
        (record at { today = today }) db users).0

  abbrev pub step : World → Event → World
  step w (heartbeat delivered today server_today users) = record {
    agent_db = count_seconds w.agent_db today users;
    server_db = if delivered then heard w.server_db server_today users else w.server_db;
  }
  step w (usage_sync delivered) =
      let sent = send_usage_sync reprint w.agent_db in
      record {
        agent_db = sent.0;
        server_db = if delivered then receive agent w.server_db sent.1 else w.server_db;
      }
  step w (midnight yesterday) = record w {
    agent_db = reset_all w.agent_db yesterday (get_managed_uids w.agent_db);
  }

  abbrev pub run : World → List Event → World
  run w [] = w
  run w (event ∷ events) = run (step w event) events
