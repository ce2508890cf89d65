-- ===== src/Agent/Sessions.antt =====
-- crates/agent/src/dbus.rs, lines 8-33, and crates/agent/src/heartbeat.rs, lines 34-38 and 443-513:
-- the events of sessions and the timers of screen time that follow them.
use screenguard.Prelude.{
  eq_nat, eq_string, eq_pair, ℕ, Bool, true, false, not, ◌&&◌, Option, none, some, List, [], ◌∷◌,
  String, if◌then◌else◌, or_default, any, map,
}
use screenguard.Prelude.Dict.{Dict, get, insert, remove, contains_key}
use screenguard.Agent.Tables.{Db}
use screenguard.Agent.State.{upsert_session, reconcile_sessions, remove_session}
use screenguard.Agent.Timer.{update_usage_timer}

pub record SessionUsageState : Type 0 where
  pub active : Option Bool
  pub locked : Option Bool
  pub idle : Option Bool

pub data SessionEvent : Type 0 where
  startup_snapshot : List (ℕ × String) → SessionEvent
  session_started session_ended : ℕ → String → SessionEvent
  state_changed : ℕ → String → SessionUsageState → SessionEvent
  prepare_for_sleep : Bool → SessionEvent

-- `SessionUsageState::default()`
abbrev pub unknown_state : SessionUsageState
unknown_state = record { active = none; locked = none; idle = none }

-- `o == Some(b)`
abbrev pub is_known : Option Bool → Bool → Bool
is_known none b = false
is_known (some true) b = b
is_known (some false) b = not b

unfoldable pub session_counts_usage : SessionUsageState → Bool
session_counts_usage s =
    is_known s.active true && (is_known s.locked false && is_known s.idle false)

unfoldable pub uid_counts_usage : Dict String SessionUsageState → Bool
uid_counts_usage states = any (λ (s : String × SessionUsageState). session_counts_usage s.1) states

abbrev pub SessionStates : Type 0
SessionStates = Dict ℕ (Dict String SessionUsageState)

unfoldable pub uid_is_counting : SessionStates → ℕ → Bool
uid_is_counting states uid = uid_counts_usage (or_default [] (get states uid))

-- What the loop keeps of the sessions: the database, the state of each session, and the timers.
pub record Sessions : Type 0 where
  pub db : Db
  pub session_states : SessionStates
  pub active_since : Dict ℕ (Option ℕ)

abbrev pub set_state : SessionStates → ℕ → String → SessionUsageState → SessionStates
set_state states uid session_id state =
    insert states uid (insert (or_default [] (get states uid)) session_id state)

-- The states without a session; a user's entry goes with the last one.
abbrev pub without : SessionStates → ℕ → Dict String SessionUsageState → SessionStates
without states uid [] = remove states uid
without states uid (s ∷ rest) = insert states uid (s ∷ rest)

abbrev pub drop_session :
    SessionStates → ℕ → String → Option (Dict String SessionUsageState) → SessionStates
drop_session states uid session_id none = states
drop_session states uid session_id (some own) = without states uid (remove own session_id)

abbrev pub timer_after :
    ℕ → ℕ → SessionStates → SessionStates → Dict ℕ (Option ℕ) → Dict ℕ (Option ℕ)
timer_after now uid before after active_since =
    update_usage_timer now uid (uid_is_counting before uid) (uid_is_counting after uid) active_since

abbrev pub timer_after_end :
    ℕ → ℕ → SessionStates → SessionStates → Dict ℕ (Option ℕ) → Dict ℕ (Option ℕ)
timer_after_end now uid before after active_since =
    if contains_key after uid
    then timer_after now uid before after active_since
    else remove active_since uid

abbrev pub stopped : Dict ℕ (Option ℕ) → Dict ℕ (Option ℕ)
stopped = map (λ (t : ℕ × Option ℕ). (t.0, none))

abbrev pub restarted : ℕ → SessionStates → Dict ℕ (Option ℕ) → Dict ℕ (Option ℕ)
restarted now [] active_since = active_since
restarted now ((uid, own) ∷ states) active_since =
    restarted now states (insert active_since uid (if uid_counts_usage own then some now else none))

abbrev pub is_known_session : SessionStates → ℕ → String → Bool
is_known_session states uid session_id = contains_key (or_default [] (get states uid)) session_id

-- The event at the time `now`; failures of the database are ignored by the code too.
unfoldable pub handle_session_event : ℕ → Sessions → SessionEvent → Sessions
handle_session_event now s (startup_snapshot sessions) = record s {
  db = reconcile_sessions s.db sessions;
}
handle_session_event now s (session_started uid session_id) =
    let states = set_state s.session_states uid session_id unknown_state in
    record {
      db = upsert_session s.db uid session_id true;
      session_states = states;
      active_since = timer_after now uid s.session_states states s.active_since;
    }
handle_session_event now s (session_ended uid session_id) =
    let states = drop_session s.session_states uid session_id (get s.session_states uid) in
    record {
      db = remove_session s.db uid session_id;
      session_states = states;
      active_since = timer_after_end now uid s.session_states states s.active_since;
    }
handle_session_event now s (state_changed uid session_id state) =
    let states = set_state s.session_states uid session_id state in
    if is_known_session s.session_states uid session_id
    then record {
      db = upsert_session s.db uid session_id (not (is_known state.idle false));
      session_states = states;
      active_since = timer_after now uid s.session_states states s.active_since;
    }
    else s
handle_session_event now s (prepare_for_sleep true) = record s {
  active_since = stopped s.active_since;
}
handle_session_event now s (prepare_for_sleep false) = record s {
  active_since = restarted now s.session_states [];
}
