-- ===== src/Agent/Lock.antt =====
-- crates/agent/src/enforcement.rs, lines 10-31 and 105-195: the decision with a connection, and the
-- locking of a user's sessions. Between its two halves `execute_lock` sleeps for the grace period;
-- the second half reads what then holds.
use screenguard.Prelude.{
  eq_string, eq_nat, ℕ, ◌*◌, Bool, true, false, Option, none, some, List, [], ◌∷◌, ◌++◌, String,
  ◌==◌, ltb, if◌then◌else◌, contains,
}
use screenguard.Times.{NaiveTime}
use screenguard.Models.{EnforceAction, allow, warn, lock}
use screenguard.Agent.Db.{Db, CachedEnforcement}
use screenguard.Agent.Offline.{offline_evaluate}

unfoldable pub action_named : String → EnforceAction
action_named s = if s == "warn" then warn else if s == "lock" then lock else allow

-- `server_remaining` is the `enforce` of the user's row, if the server sent one.
abbrev pub online_evaluate : Option String → EnforceAction
online_evaluate none = allow
online_evaluate (some s) = action_named s

module _ {T : Type 0} ⦃c : NaiveTime T⦄ where
  unfoldable pub evaluate_enforcement :
      ℕ → Db → Option String → Bool → String → ℕ → T → EnforceAction
  evaluate_enforcement uid db server_remaining true today weekday now =
      online_evaluate server_remaining
  evaluate_enforcement uid db server_remaining false today weekday now =
      offline_evaluate uid db today weekday now

pub data LockBehavior : Type 0 where
  terminate_after_grace preserve_and_relock : LockBehavior

unfoldable pub lock_behavior : Bool → LockBehavior
lock_behavior true = preserve_and_relock
lock_behavior false = terminate_after_grace

unfoldable pub should_warn_before_lock : ℕ → Bool
should_warn_before_lock grace = ltb 0 grace

-- What the agent does to the sessions of a user, in order.
pub data LockStep : Type 0 where
  notify : LockStep
  sleep : ℕ → LockStep
  lock_sessions : List String → LockStep
  terminate_sessions : List String → LockStep

-- How `execute_lock` ends before its grace period, or the steps after which it waits for it.
pub data FirstHalf : Type 0 where
  finished : List LockStep → Bool → FirstHalf
  waiting : List LockStep → FirstHalf

abbrev pub warning_steps : ℕ → List LockStep
warning_steps grace = if should_warn_before_lock grace then notify ∷ sleep 4 ∷ [] else []

abbrev pub after_lock : LockBehavior → ℕ → List LockStep → FirstHalf
after_lock preserve_and_relock grace steps = finished steps false
after_lock terminate_after_grace grace steps = waiting (steps ++ (sleep (grace * 60) ∷ []))

unfoldable pub begin_lock : ℕ → Bool → List String → FirstHalf
begin_lock grace preserve [] = finished [] true
begin_lock grace preserve (s ∷ sessions) =
    after_lock (lock_behavior preserve) grace
      (warning_steps grace ++ (lock_sessions (s ∷ sessions) ∷ []))

abbrev pub end_sessions : List String → List LockStep
end_sessions [] = []
end_sessions (s ∷ sessions) = terminate_sessions (s ∷ sessions) ∷ []

-- After the grace period: the users that are locked by then, and the sessions that remain.
unfoldable pub end_lock : ℕ → List ℕ → List String → List LockStep
end_lock uid locked sessions = if contains locked uid then end_sessions sessions else []

abbrev pub resume : ℕ → List ℕ → List String → FirstHalf → List LockStep × Bool
resume uid locked later (finished steps rearm) = (steps, rearm)
resume uid locked later (waiting steps) = (steps ++ end_lock uid locked later, true)

-- The steps, and whether the caller is to arm the lock again.
unfoldable pub execute_lock :
    ℕ → CachedEnforcement → List String → List ℕ → List String → List LockStep × Bool
execute_lock uid settings sessions locked later =
    resume uid locked later
      (begin_lock settings.lockout_grace_minutes settings.preserve_tasks_on_lock sessions)
