-- ===== src/Agent/Grace.antt =====
-- When `execute_lock` terminates sessions.
use screenguard.Prelude.{
  eq_nat, ℕ, ◌*◌, ◌≡◌, ◌↔◌, refl, Bool, true, false, List, [], ◌∷◌, ◌++◌, String, contains, arith,
  any, ◌||◌,
}
use screenguard.Agent.Db.{CachedEnforcement}
use screenguard.Agent.Lock.{
  LockStep, notify, sleep, lock_sessions, terminate_sessions, should_warn_before_lock,
  warning_steps, after_lock, resume, lock_behavior, begin_lock, end_lock, execute_lock,
}

abbrev pub is_end : LockStep → Bool
is_end notify = false
is_end (sleep n) = false
is_end (lock_sessions s) = false
is_end (terminate_sessions s) = true

abbrev pub has_some : List String → Bool
has_some [] = false
has_some (s ∷ sessions) = true

-- The steps and the answer for a user with sessions.
abbrev locked_steps : ℕ → ℕ → Bool → List String → List ℕ → List String → List LockStep × Bool
locked_steps uid grace preserve sessions locked later = resume uid locked later (
    after_lock (lock_behavior preserve) grace
      (warning_steps grace ++ (lock_sessions sessions ∷ [])))

warning_steps-quiet : (grace : ℕ) → any is_end (warning_steps grace) ≡ false
unfolding should_warn_before_lock
warning_steps-quiet grace = ground arith

any_append : (xs ys : List LockStep) → any is_end (xs ++ ys) ≡ (any is_end xs || any is_end ys)
any_append [] ys = refl
any_append (x ∷ xs) ys = ground (arith, any_append xs ys)

locking_quiet :
    (grace : ℕ) (sessions : List String)
    → any is_end (warning_steps grace ++ (lock_sessions sessions ∷ [])) ≡ false
locking_quiet grace sessions = ground (
  arith,
  any_append (warning_steps grace) (lock_sessions sessions ∷ []),
  warning_steps-quiet grace,
)

waiting_quiet :
    (grace : ℕ) (sessions : List String)
    → any is_end
        ((warning_steps grace ++ (lock_sessions sessions ∷ [])) ++ (sleep (grace * 60) ∷ []))
      ≡ false
waiting_quiet grace sessions = ground (
  arith,
  any_append (warning_steps grace ++ (lock_sessions sessions ∷ [])) (sleep (grace * 60) ∷ []),
  locking_quiet grace sessions,
)

-- The same, from the behaviour on a user with sessions.
behavior_iff :
    (uid grace : ℕ) (preserve : Bool) (sessions : List String) (locked : List ℕ)
    (later : List String)
    → has_some sessions ≡ true
    → ((any is_end (locked_steps uid grace preserve sessions locked later).0 ≡ true) ↔ (
        (has_some sessions ≡ true)
        × (preserve ≡ false)
        × (contains locked uid ≡ true)
        × (has_some later ≡ true)))
      × (((locked_steps uid grace preserve sessions locked later).1 ≡ false)
          ↔ ((has_some sessions ≡ true) × (preserve ≡ true)))
unfolding lock_behavior end_lock
behavior_iff uid grace true sessions locked later h =
    ground (arith, locking_quiet grace sessions, h)
behavior_iff uid grace false sessions locked [] h = ground (
  arith,
  h,
  waiting_quiet grace sessions,
  any_append ((warning_steps grace ++ (lock_sessions sessions ∷ [])) ++ (sleep (grace * 60) ∷ []))
      (end_lock uid locked []),
)
behavior_iff uid grace false sessions locked (l ∷ later) h = ground (
  arith,
  h,
  waiting_quiet grace sessions,
  any_append ((warning_steps grace ++ (lock_sessions sessions ∷ [])) ++ (sleep (grace * 60) ∷ []))
      (end_lock uid locked (l ∷ later)),
)

-- A lock ends sessions exactly when the user had sessions, the settings do not preserve the tasks,
-- the user is still locked after the grace period, and sessions are left then; and the caller is to
-- keep the lock armed exactly when the user had sessions and the settings preserve the tasks.
pub execute_lock-ends_iff :
    (uid : ℕ) (settings : CachedEnforcement) (sessions : List String) (locked : List ℕ)
    (later : List String)
    → ((any is_end (execute_lock uid settings sessions locked later).0 ≡ true) ↔ (
        (has_some sessions ≡ true)
        × (settings.preserve_tasks_on_lock ≡ false)
        × (contains locked uid ≡ true)
        × (has_some later ≡ true)))
      × (((execute_lock uid settings sessions locked later).1 ≡ false)
          ↔ ((has_some sessions ≡ true) × (settings.preserve_tasks_on_lock ≡ true)))
unfolding execute_lock begin_lock
execute_lock-ends_iff uid settings [] locked later = ground arith
execute_lock-ends_iff uid settings (s ∷ sessions) locked later =
    behavior_iff uid settings.lockout_grace_minutes settings.preserve_tasks_on_lock (s ∷ sessions)
      locked later refl
