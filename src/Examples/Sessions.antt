-- ===== src/Examples/Sessions.antt =====
-- A user who logs in, works, sleeps and wakes.
use screenguard.Prelude.{eq_nat, eq_string, eq_pair, ℕ, true, false, some, List, [], ◌∷◌}
use screenguard.Agent.Sessions.{
  SessionUsageState, SessionEvent, session_started, state_changed, prepare_for_sleep,
  uid_is_counting,
}
use screenguard.Agent.Counting.{is_running, Follows, run, awake_after, initial, run-Follows}
use screenguard.Examples.Agent.{empty}

abbrev in_use : SessionUsageState
in_use = record { active = some true; locked = some false; idle = some false }

abbrev day : List (ℕ × SessionEvent)
day =
    (1, session_started 1000 "s1")
    ∷ (2, state_changed 1000 "s1" in_use)
    ∷ (3, prepare_for_sleep true)
    ∷ (9, prepare_for_sleep false)
    ∷ []

run-Follows_example :
    Follows
      (awake_after true day)
      (is_running (run (initial empty) day) 1000)
      (uid_is_counting (run (initial empty) day).session_states 1000)
run-Follows_example = run-Follows empty day 1000
