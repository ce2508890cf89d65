-- ===== src/Examples/Sync.antt =====
-- Heartbeats and syncs of an agent with one child.
use screenguard.Prelude.{
  eq_nat, eq_string, eq_pair, ℕ, ◌≡◌, ◌≢◌, String, refl, true, false, some, List, [], ◌∷◌, arith,
}
use screenguard.Prelude.Dict.{get, get_or}
use screenguard.Prelude.Int.{pos, ◌≤ℤ◌}
use screenguard.Agent.Db.{get_usage_seconds}
use screenguard.Server.Db.{Db, AgentUser, get_agent_user}
use screenguard.Sync.{World, Event, heartbeat, usage_sync, midnight, run, step}
use screenguard.Sync.Agree.{IsFresh, IsWithin, run_never_more, run_catches_up}
use screenguard.Examples.Agent.{empty}
use screenguard.Examples.Times.{minutes}
use screenguard.Examples.Server.{zones, ten}

abbrev child : AgentUser
child = record {
  id = "u";
  agent_id = "a";
  profile_id = some "p";
  local_uid = 1000;
  status = "managed";
}

abbrev server : Db
server = record {
  agent_users = child ∷ [];
  schedules = [];
  daily_limits = [];
  time_adjustments = [];
  enforcement_settings = [];
  daily_usage = [];
}

abbrev start : World
start = record { agent_db = empty; server_db = server }

abbrev events : List Event
events =
    midnight "2026-01-04"
    ∷ heartbeat true "2026-01-05" "2026-01-05" ((1000, 10) ∷ [])
    ∷ heartbeat false "2026-01-05" "2026-01-05" ((1000, 10) ∷ [])
    ∷ usage_sync true
    ∷ heartbeat true "2026-01-05" "2026-01-05" ((1000, 5) ∷ [])
    ∷ []

abbrev after : World
after = run {T = ℕ} 0 1439 "UTC" "UTC" (λ p. []) "a" ten some start events

child-only : (v : ℕ) (b : AgentUser) → get_agent_user server "a" v ≡ some b → b.id ≡ "u" → v ≡ 1000
unfolding get_agent_user
child-only v b p q = ground arith

start-IsFresh :
    IsFresh {T = ℕ} 0 1439 "UTC" "UTC" (λ p. []) "a" ten some 1000 "u" "2026-01-05" start
unfolding get_agent_user get
start-IsFresh = record {
  owner = record { user = child; found = refl; is_id = refl; only = child-only };
  unused = refl;
  unstored = refl;
}

other_day : ◌≢◌ {A = String} "2026-01-04" "2026-01-05"
other_day e = let same = (eq_string.same_iff "2026-01-04" "2026-01-05").1 e in cc (same)

within : IsWithin some "2026-01-05" events
within = (other_day, ((refl, refl), ((refl, refl), ((refl, refl), tt))))

run_never_more_example :
    get_or (pos 0) after.server_db.daily_usage ("u", "2026-01-05")
    ≤ℤ pos (get_usage_seconds after.agent_db 1000 "2026-01-05")
run_never_more_example =
    run_never_more {T = ℕ} 0 1439 "UTC" "UTC" (λ p. []) "a" ten some 1000 "u" "2026-01-05" start
      events start-IsFresh within (omega arith)

run_catches_up_example :
    get_or
      (pos 0)
      (step {T = ℕ} 0 1439 "UTC" "UTC"
        (λ p. [])
        "a"
        ten
        some
        after
        (usage_sync true)).server_db.daily_usage
      ("u", "2026-01-05")
    ≡ pos (
        get_usage_seconds
          (step {T = ℕ} 0 1439 "UTC" "UTC" (λ p. []) "a" ten some after (usage_sync true)).agent_db
          1000
          "2026-01-05")
run_catches_up_example =
    run_catches_up {T = ℕ} 0 1439 "UTC" "UTC" (λ p. []) "a" ten some 1000 "u" "2026-01-05" start
      events start-IsFresh within (omega arith) refl
