-- ===== src/Examples/Config.antt =====
-- The configuration that the server builds for a child, which the agent then decides by.
use screenguard.Prelude.{
  eq_nat, eq_string, eq_pair, ℕ, ◌≡◌, refl, true, some, [], ◌∷◌, find, arith, ◌==◌,
}
use screenguard.Prelude.Dict.{get}
use screenguard.Prelude.Int.{pos, ◌+ℤ◌}
use screenguard.Text.Decimal.{to_string}
use screenguard.Agent.Tables as Tables
use screenguard.Agent.Db.{get_usage_seconds}
use screenguard.Agent.Config.{apply_config_push}
use screenguard.Agent.View.{view}
use screenguard.Agent.Reads.{expected}
use screenguard.Agent.Offline.{offline_evaluate}
use screenguard.Prelude.Sort.{sort_by}
use screenguard.Server.Db.{
  AgentUser, DailyLimit, Db, get_agent_user, get_schedules, get_daily_limits,
  get_used_seconds_for_profile_today,
}
use screenguard.Server.Remaining.{entry_in}
use screenguard.Server.Push.{Household, db_of, build_config_push}
use screenguard.Server.Push.Tables.{IsDb}
use screenguard.Server.Push.Sent.{apply_config_push-build_config_push}
use screenguard.Server.Push.Agreed.{offline_evaluate-entry_in}
use screenguard.Examples.Times.{minutes}
use screenguard.Examples.Agent as Agent
use screenguard.Examples.Server.{zones, ten, db}
use screenguard.Examples.Groups.{listing}
use screenguard.Examples.Approvals.{approvals}

-- An hour a day, at any time of the day.
abbrev free : Db
free = record db { schedules = [] }

abbrev household : Household
household = record {
  approvals = record approvals { tables = record approvals.tables { db = free } };
  languages = ("p", "de") ∷ [];
  blocked_domains = record { profile_id = "p"; domain = "a.example"; enabled = true } ∷ [];
  group_limits =
      record { profile_id = "p"; group_id = "b"; day_of_week = 0; allowed_minutes = pos 0 } ∷ [];
  group_adjustments = [];
}

household-IsDb : IsDb (db_of household)
household-IsDb = record { days = tt; limits = (refl, refl, tt); users = (refl, (refl, (refl, tt))) }

apply_config_push-build_config_push_example :
    (after : Tables.Db) × (apply_config_push to_string "2026-01-05" Agent.empty
        (build_config_push {T = ℕ} 0 1439 household "2026-01-05" "x")
      ≡ some after)
    × ((v : ℕ)
        → view "2026-01-05" after v
          ≡ expected to_string "2026-01-05" v
              (build_config_push {T = ℕ} 0 1439 household "2026-01-05" "x"))
apply_config_push-build_config_push_example =
    apply_config_push-build_config_push {T = ℕ} 0 1439 household "2026-01-05" "x" to_string
      Agent.empty household-IsDb

abbrev child : AgentUser
child = record {
  id = "u1";
  agent_id = "x";
  profile_id = some "p";
  local_uid = 1000;
  status = "managed";
}

abbrev hour : DailyLimit
hour = record { profile_id = "p"; day_of_week = 0; allowed_minutes = pos 60 }

-- Ten minutes of today are used.
abbrev agent_db : Tables.Db
agent_db = record Agent.empty {
  usage_log = ((1000, "2026-01-05"), record { used_seconds = 600; synced = true }) ∷ [];
}

pushed :
    (after : Tables.Db) × (apply_config_push to_string "2026-01-05" agent_db
        (build_config_push {T = ℕ} 0 1439 household "2026-01-05" "x")
      ≡ some after)
    × ((v : ℕ)
        → view "2026-01-05" after v
          ≡ expected to_string "2026-01-05" v
              (build_config_push {T = ℕ} 0 1439 household "2026-01-05" "x"))
pushed =
    apply_config_push-build_config_push {T = ℕ} 0 1439 household "2026-01-05" "x" to_string agent_db
      household-IsDb

found : get_agent_user (db_of household) "x" 1000 ≡ some child
unfolding get_agent_user
found = refl

no_windows : get_schedules (db_of household) "p" ≡ []
unfolding get_schedules sort_by
no_windows = refl

limited :
    find (λ (r : DailyLimit). r.day_of_week == 0) (get_daily_limits (db_of household) "p")
    ≡ some hour
unfolding get_daily_limits sort_by
limited = refl

counted :
    get_used_seconds_for_profile_today (db_of household) "p" "2026-01-05"
    ≡ pos (get_usage_seconds agent_db 1000 "2026-01-05")
unfolding get_used_seconds_for_profile_today get_usage_seconds get ◌+ℤ◌
counted = refl

offline_evaluate-entry_in_example :
    offline_evaluate {T = ℕ} 1000 pushed.0 "2026-01-05" 0 600
    ≡ (entry_in 0 1439 "UTC" "UTC" (λ p. []) "x" ten (db_of household) 1000 "p").enforce
offline_evaluate-entry_in_example =
    offline_evaluate-entry_in 0 1439 household to_string "x" "UTC" "UTC" (λ p. []) ten child "p"
      hour agent_db pushed.0 household-IsDb found refl refl no_windows limited
      (record { above = omega arith; below = omega arith }) counted pushed.1
