-- ===== src/Examples/Server.antt =====
-- The answer to a heartbeat at concrete inputs.
use screenguard.Prelude.{
  eq_nat, eq_string, eq_pair, ℕ, ◌/◌, ◌%◌, ◌≡◌, ◌≢◌, ◌↔◌, refl, Option, none, some, List, [], ◌∷◌,
  String, arith, Any,
}
use screenguard.Prelude.Int.{ℤ, pos, neg_part, ◌+ℤ◌, ◌-ℤ◌, ◌<ℤ◌, as_i32, wrap_i32, min_ℤ, div_ℤ}
use screenguard.Models.{allow, warn, lock}
use screenguard.Examples.Times.{minutes}
use screenguard.Agent.Offline as Offline
use screenguard.Server.Db.{
  Schedule, DailyLimit, Db, reconcile_usage_seconds, get_used_seconds_for_profile_today,
}
use screenguard.Server.Windows.{Zones, parse_time, active_end, next_start, check_schedule_windows}
use screenguard.Server.Closest.{Earliest, EndsAt, StartsAt, check_schedule_windows-Earliest}
use screenguard.Server.Remaining.{
  Moment, RemainingEntry, limit_today, used_minutes, left_today, action_for, entry_of,
  calculate_remaining_for_agent,
}
use screenguard.Server.Entries.{InRange, IsOpen, entry_of-lock_iff, entry_of-remaining_iff}
use screenguard.Server.Totals.{reconcile_usage_seconds_twice}
use screenguard.Server.Usage.{credits, calculate_remaining_for_agent_used}

abbrev pub parse_minutes : String → Option ℕ
unfolding Offline.parse_time
parse_minutes s = Offline.parse_time {T = ℕ} s

instance abbrev pub zones : Zones ℕ
zones = record {
  parse_from_str = parse_minutes;
  hour = λ t. t / 60;
  minute = λ t. t % 60;
  in_zone = λ admin agent t. some t;
}

-- Two windows on Monday that overlap, and one later.
abbrev pub rows : List Schedule
rows =
    record { id = "a"; profile_id = "p"; day_of_week = 0; start_time = "08:00"; end_time = "12:00" }
    ∷ record {
      id = "b";
      profile_id = "p";
      day_of_week = 0;
      start_time = "09:00";
      end_time = "11:00";
    }
    ∷ record {
      id = "c";
      profile_id = "p";
      day_of_week = 0;
      start_time = "14:00";
      end_time = "18:00";
    }
    ∷ []

windows :
    (check_schedule_windows {T = ℕ} rows 0 600 ≡ (some 660, some 840))
    × (check_schedule_windows {T = ℕ} rows 0 780 ≡ (none, some 840))
    × (check_schedule_windows {T = ℕ} rows 1 600 ≡ (none, none))
unfolding check_schedule_windows active_end next_start parse_time Offline.parse_time
windows = (refl, refl, refl)

check_schedule_windows-Earliest_example :
    Earliest {T = ℕ} (λ t. Any (EndsAt 0 600 t) rows) (check_schedule_windows rows 0 600).0
    × Earliest {T = ℕ} (λ t. Any (StartsAt 0 600 t) rows) (check_schedule_windows rows 0 600).1
check_schedule_windows-Earliest_example = check_schedule_windows-Earliest {T = ℕ} rows 0 600

abbrev pub ten : Moment ℕ
ten = record { today = "2026-01-05"; weekday = 0; now = 600 }

abbrev pub hour_a_day : List DailyLimit
hour_a_day = record { profile_id = "p"; day_of_week = 0; allowed_minutes = pos 60 } ∷ []

abbrev thresholds : List ℤ
thresholds = pos 15 ∷ pos 5 ∷ []

abbrev entry : ℤ → RemainingEntry ℕ
entry used = entry_of 1000 ten hour_a_day (pos 10) used rows thresholds []

entries :
    ((entry (pos 1800)).remaining_minutes ≡ pos 40)
    × ((entry (pos 1800)).enforce ≡ allow)
    × ((entry (pos 3300)).enforce ≡ warn)
    × ((entry (pos 4200)).enforce ≡ lock)
unfolding entry_of limit_today used_minutes left_today action_for check_schedule_windows active_end
    next_start parse_time Offline.parse_time ◌+ℤ◌ ◌-ℤ◌ wrap_i32 as_i32 min_ℤ div_ℤ
entries = (refl, refl, refl, refl)

entry-InRange : InRange (limit_today 0 hour_a_day).0 (pos 10) (pos 1800)
unfolding limit_today ◌+ℤ◌ ◌-ℤ◌ div_ℤ
entry-InRange = (
  record { above = omega arith; below = omega arith },
  record { above = omega arith; below = omega arith },
  record { above = omega arith; below = omega arith },
)

entry_of-lock_iff_example : ((entry (pos 1800)).enforce ≢ lock) ↔ (
    IsOpen 600 rows (check_schedule_windows {T = ℕ} rows 0 600).0
    × (div_ℤ (pos 1800) 60 <ℤ ((limit_today 0 hour_a_day).0 +ℤ pos 10)))
entry_of-lock_iff_example =
    entry_of-lock_iff 1000 ten hour_a_day (pos 10) (pos 1800) rows thresholds [] entry-InRange

entry_of-remaining_iff_example :
    (neg_part (entry (pos 4200)).remaining_minutes ≡ 0)
    × (((entry (pos 4200)).enforce ≡ lock) ↔ ((entry (pos 4200)).remaining_minutes ≡ pos 0))
entry_of-remaining_iff_example =
    entry_of-remaining_iff 1000 ten hour_a_day (pos 10) (pos 4200) rows thresholds []

abbrev pub db : Db
db = record {
  agent_users =
      record {
        id = "u1";
        agent_id = "x";
        profile_id = some "p";
        local_uid = 1000;
        status = "managed";
      }
      ∷ record {
        id = "u2";
        agent_id = "x";
        profile_id = none;
        local_uid = 1001;
        status = "managed";
      }
      ∷ record {
        id = "u3";
        agent_id = "y";
        profile_id = some "p";
        local_uid = 1000;
        status = "managed";
      }
      ∷ [];
  schedules = rows;
  daily_limits = hour_a_day;
  time_adjustments = [];
  enforcement_settings = [];
  daily_usage = (("u3", "2026-01-05"), pos 600) ∷ [];
}

reconcile_usage_seconds_twice_example :
    reconcile_usage_seconds
      (reconcile_usage_seconds db "u3" "2026-01-05" (pos 900))
      "u3"
      "2026-01-05"
      (pos 700)
    ≡ reconcile_usage_seconds db "u3" "2026-01-05" (pos 900)
reconcile_usage_seconds_twice_example =
    reconcile_usage_seconds_twice db "u3" "2026-01-05" (pos 900) (pos 700) (omega arith)

calculate_remaining_for_agent_used_example :
    get_used_seconds_for_profile_today
      (calculate_remaining_for_agent {T = ℕ} 0 1439 "UTC" "UTC"
        (λ p. [])
        "x"
        ten
        db
        ((1000, 30) ∷ (1001, 20) ∷ [])).0
      "p"
      "2026-01-05"
    ≡ get_used_seconds_for_profile_today db "p" "2026-01-05"
      +ℤ pos (credits db "x" "p" ((1000, 30) ∷ (1001, 20) ∷ []))
calculate_remaining_for_agent_used_example =
    calculate_remaining_for_agent_used {T = ℕ} 0 1439 "UTC" "UTC" (λ p. []) "x" ten db "p"
      ((1000, 30) ∷ (1001, 20) ∷ []) (refl, (refl, (refl, tt)))
