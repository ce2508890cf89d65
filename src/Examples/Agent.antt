-- ===== src/Examples/Agent.antt =====
-- The offline decision at concrete inputs.
use screenguard.Agent.Lock.{
  notify, sleep, lock_sessions, terminate_sessions, should_warn_before_lock, lock_behavior,
  begin_lock, end_lock, execute_lock,
}
use screenguard.Prelude.{◌*◌, List}
use screenguard.Times.{billion}
use screenguard.Agent.Timer.{
  advance_usage_timer, active_secs, beats, IsSteady, last_read, beats_exact,
}
use screenguard.Agent.Grace.{is_end, has_some, execute_lock-ends_iff}
use screenguard.Prelude.{
  any, contains, eq_nat, eq_string, eq_pair, ℕ, ◌+◌, ◌≡◌, ◌≢◌, ◌≤◌, ◌↔◌, refl, true, [], ◌∷◌, find,
  arith, none,
}
use screenguard.Prelude.Dict.{get}
use screenguard.Prelude.Int.{pos, ◌+ℤ◌, ◌-ℤ◌, as_i32, wrap_i32, min_ℤ, div_ℤ}
use screenguard.Models.{EnforceAction, allow, warn, lock}
use screenguard.Prelude.{true, false, contains, any}
use screenguard.Agent.Db.{CachedEnforcement}
use screenguard.Examples.Times.{minutes}
use screenguard.Agent.Db.{
  Db, get_cached_schedules, get_cached_daily_limits, get_cached_adjustment, get_cached_enforcement,
  get_usage_seconds, add_usage_seconds,
}
use screenguard.Agent.Offline.{
  matches, limit_for, parse_time, window_at, time_remaining, action_for, offline_evaluate,
}
use screenguard.Agent.Locks.{IsOpen, HasTime, InRange, offline_evaluate-lock_iff}
use screenguard.Agent.Usage.{severity, offline_evaluate-add_usage_seconds}

abbrev pub empty : Db
empty = record {
  server_connection = none;
  config_meta = none;
  managed_users = [];
  cached_schedules = [];
  cached_daily_limits = [];
  cached_adjustments = [];
  cached_enforcement = [];
  usage_log = [];
  app_usage_log = [];
  group_usage_log = [];
  cached_app_groups = [];
  cached_group_elsewhere = [];
  server_remaining = [];
  active_sessions = [];
  agent_state = record { mode = "unpaired"; offline_since = none };
  agent_capabilities = [];
  cached_blocked_domains = [];
}

-- Mondays from 8:00 to 20:00, an hour a day and ten minutes more today, half an hour used.
abbrev pub db : Db
db = record empty {
  cached_schedules =
      (1000, record { day_of_week = 0; start_time = "08:00"; end_time = "20:00" }) ∷ [];
  cached_daily_limits = (1000, record { day_of_week = 0; allowed_minutes = 60 }) ∷ [];
  cached_adjustments = ((1000, "2026-01-05"), pos 10) ∷ [];
  cached_enforcement = [];
  usage_log = ((1000, "2026-01-05"), record { used_seconds = 1800; synced = true }) ∷ [];
}

abbrev decide : ℕ → EnforceAction
decide now = offline_evaluate {T = ℕ} 1000 db "2026-01-05" 0 now

decisions :
    (decide 540 ≡ allow)
    × (decide 1184 ≡ allow)
    × (decide 1185 ≡ warn)
    × (decide 1199 ≡ warn)
    × (decide 1200 ≡ lock)
    × (decide 479 ≡ lock)
unfolding offline_evaluate window_at matches parse_time limit_for time_remaining action_for min_ℤ
    wrap_i32 as_i32 get get_cached_schedules get_cached_daily_limits get_cached_adjustment
    get_cached_enforcement get_usage_seconds ◌+ℤ◌ ◌-ℤ◌ div_ℤ
decisions = (refl, refl, refl, refl, refl, refl)

db-InRange :
    InRange
      (limit_for 1000 db 0)
      (get_cached_adjustment db 1000 "2026-01-05")
      (get_usage_seconds db 1000 "2026-01-05")
unfolding limit_for get_cached_daily_limits get_cached_adjustment get_usage_seconds get ◌+ℤ◌ ◌-ℤ◌
db-InRange = (
  omega arith,
  record { above = omega arith; below = omega arith },
  omega arith,
  record { above = omega arith; below = omega arith },
)

db-InRange_more :
    InRange
      (limit_for 1000 db 0)
      (get_cached_adjustment db 1000 "2026-01-05")
      (get_usage_seconds db 1000 "2026-01-05" + 600)
unfolding limit_for get_cached_daily_limits get_cached_adjustment get_usage_seconds get ◌+ℤ◌ ◌-ℤ◌
db-InRange_more = (
  omega arith,
  record { above = omega arith; below = omega arith },
  omega arith,
  record { above = omega arith; below = omega arith },
)

offline_evaluate-lock_iff_example : (decide 540 ≢ lock) ↔ (
    IsOpen {T = ℕ} 540
      (get_cached_schedules db 1000)
      (find (matches {T = ℕ} 0 540) (get_cached_schedules db 1000))
    × HasTime
        (limit_for 1000 db 0)
        (get_cached_adjustment db 1000 "2026-01-05")
        (get_usage_seconds db 1000 "2026-01-05"))
offline_evaluate-lock_iff_example = offline_evaluate-lock_iff 1000 db "2026-01-05" 0 540 db-InRange

offline_evaluate-add_usage_seconds_example :
    severity (decide 540)
    ≤ severity (
        offline_evaluate {T = ℕ} 1000
          (add_usage_seconds db 1000 "2026-01-05" 600)
          "2026-01-05"
          0
          540)
offline_evaluate-add_usage_seconds_example =
    offline_evaluate-add_usage_seconds 1000 db "2026-01-05" 0 540 600 db-InRange db-InRange_more

abbrev keep_five : CachedEnforcement
keep_five = record {
  lockout_grace_minutes = 5;
  warning_thresholds = [];
  language = "en";
  preserve_tasks_on_lock = false;
}

locks :
    (execute_lock 1000 keep_five ("s1" ∷ []) (1000 ∷ []) ("s1" ∷ []) ≡ (
      notify
          ∷ sleep 4
          ∷ lock_sessions ("s1" ∷ [])
          ∷ sleep 300
          ∷ terminate_sessions ("s1" ∷ [])
          ∷ [],
      true,
    ))
    × ((execute_lock 1000 keep_five ("s1" ∷ []) [] ("s1" ∷ [])).0
        ≡ (notify ∷ sleep 4 ∷ lock_sessions ("s1" ∷ []) ∷ sleep 300 ∷ []))
unfolding execute_lock begin_lock end_lock lock_behavior should_warn_before_lock
locks = (refl, refl)

execute_lock-ends_iff_example :
    ((any is_end (execute_lock 1000 keep_five ("s1" ∷ []) (1000 ∷ []) ("s1" ∷ [])).0 ≡ true) ↔ (
      (has_some ("s1" ∷ []) ≡ true)
      × (false ≡ false)
      × (contains {A = ℕ} (1000 ∷ []) 1000 ≡ true)
      × (has_some ("s1" ∷ []) ≡ true)))
    × (((execute_lock 1000 keep_five ("s1" ∷ []) (1000 ∷ []) ("s1" ∷ [])).1 ≡ false)
        ↔ ((has_some ("s1" ∷ []) ≡ true) × (false ≡ true)))
execute_lock-ends_iff_example =
    execute_lock-ends_iff 1000 keep_five ("s1" ∷ []) (1000 ∷ []) ("s1" ∷ [])

-- Ten seconds apart, a little late each time.
abbrev four_beats : List (ℕ × ℕ)
four_beats =
    (10300000000, 10300000100)
    ∷ (20600000000, 20600000100)
    ∷ (30900000000, 30900000100)
    ∷ (41200000000, 41200000100)
    ∷ []

four_beats_run : beats 10000000000 0 four_beats ≡ (40000000000, 40)
unfolding beats advance_usage_timer active_secs
four_beats_run = refl

four_beats-IsSteady : IsSteady 10000000000 0 four_beats
unfolding active_secs
four_beats-IsSteady = (
  omega arith,
  omega arith,
  omega arith,
  (
    omega arith,
    omega arith,
    omega arith,
    (omega arith, omega arith, omega arith, (omega arith, omega arith, omega arith, tt)),
  ),
)

beats_exact_example :
    ((beats 10000000000 0 four_beats).0 ≡ 0 + (beats 10000000000 0 four_beats).1 * billion)
    × ((beats 10000000000 0 four_beats).0 ≤ last_read 0 four_beats)
beats_exact_example = beats_exact 10000000000 0 four_beats four_beats-IsSteady
