-- ===== src/Agent/Offline.antt =====
-- crates/agent/src/enforcement.rs, lines 33-103: the decision that the agent takes offline.
use screenguard.Prelude.{
  eq_nat, ℕ, ◌/◌, Bool, true, false, ◌&&◌, Option, none, some, List, [], ◌∷◌, String, ◌==◌, any,
  find, leb, if◌then◌else◌, ◌>>=◌,
}
use screenguard.Prelude.Int.{ℤ, pos, ◌+ℤ◌, ◌-ℤ◌, leb_ℤ, min_ℤ, max_zero, as_i32, wrap_i32}
use screenguard.Times.{NaiveTime}
use screenguard.Models.{EnforceAction, allow, warn, lock}
use screenguard.Text.{split, parse_u32}
use screenguard.Agent.Db.{
  CachedSchedule, CachedLimit, Db, get_cached_schedules, get_cached_daily_limits,
  get_cached_adjustment, get_cached_enforcement, get_usage_seconds,
}

abbrev pub i32_max : ℤ
i32_max = pos 2147483647

unfoldable pub limit_for : ℕ → Db → ℕ → Option CachedLimit
limit_for uid db weekday =
    find (λ (l : CachedLimit). l.day_of_week == weekday) (get_cached_daily_limits db uid)

-- What a limit leaves, given the extra minutes and the seconds used.
unfoldable pub time_remaining : Option CachedLimit → ℤ → ℕ → ℤ
time_remaining none extra used = i32_max
time_remaining (some limit) extra used =
    wrap_i32 (wrap_i32 (as_i32 limit.allowed_minutes +ℤ extra) -ℤ as_i32 (used / 60))

unfoldable pub action_for : ℤ → List ℕ → EnforceAction
action_for remaining thresholds =
    if leb_ℤ remaining (pos 0)
    then lock
    else if any (λ t. leb_ℤ remaining (as_i32 t)) thresholds
    then warn
    else allow

module _ {T : Type 0} ⦃c : NaiveTime T⦄ where
  abbrev pub time_of : List String → Option T
  time_of [] = none
  time_of (h ∷ []) = none
  time_of (h ∷ m ∷ rest) = parse_u32 h >>= λ hh. parse_u32 m >>= λ mm. c.from_hms_opt hh mm 0

  unfoldable pub parse_time : String → Option T
  parse_time s = time_of (split b':' s)

  -- `start.zip(end).map(..).unwrap_or(false)`: from the start to the end, both included
  abbrev pub between : T → Option T → Option T → Bool
  between now none end = false
  between now (some start) none = false
  between now (some start) (some end) =
      leb (c.nanos start) (c.nanos now) && leb (c.nanos now) (c.nanos end)

  unfoldable pub matches : ℕ → T → CachedSchedule → Bool
  matches weekday now s =
      (s.day_of_week == weekday) && between now (parse_time s.start_time) (parse_time s.end_time)

  -- Minutes up to the end of a window. The default of 23:59 is a time, so its `unwrap` returns.
  abbrev pub end_or_last : T → Option T → T
  end_or_last now (some end) = end
  end_or_last now none = elim (c.from_hms_opt 23 59 0) [ some last ↦ last | none ↦ now ]

  abbrev pub minutes_to : T → T → ℤ
  minutes_to now end = as_i32 (max_zero (c.num_seconds end now) / 60)

  unfoldable pub window_at : T → List CachedSchedule → Option CachedSchedule → Bool × ℤ
  window_at now [] matching = (true, i32_max)
  window_at now (s ∷ schedules) none = (false, pos 0)
  window_at now (s ∷ schedules) (some m) =
      (true, minutes_to now (end_or_last now (parse_time m.end_time)))

  -- `today` and `weekday` are those of the local date, and `now` its time.
  unfoldable pub offline_evaluate : ℕ → Db → String → ℕ → T → EnforceAction
  offline_evaluate uid db today weekday now =
      let schedules = get_cached_schedules db uid in
      let window = window_at now schedules (find (matches weekday now) schedules) in
      let time =
        time_remaining (limit_for uid db weekday) (get_cached_adjustment db uid today)
          (get_usage_seconds db uid today) in
      let thresholds = (get_cached_enforcement db uid).warning_thresholds in
      if window.0 then action_for (min_ℤ time window.1) thresholds else lock
