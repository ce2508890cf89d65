-- ===== src/Agent/Locks.antt =====
-- What the offline decision means: when a session is locked, and that more use never loosens it.
use mathlib.Core.Bool.{false≢true}
use screenguard.Prelude.{
  eq_nat, eq_string, eq_pair, ℕ, ◌+◌, ◌*◌, ◌/◌, ◌≤◌, ◌<◌, ◌≡◌, ◌≢◌, ◌↔◌, refl, Bool, true, false,
  Option, none, some, List, [], ◌∷◌, String, if◌then◌else◌, find, arith,
}
use screenguard.Prelude.Int.{
  ℤ, pos, ◌+ℤ◌, ◌-ℤ◌, ◌<ℤ◌, leb_ℤ, min_ℤ, as_i32, two31, IsI32, as_i32-small, wrap_i32-small,
  -ℤ_parts,
}
use screenguard.Times.{NaiveTime, billion}
use screenguard.Models.{lock}
use screenguard.Agent.Db.{
  CachedSchedule, CachedLimit, Db, get_cached_schedules, get_cached_adjustment,
  get_cached_enforcement, get_usage_seconds,
}
use screenguard.Agent.Offline.{
  between, parse_time, matches, minutes_to, window_at, limit_for, time_remaining, action_for,
  offline_evaluate,
}

-- Less than the limit, with the extra time, is used.
abbrev pub HasTime : Option CachedLimit → ℤ → ℕ → Type 0
HasTime none extra used = Unit
HasTime (some limit) extra used = pos (used / 60) <ℤ (pos limit.allowed_minutes +ℤ extra)

-- No sum of the decision leaves the range of `i32`.
abbrev pub InRange : Option CachedLimit → ℤ → ℕ → Type 0
InRange none extra used = Unit
InRange (some limit) extra used =
    (limit.allowed_minutes < two31)
    × IsI32 (pos limit.allowed_minutes +ℤ extra)
    × (used / 60 < two31)
    × IsI32 ((pos limit.allowed_minutes +ℤ extra) -ℤ pos (used / 60))

pub time_remaining_exact :
    (l : CachedLimit) (extra : ℤ) (used : ℕ)
    → InRange (some l) extra used
    → time_remaining (some l) extra used ≡ (pos l.allowed_minutes +ℤ extra) -ℤ pos (used / 60)
unfolding time_remaining
time_remaining_exact l extra used (a, b, u, d) =
    rw (as_i32-small _ a) (rw (wrap_i32-small _ b) (rw (as_i32-small _ u) (wrap_i32-small _ d)))

time_remaining_iff :
    (o : Option CachedLimit) (extra : ℤ) (used : ℕ)
    → InRange o extra used
    → (leb_ℤ (time_remaining o extra used) (pos 0) ≡ false) ↔ HasTime o extra used
unfolding time_remaining
time_remaining_iff none extra used r = ground arith
time_remaining_iff (some l) extra used r =
    rw (time_remaining_exact l extra used r)
      (ground (arith, -ℤ_parts (pos l.allowed_minutes +ℤ extra) (pos (used / 60))))

module _ {T : Type 0} ⦃c : NaiveTime T⦄ where
  -- The matching window ends in a minute or more; without windows, any time is open.
  abbrev pub IsOpen : T → List CachedSchedule → Option CachedSchedule → Type 0
  IsOpen now [] o = Unit
  IsOpen now (s ∷ schedules) none = false ≡ true
  IsOpen now (s ∷ schedules) (some m) =
      (end : T) × (parse_time m.end_time ≡ some end) × (c.nanos now + 60 * billion ≤ c.nanos end)

  minutes_to_iff :
      (now end : T)
      → (leb_ℤ (minutes_to now end) (pos 0) ≡ false) ↔ (c.nanos now + 60 * billion ≤ c.nanos end)
  unfolding as_i32
  minutes_to_iff now end = ground (arith, c.num_seconds_lem end now, c.nanos_lt end)

  between-end :
      (now : T) (start end : Option T) → between now start end ≡ true → (e : T) × (end ≡ some e)
  between-end now none end h = absurd (false≢true h)
  between-end now (some start) none h = absurd (false≢true h)
  between-end now (some start) (some end) h = (end, refl)

  -- A row that matches has an end.
  matches-end :
      (weekday : ℕ) (now : T) (s : CachedSchedule)
      → matches weekday now s ≡ true
      → (end : T) × (parse_time s.end_time ≡ some end)
  unfolding matches
  matches-end weekday now s h =
      between-end now (parse_time s.start_time) (parse_time s.end_time) (ground arith)

  find-matches :
      (weekday : ℕ) (now : T) (schedules : List CachedSchedule) (s : CachedSchedule)
      → find (matches weekday now) schedules ≡ some s
      → matches weekday now s ≡ true
  find-matches weekday now [] s h = cc
  find-matches weekday now (r ∷ rs) s h = ground (arith, find-matches weekday now rs s)

  window_at-some :
      (now : T) (schedules : List CachedSchedule) (s m : CachedSchedule) (end : T)
      → parse_time m.end_time ≡ some end
      → window_at now (s ∷ schedules) (some m) ≡ (true, minutes_to now end)
  unfolding window_at
  window_at-some now schedules s m end h = rw h refl

  window_at-some_iff :
      (now : T) (schedules : List CachedSchedule) (s m : CachedSchedule) (end : T)
      → parse_time m.end_time ≡ some end
      → (((window_at now (s ∷ schedules) (some m)).0 ≡ true)
          × (leb_ℤ (window_at now (s ∷ schedules) (some m)).1 (pos 0) ≡ false))
        ↔ IsOpen now (s ∷ schedules) (some m)
  window_at-some_iff now schedules s m end eq = rw (window_at-some now schedules s m end eq) (
    λ p. (end, eq, (minutes_to_iff now end).0 p.1),
    λ q. (refl, (minutes_to_iff now end).1 (ground (arith, q.2, q.1, eq))),
  )

  window_at_iff :
      (now : T) (schedules : List CachedSchedule) (o : Option CachedSchedule)
      → ((m : CachedSchedule) → o ≡ some m → (end : T) × (parse_time m.end_time ≡ some end))
      → (((window_at now schedules o).0 ≡ true)
          × (leb_ℤ (window_at now schedules o).1 (pos 0) ≡ false))
        ↔ IsOpen now schedules o
  unfolding window_at
  window_at_iff now [] o h = ground arith
  window_at_iff now (s ∷ schedules) none h = ground arith
  window_at_iff now (s ∷ schedules) (some m) h =
      window_at-some_iff now schedules s m (h m refl).0 (h m refl).1

action_for-lock :
    (remaining : ℤ) (ts : List ℕ)
    → (action_for remaining ts ≡ lock) ↔ (leb_ℤ remaining (pos 0) ≡ true)
unfolding action_for
action_for-lock remaining ts = ground arith

min_positive :
    (a b : ℤ)
    → (leb_ℤ (min_ℤ a b) (pos 0) ≡ false) ↔ ((leb_ℤ a (pos 0) ≡ false) × (leb_ℤ b (pos 0) ≡ false))
unfolding min_ℤ
min_positive a b = ground arith

decide_iff :
    (window : Bool × ℤ) (time : ℤ) (ts : List ℕ)
    → ((if window.0 then action_for (min_ℤ time window.1) ts else lock) ≢ lock)
      ↔ (((window.0 ≡ true) × (leb_ℤ window.1 (pos 0) ≡ false)) × (leb_ℤ time (pos 0) ≡ false))
decide_iff (true, w) time ts =
    ground (arith, action_for-lock (min_ℤ time w) ts, min_positive time w)
decide_iff (false, w) time ts = ground arith

module _ {T : Type 0} ⦃c : NaiveTime T⦄ where
  matching-end :
      (weekday : ℕ) (now : T) (schedules : List CachedSchedule) (m : CachedSchedule)
      → find (matches weekday now) schedules ≡ some m
      → (end : T) × (parse_time m.end_time ≡ some end)
  matching-end weekday now schedules m h =
      matches-end weekday now m (find-matches weekday now schedules m h)

  -- Offline, a session stays usable exactly when the first of the user's windows that holds the
  -- local time ends in a minute or more (a user without windows is free at any time) and the
  -- seconds used today make less minutes than today's limit with the extra time (a day without
  -- limit is free). The sums of the decision are in the range of `i32`.
  pub offline_evaluate-lock_iff :
      (uid : ℕ) (db : Db) (today : String) (weekday : ℕ) (now : T)
      → InRange
          (limit_for uid db weekday)
          (get_cached_adjustment db uid today)
          (get_usage_seconds db uid today)
      → (offline_evaluate uid db today weekday now ≢ lock) ↔ (
          IsOpen now
            (get_cached_schedules db uid)
            (find (matches weekday now) (get_cached_schedules db uid))
          × HasTime
              (limit_for uid db weekday)
              (get_cached_adjustment db uid today)
              (get_usage_seconds db uid today))
  unfolding offline_evaluate
  offline_evaluate-lock_iff uid db today weekday now r =
      let schedules = get_cached_schedules db uid in
      let o = find (matches weekday now) schedules in
      let extra = get_cached_adjustment db uid today in
      let used = get_usage_seconds db uid today in
      let limit = limit_for uid db weekday in
      ground (
        arith,
        decide_iff (window_at now schedules o) (time_remaining limit extra used)
            (get_cached_enforcement db uid).warning_thresholds,
        window_at_iff now schedules o (matching-end weekday now schedules),
        time_remaining_iff limit extra used r,
      )
