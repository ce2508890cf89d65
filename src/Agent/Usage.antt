-- ===== src/Agent/Usage.antt =====
-- Counting time offline (`add_usage_seconds`) and its effect on the decision.
use screenguard.Prelude.{
  eq_nat, eq_string, eq_pair, ==_refl, ℕ, ◌+◌, ◌/◌, ◌≤◌, ◌≡◌, refl, Bool, true, false, Option, none,
  some, List, [], ◌∷◌, String, any, find, if◌then◌else◌, arith,
}
use screenguard.Prelude.Dict.{get-insert}
use screenguard.Prelude.Int.{ℤ, pos, ◌+ℤ◌, ◌≤ℤ◌, leb_ℤ, min_ℤ, as_i32, -ℤ_parts}
use screenguard.Times.{NaiveTime}
use screenguard.Models.{EnforceAction, allow, warn, lock}
use screenguard.Agent.Db.{
  CachedLimit, Db, get_cached_schedules, get_cached_daily_limits, get_cached_adjustment,
  get_cached_enforcement, get_usage_seconds, add_usage_seconds,
}
use screenguard.Agent.Offline.{
  matches, window_at, limit_for, time_remaining, action_for, offline_evaluate,
}
use screenguard.Agent.Locks.{InRange, time_remaining_exact}

-- How much an action holds back.
abbrev pub severity : EnforceAction → ℕ
severity allow = 0
severity warn = 1
severity lock = 2

any-antitone :
    (r s : ℤ) (ts : List ℕ)
    → r ≤ℤ s
    → any (λ t. leb_ℤ s (as_i32 t)) ts ≡ true
    → any (λ t. leb_ℤ r (as_i32 t)) ts ≡ true
any-antitone r s [] h k = k
any-antitone r s (t ∷ ts) h k = ground (arith, any-antitone r s ts h)

action_for-antitone :
    (r s : ℤ) (ts : List ℕ) → r ≤ℤ s → severity (action_for s ts) ≤ severity (action_for r ts)
unfolding action_for
action_for-antitone r s ts h = ground (arith, any-antitone r s ts h)

min_mono : (a b w : ℤ) → a ≤ℤ b → min_ℤ a w ≤ℤ min_ℤ b w
unfolding min_ℤ
min_mono a b w h = ground arith

decide-antitone :
    (window : Bool × ℤ) (r s : ℤ) (ts : List ℕ)
    → r ≤ℤ s
    → severity (if window.0 then action_for (min_ℤ s window.1) ts else lock)
      ≤ severity (if window.0 then action_for (min_ℤ r window.1) ts else lock)
decide-antitone (true, w) r s ts h =
    action_for-antitone (min_ℤ r w) (min_ℤ s w) ts (min_mono r s w h)
decide-antitone (false, w) r s ts h = ground arith

time_remaining-antitone :
    (o : Option CachedLimit) (extra : ℤ) (used more : ℕ)
    → used ≤ more
    → InRange o extra used
    → InRange o extra more
    → time_remaining o extra more ≤ℤ time_remaining o extra used
unfolding time_remaining
time_remaining-antitone none extra used more h r q = ground arith
time_remaining-antitone (some l) extra used more h r q = rw (time_remaining_exact l extra used r) (
    rw (time_remaining_exact l extra more q) (
      ground (
        arith,
        -ℤ_parts (pos l.allowed_minutes +ℤ extra) (pos (used / 60)),
        -ℤ_parts (pos l.allowed_minutes +ℤ extra) (pos (more / 60)),
      )))

-- The seconds of a day add up.
pub get_usage_seconds-add_usage_seconds :
    (db : Db) (uid : ℕ) (date : String) (seconds : ℕ)
    → get_usage_seconds (add_usage_seconds db uid date seconds) uid date
      ≡ get_usage_seconds db uid date + seconds
unfolding get_usage_seconds add_usage_seconds
get_usage_seconds-add_usage_seconds db uid date seconds =
    rw get-insert (rw (==_refl {A = ℕ × String} (uid, date)) refl)

module _ {T : Type 0} ⦃c : NaiveTime T⦄ where
  -- Counting seconds of today never loosens the offline decision: from allow to warn to lock it
  -- only gets stricter. The sums of both decisions are in the range of `i32`.
  pub offline_evaluate-add_usage_seconds :
      (uid : ℕ) (db : Db) (today : String) (weekday : ℕ) (now : T) (seconds : ℕ)
      → InRange
          (limit_for uid db weekday)
          (get_cached_adjustment db uid today)
          (get_usage_seconds db uid today)
      → InRange
          (limit_for uid db weekday)
          (get_cached_adjustment db uid today)
          (get_usage_seconds db uid today + seconds)
      → severity (offline_evaluate uid db today weekday now)
        ≤ severity (offline_evaluate uid (add_usage_seconds db uid today seconds) today weekday now)
  unfolding offline_evaluate add_usage_seconds limit_for get_cached_schedules
      get_cached_daily_limits get_cached_adjustment get_cached_enforcement
  offline_evaluate-add_usage_seconds uid db today weekday now seconds r q =
      let schedules = get_cached_schedules db uid in
      let limit = limit_for uid db weekday in
      let extra = get_cached_adjustment db uid today in
      let used = get_usage_seconds db uid today in
      rw (get_usage_seconds-add_usage_seconds db uid today seconds) (
        decide-antitone (window_at now schedules (find (matches weekday now) schedules))
          (time_remaining limit extra (used + seconds)) (time_remaining limit extra used)
          (get_cached_enforcement db uid).warning_thresholds
          (time_remaining-antitone limit extra used (used + seconds) (omega arith) r q))
