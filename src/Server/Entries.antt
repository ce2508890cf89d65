-- ===== src/Server/Entries.antt =====
-- What the answer to a heartbeat means: when a managed user is to be locked.
use screenguard.Prelude.{
  is_empty_list, eq_nat, ℕ, ◌+◌, ◌*◌, ◌/◌, ◌≤◌, ◌≡◌, ◌≢◌, ◌↔◌, refl, Bool, true, false, not, ◌&&◌,
  Option, none, some, List, [], ◌∷◌, is_some, if◌then◌else◌, arith,
}
use screenguard.Prelude.Int.{
  ℤ, pos, neg_part, ◌+ℤ◌, ◌-ℤ◌, ◌<ℤ◌, leb_ℤ, min_ℤ, max_zero, as_i32, wrap_i32, div_ℤ, IsI32,
  wrap_i32-small, -ℤ_parts,
}
use screenguard.Times.{NaiveTime, billion}
use screenguard.Models.{lock, GroupUsage}
use screenguard.Server.Db.{Schedule, DailyLimit}
use screenguard.Server.Windows.{Zones, check_schedule_windows}
use screenguard.Server.Remaining.{
  Moment, limit_today, used_minutes, left_today, action_for, cap, entry_of,
}

-- The sums of the calculation are in the range of `i32`.
abbrev pub InRange : ℤ → ℤ → ℤ → Type 0
InRange limit adjustments used =
    IsI32 (limit +ℤ adjustments)
    × IsI32 (div_ℤ used 60)
    × IsI32 ((limit +ℤ adjustments) -ℤ div_ℤ used 60)

left_today_iff :
    (limit adjustments used : ℤ)
    → InRange limit adjustments used
    → (leb_ℤ (left_today limit adjustments (used_minutes used)) (pos 0) ≡ false)
      ↔ (div_ℤ used 60 <ℤ (limit +ℤ adjustments))
unfolding left_today used_minutes
left_today_iff limit adjustments used (a, u, d) = rw (wrap_i32-small _ a) (
    rw (wrap_i32-small _ u)
      (rw (wrap_i32-small _ d) (ground (arith, -ℤ_parts (limit +ℤ adjustments) (div_ℤ used 60)))))

action_for-lock :
    (remaining : ℤ) (ts : List ℤ)
    → (action_for remaining ts ≡ lock) ↔ (leb_ℤ remaining (pos 0) ≡ true)
unfolding action_for
action_for-lock remaining ts = ground arith

module _ {T : Type 0} ⦃c : NaiveTime T⦄ where
  -- The open window closes in a minute or more; without a window, there are no schedules.
  abbrev pub IsOpen : T → List Schedule → Option T → Type 0
  IsOpen now schedules none = schedules ≡ []
  IsOpen now schedules (some end) = c.nanos now + 60 * billion ≤ c.nanos end

  minutes_iff :
      (now end : T)
      → (leb_ℤ (as_i32 (max_zero (c.num_seconds end now) / 60)) (pos 0) ≡ false)
        ↔ (c.nanos now + 60 * billion ≤ c.nanos end)
  unfolding as_i32
  minutes_iff now end = ground (arith, c.num_seconds_lem end now, c.nanos_lt end)

  minutes_natural : (now end : T) → neg_part (as_i32 (max_zero (c.num_seconds end now) / 60)) ≡ 0
  unfolding as_i32
  minutes_natural now end = ground (arith, c.num_seconds_lem end now, c.nanos_lt end)

min_natural : (a b : ℤ) → neg_part a ≡ 0 → neg_part b ≡ 0 → neg_part (min_ℤ a b) ≡ 0
unfolding min_ℤ
min_natural a b h k = ground arith

min_positive :
    (a b : ℤ)
    → (leb_ℤ (min_ℤ a b) (pos 0) ≡ false) ↔ ((leb_ℤ a (pos 0) ≡ false) × (leb_ℤ b (pos 0) ≡ false))
unfolding min_ℤ
min_positive a b = ground arith

module _ {T : Type 0} ⦃c : NaiveTime T⦄ where
  abbrev is_outside : Option T → List Schedule → Bool
  is_outside window schedules = not (is_some window) && not (is_empty_list schedules)

  decide_iff :
      (now : T) (window : Option T) (schedules : List Schedule) (left : ℤ) (ts : List ℤ)
      → ((if is_outside window schedules then lock else action_for (cap now window left) ts) ≢ lock)
        ↔ (IsOpen now schedules window × (leb_ℤ left (pos 0) ≡ false))
  decide_iff now none [] left ts = ground (arith, action_for-lock left ts)
  decide_iff now none (s ∷ schedules) left ts = (λ h. absurd (h refl), λ h. absurd cc)
  decide_iff now (some end) schedules left ts =
      let minutes = as_i32 (max_zero (c.num_seconds end now) / 60) in
      ground (
        arith,
        action_for-lock (min_ℤ left minutes) ts,
        min_positive left minutes,
        minutes_iff now end,
      )

  cap_natural : (now : T) (window : Option T) (n : ℕ) → neg_part (cap now window (pos n)) ≡ 0
  cap_natural now none n = refl
  cap_natural now (some end) n = min_natural (pos n) _ refl (minutes_natural now end)

shown_iff :
    (outside : Bool) (remaining : ℤ) (ts : List ℤ)
    → neg_part remaining ≡ 0
    → ((if outside then lock else action_for remaining ts) ≡ lock)
      ↔ ((if outside then pos 0 else remaining) ≡ pos 0)
shown_iff true remaining ts h = (λ e. refl, λ e. refl)
shown_iff false remaining ts h = ground (arith, action_for-lock remaining ts)

shown_natural :
    (outside : Bool) (remaining : ℤ)
    → neg_part remaining ≡ 0
    → neg_part (if outside then pos 0 else remaining) ≡ 0
shown_natural true remaining h = refl
shown_natural false remaining h = h

module _ {T : Type 0} ⦃c : NaiveTime T⦄ ⦃z : Zones T⦄ where
  -- The entry of a managed user does not say lock exactly when the open window of
  -- `check_schedule_windows` closes in a minute or more (where no window is open, the profile has no
  -- schedules at all) and the minutes used today are less than the limit of the day plus the
  -- adjustments, where a day without limit counts as one of 1440 minutes. The sums are in the range
  -- of `i32`.
  pub entry_of-lock_iff :
      (uid : ℕ) (at : Moment T) (limits : List DailyLimit) (adjustments used : ℤ)
      (schedules : List Schedule) (ts : List ℤ) (elsewhere : List GroupUsage)
      → InRange (limit_today at.weekday limits).0 adjustments used
      → ((entry_of uid at limits adjustments used schedules ts elsewhere).enforce ≢ lock) ↔ (
          IsOpen at.now schedules (check_schedule_windows schedules at.weekday at.now).0
          × (div_ℤ used 60 <ℤ ((limit_today at.weekday limits).0 +ℤ adjustments)))
  unfolding entry_of
  entry_of-lock_iff uid at limits adjustments used schedules ts elsewhere r =
      let limit = (limit_today at.weekday limits).0 in
      ground (
        arith,
        decide_iff at.now (check_schedule_windows schedules at.weekday at.now).0 schedules
            (left_today limit adjustments (used_minutes used)) ts,
        left_today_iff limit adjustments used r,
      )

  -- The minutes of a managed user's entry are never negative, and they are 0 exactly when the entry
  -- says lock, on every branch.
  pub entry_of-remaining_iff :
      (uid : ℕ) (at : Moment T) (limits : List DailyLimit) (adjustments used : ℤ)
      (schedules : List Schedule) (ts : List ℤ) (elsewhere : List GroupUsage)
      → (neg_part (entry_of uid at limits adjustments used schedules ts elsewhere).remaining_minutes
          ≡ 0)
        × (((entry_of uid at limits adjustments used schedules ts elsewhere).enforce ≡ lock) ↔ (
            (entry_of uid at limits adjustments used schedules ts elsewhere).remaining_minutes
            ≡ pos 0))
  unfolding entry_of left_today
  entry_of-remaining_iff uid at limits adjustments used schedules ts elsewhere =
      let window = (check_schedule_windows schedules at.weekday at.now).0 in
      let natural = cap_natural at.now window (
        max_zero (
          wrap_i32
            (wrap_i32 ((limit_today at.weekday limits).0 +ℤ adjustments) -ℤ used_minutes used))) in
      (
        shown_natural (is_outside window schedules) _ natural,
        shown_iff (is_outside window schedules) _ ts natural,
      )
