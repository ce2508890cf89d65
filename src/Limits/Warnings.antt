-- ===== src/Limits/Warnings.antt =====
-- crates/agent/src/app_limits.rs, lines 58-88: the warnings that are due, each threshold once a day.
use screenguard.Prelude.{
  eq_nat, eq_string, ℕ, ◌+◌, String, List, [], ◌∷◌, Option, none, some, Bool, true, false, not,
  ◌&&◌, ◌||◌, filter, contains, if◌then◌else◌,
}
use screenguard.Prelude.Dict.{Dict, get_or, insert}
use screenguard.Prelude.Int.{ℤ, pos, max_zero, leb_ℤ, as_i32, wrap_i32, wrap_i64, div_ℤ}
use screenguard.Limits.Status.{GroupStatus, blocked, exhausted}

-- uid or group → thresholds already shown
abbrev pub Notified : Type 0
Notified = Dict String (List ℕ)

-- `((remaining_seconds.max(0) + 59) / 60) as i32`: the minutes left, rounded up
unfoldable pub minutes_left : GroupStatus → ℤ
minutes_left g = wrap_i32 (div_ℤ (wrap_i64 (pos (max_zero g.remaining_seconds + 59))) 60)

-- `left <= t as i32`
unfoldable pub reached : ℤ → ℕ → Bool
reached left t = leb_ℤ left (as_i32 t)

-- `HashSet::insert` and `extend`
abbrev pub set_insert : List ℕ → ℕ → List ℕ
set_insert s t = if contains s t then s else t ∷ s

unfoldable pub set_extend : List ℕ → List ℕ → List ℕ
set_extend s [] = s
set_extend s (t ∷ ts) = set_extend (set_insert s t) ts

abbrev pub is_nil : List ℕ → Bool
is_nil [] = true
is_nil (t ∷ ts) = false

module _ (in_use : List String) (thresholds : List ℕ) where
  -- `fired` after the `retain`
  unfoldable pub still_fired : GroupStatus → Notified → List ℕ
  still_fired g notified = filter (reached (minutes_left g)) (get_or [] notified g.group_id)

  -- The `continue`: the group gets no warning.
  unfoldable pub silent : GroupStatus → Bool
  silent g = exhausted g || blocked g || not (contains in_use g.group_id)

  unfoldable pub crossed : GroupStatus → List ℕ → List ℕ
  crossed g fired = filter (λ t. reached (minutes_left g) t && not (contains fired t)) thresholds

  -- One round of the loop: the new `notified`, and the warning pushed to `out`.
  unfoldable pub warn_group : GroupStatus → Notified → Notified × Option (String × ℤ)
  warn_group g notified =
      let fired = still_fired g notified in
      let over = crossed g fired in
      if silent g || is_nil over
      then (insert notified g.group_id fired, none)
      else (insert notified g.group_id (set_extend fired over), some (g.group_id, minutes_left g))

  abbrev push : Option (String × ℤ) → List (String × ℤ) → List (String × ℤ)
  push none out = out
  push (some w) out = w ∷ out

  unfoldable pub due_warnings : List GroupStatus → Notified → Notified × List (String × ℤ)
  due_warnings [] notified = (notified, [])
  due_warnings (g ∷ status) notified =
      let (notified', warning) = warn_group g notified in
      let (notified'', out) = due_warnings status notified' in (notified'', push warning out)
