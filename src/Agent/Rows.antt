-- ===== src/Agent/Rows.antt =====
-- The rows of a user after the inserts of a push.
use mathlib.Core.List.{append-nil, append_assoc}
use screenguard.Prelude.{
  eq_nat, eq_string, ℕ, ◌≡◌, ◌≢◌, refl, ap, ◌∙◌, true, false, some, List, [], ◌∷◌, ◌++◌, String,
  map, contains, if◌then◌else◌, arith, Bool-cases, All, inl, inr,
}
use screenguard.Models.{DailyLimit, Schedule}
use screenguard.Agent.Tables.{CachedSchedule, CachedLimit}
use screenguard.Agent.Db.{rows_of}
use screenguard.Agent.Config.{
  is_day, limit_row, has_day, insert_limits, insert_domains, without_user, schedule_row,
  insert_schedules,
}

module _ {A : Type 0} where
  rows_of-append :
      (uid : ℕ) (xs ys : List (ℕ × A)) → rows_of uid (xs ++ ys) ≡ rows_of uid xs ++ rows_of uid ys
  rows_of-append uid [] ys = refl
  rows_of-append uid ((u, a) ∷ xs) ys = ground (arith, rows_of-append uid xs ys)

  rows_of_self :
      (uid : ℕ) (xs : List (ℕ × A)) (a : A)
      → rows_of uid (xs ++ ((uid, a) ∷ [])) ≡ rows_of uid xs ++ (a ∷ [])
  rows_of_self uid xs a = ground (arith, rows_of-append uid xs ((uid, a) ∷ []))

  rows_of_other :
      (uid v : ℕ) (xs : List (ℕ × A)) (a : A)
      → uid ≢ v
      → rows_of v (xs ++ ((uid, a) ∷ [])) ≡ rows_of v xs
  rows_of_other uid v xs a h =
      ground (arith, rows_of-append v xs ((uid, a) ∷ []), append-nil (rows_of v xs))

  pub rows_of-without_user : (uid : ℕ) (xs : List (ℕ × A)) → rows_of uid (without_user uid xs) ≡ []
  unfolding without_user
  rows_of-without_user uid [] = refl
  rows_of-without_user uid ((u, a) ∷ xs) = ground (arith, rows_of-without_user uid xs)

  pub rows_of-without_other :
      (uid v : ℕ) (xs : List (ℕ × A)) → uid ≢ v → rows_of v (without_user uid xs) ≡ rows_of v xs
  unfolding without_user
  rows_of-without_other uid v [] h = refl
  rows_of-without_other uid v ((u, a) ∷ xs) h = ground (arith, rows_of-without_other uid v xs h)

pub insert_limits_self :
    (uid : ℕ) (ls : List DailyLimit) (rows rows' : List (ℕ × CachedLimit))
    → insert_limits uid ls rows ≡ some rows'
    → rows_of uid rows' ≡ rows_of uid rows ++ map limit_row ls
unfolding insert_limits
insert_limits_self uid [] rows rows' h = ground (arith, h, append-nil (rows_of uid rows))
insert_limits_self uid (l ∷ ls) rows rows' h =
    let more = rows ++ ((uid, limit_row l) ∷ []) in
    ground (
      arith,
      insert_limits_self uid ls more rows',
      rows_of_self uid rows (limit_row l),
      append_assoc (rows_of uid rows) (limit_row l ∷ []) (map limit_row ls),
    )

pub insert_limits_other :
    (uid v : ℕ) (ls : List DailyLimit) (rows rows' : List (ℕ × CachedLimit))
    → uid ≢ v
    → insert_limits uid ls rows ≡ some rows'
    → rows_of v rows' ≡ rows_of v rows
unfolding insert_limits
insert_limits_other uid v [] rows rows' n h = ground (arith, h)
insert_limits_other uid v (l ∷ ls) rows rows' n h =
    let more = rows ++ ((uid, limit_row l) ∷ []) in
    ground
      (arith, insert_limits_other uid v ls more rows' n, rows_of_other uid v rows (limit_row l) n)

-- The texts of a list that are not there yet are put behind it, once each.
abbrev pub add_distinct : List String → List String → List String
add_distinct xs [] = xs
add_distinct xs (d ∷ ds) = add_distinct (if contains xs d then xs else xs ++ (d ∷ [])) ds

pub insert_domains_self :
    (uid : ℕ) (ds : List String) (rows : List (ℕ × String))
    → rows_of uid (insert_domains uid ds rows) ≡ add_distinct (rows_of uid rows) ds
unfolding insert_domains
insert_domains_self uid [] rows = refl
insert_domains_self uid (d ∷ ds) rows = elim (Bool-cases (contains (rows_of uid rows) d)) [
  | inl e ↦ rw e (insert_domains_self uid ds rows)
  | inr e ↦ rw e (
      insert_domains_self uid ds (rows ++ ((uid, d) ∷ []))
      ∙ ap (λ xs. add_distinct xs ds) (rows_of_self uid rows d))
]

pub insert_domains_other :
    (uid v : ℕ) (ds : List String) (rows : List (ℕ × String))
    → uid ≢ v
    → rows_of v (insert_domains uid ds rows) ≡ rows_of v rows
unfolding insert_domains
insert_domains_other uid v [] rows n = refl
insert_domains_other uid v (d ∷ ds) rows n = elim (Bool-cases (contains (rows_of uid rows) d)) [
  | inl e ↦ rw e (insert_domains_other uid v ds rows n)
  | inr e ↦
      rw e
        (insert_domains_other uid v ds (rows ++ ((uid, d) ∷ [])) n ∙ rows_of_other uid v rows d n)
]

module _ {T : Type 0} (format_hm : T → String) where
  pub insert_schedules_self :
      (uid : ℕ) (ss : List (Schedule T)) (rows rows' : List (ℕ × CachedSchedule))
      → insert_schedules format_hm uid ss rows ≡ some rows'
      → rows_of uid rows' ≡ rows_of uid rows ++ map (schedule_row format_hm) ss
  unfolding insert_schedules
  insert_schedules_self uid [] rows rows' h = ground (arith, h, append-nil (rows_of uid rows))
  insert_schedules_self uid (s ∷ ss) rows rows' h =
      let more = rows ++ ((uid, schedule_row format_hm s) ∷ []) in
      ground (
        arith,
        insert_schedules_self uid ss more rows',
        rows_of_self uid rows (schedule_row format_hm s),
        append_assoc (rows_of uid rows) (schedule_row format_hm s ∷ [])
            (map (schedule_row format_hm) ss),
      )

  pub insert_schedules_other :
      (uid v : ℕ) (ss : List (Schedule T)) (rows rows' : List (ℕ × CachedSchedule))
      → uid ≢ v
      → insert_schedules format_hm uid ss rows ≡ some rows'
      → rows_of v rows' ≡ rows_of v rows
  unfolding insert_schedules
  insert_schedules_other uid v [] rows rows' n h = ground (arith, h)
  insert_schedules_other uid v (s ∷ ss) rows rows' n h =
      let more = rows ++ ((uid, schedule_row format_hm s) ∷ []) in
      ground (
        arith,
        insert_schedules_other uid v ss more rows' n,
        rows_of_other uid v rows (schedule_row format_hm s) n,
      )

  -- Rows with days of the week are accepted.
  pub insert_schedules-total :
      (uid : ℕ) (ss : List (Schedule T)) (rows : List (ℕ × CachedSchedule))
      → All (λ (s : Schedule T). is_day s.day_of_week ≡ true) ss
      → (rows' : List (ℕ × CachedSchedule)) × (insert_schedules format_hm uid ss rows ≡ some rows')
  unfolding insert_schedules
  insert_schedules-total uid [] rows h = (rows, refl)
  insert_schedules-total uid (s ∷ ss) rows h =
      rw h.0 (insert_schedules-total uid ss (rows ++ ((uid, schedule_row format_hm s) ∷ [])) h.1)

-- The limits have days of the week, of which none stands twice or is there already.
abbrev pub FreshDays : List CachedLimit → List DailyLimit → Type 0
FreshDays rows [] = Unit
FreshDays rows (l ∷ ls) =
    (is_day l.day_of_week ≡ true)
    × (has_day rows l.day_of_week ≡ false)
    × FreshDays (rows ++ (limit_row l ∷ [])) ls

pub insert_limits-total :
    (uid : ℕ) (ls : List DailyLimit) (rows : List (ℕ × CachedLimit)) (seen : List CachedLimit)
    → rows_of uid rows ≡ seen
    → FreshDays seen ls
    → (rows' : List (ℕ × CachedLimit)) × (insert_limits uid ls rows ≡ some rows')
unfolding insert_limits
insert_limits-total uid [] rows seen e h = (rows, refl)
insert_limits-total uid (l ∷ ls) rows seen e h =
    let more = rows ++ ((uid, limit_row l) ∷ []) in
    let eq =
      rows_of_self uid rows (limit_row l)
      ∙ ap (λ (r : List CachedLimit). r ++ (limit_row l ∷ [])) e in
    rw e (rw h.0 (rw h.1 (insert_limits-total uid ls more (seen ++ (limit_row l ∷ [])) eq h.2)))
