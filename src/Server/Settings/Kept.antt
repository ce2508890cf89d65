-- ===== src/Server/Settings/Kept.antt =====
-- What a replacement of the daily limits keeps of the new ones.
use screenguard.Prelude.{
  eq_nat, eq_string, ==_refl, ==_ne, ==_eq, ==_cases, ℕ, ◌≤◌, ◌<◌, ◌≡◌, ◌≢◌, ◌⊎◌, refl, sym, ◌∙◌,
  ap, subst, Bool, true, false, not, List, [], ◌∷◌, ◌++◌, String, ◌==◌, any, any_iff, any-append,
  filter, map, leb, if◌then◌else◌, arith, All, Any, Bool-cases, inl, inr,
}
use screenguard.Prelude.Int.{ℤ, pos, negsuc, leb_ℤ, ◌≤ℤ◌}
use screenguard.Prelude.Sort.{sort_by, Apart}
use screenguard.Server.Db.{DailyLimit, Db, limit_before, get_daily_limits}
use screenguard.Server.Settings.{
  new_limit, own_rows, fits, with_limit, add_limits, without_limits, replace_daily_limits,
}

append_nil : (xs : List DailyLimit) → xs ++ [] ≡ xs
append_nil [] = refl
append_nil (x ∷ xs) = ap (λ (r : List DailyLimit). x ∷ r) (append_nil xs)

append_cons :
    (xs : List DailyLimit) (y : DailyLimit) (ys : List DailyLimit)
    → (xs ++ (y ∷ [])) ++ ys ≡ xs ++ (y ∷ ys)
append_cons [] y ys = refl
append_cons (x ∷ xs) y ys = ap (λ (r : List DailyLimit). x ∷ r) (append_cons xs y ys)

rows_self :
    (profile : String) (rows : List DailyLimit) (l : ℕ × ℤ)
    → filter (λ (r : DailyLimit). r.profile_id == profile) (rows ++ (new_limit profile l ∷ []))
      ≡ filter (λ (r : DailyLimit). r.profile_id == profile) rows ++ (new_limit profile l ∷ [])
rows_self profile [] l = ground (arith, ==_refl profile)
rows_self profile (r ∷ rows) l = ground (arith, rows_self profile rows l)

rows_other :
    (profile other : String) (rows : List DailyLimit) (l : ℕ × ℤ)
    → (profile == other) ≡ false
    → filter (λ (r : DailyLimit). r.profile_id == other) (rows ++ (new_limit profile l ∷ []))
      ≡ filter (λ (r : DailyLimit). r.profile_id == other) rows
rows_other profile other [] l n = ground (arith, n)
rows_other profile other (r ∷ rows) l n = ground (arith, rows_other profile other rows l n)

deleted_self :
    (profile : String) (rows : List DailyLimit)
    → filter
        (λ (r : DailyLimit). r.profile_id == profile)
        (filter (λ (r : DailyLimit). not (r.profile_id == profile)) rows)
      ≡ []
deleted_self profile [] = refl
deleted_self profile (r ∷ rows) = ground (arith, deleted_self profile rows)

deleted_other :
    (profile other : String) (rows : List DailyLimit)
    → profile ≢ other
    → filter
        (λ (r : DailyLimit). r.profile_id == other)
        (filter (λ (r : DailyLimit). not (r.profile_id == profile)) rows)
      ≡ filter (λ (r : DailyLimit). r.profile_id == other) rows
deleted_other profile other [] n = refl
deleted_other profile other (r ∷ rows) n = ground (
  arith,
  deleted_other profile other rows n,
  eq_string.same_iff r.profile_id profile,
  eq_string.same_iff r.profile_id other,
)

-- A row that the table takes by itself, and one that it does not take after the others.
abbrev pub IsRow : ℕ × ℤ → Type 0
IsRow l = (l.0 ≤ 6) × (pos 0 ≤ℤ l.1)

abbrev pub Breaks : List (ℕ × ℤ) → ℕ × ℤ → Type 0
Breaks kept l = (6 < l.0) ⊎ (l.1 ≤ℤ negsuc 0) ⊎ Any (λ (k : ℕ × ℤ). k.0 ≡ l.0) kept

-- The call succeeds exactly if nothing is left over; what is left begins with a row that is refused.
abbrev pub Ended : List (ℕ × ℤ) → List (ℕ × ℤ) → Bool → Type 0
Ended kept [] done = done ≡ true
Ended kept (l ∷ rest) done = (done ≡ false) × Breaks kept l

has : List DailyLimit → ℕ → Bool
has own day = any (λ (r : DailyLimit). r.day_of_week == day) own

abbrev rows_of : String → List (ℕ × ℤ) → List DailyLimit
rows_of profile kept = map (new_limit profile) kept

abbrev EndedAfter : List DailyLimit → List (ℕ × ℤ) → Bool → Type 0
EndedAfter own [] done = done ≡ true
EndedAfter own (l ∷ rest) done =
    (done ≡ false) × ((6 < l.0) ⊎ (l.1 ≤ℤ negsuc 0) ⊎ (has own l.0 ≡ true))

-- What the inserts leave of the profile, which has the rows `own` already, and of another.
record Added (profile : String) (db : Db) (own : List DailyLimit) (limits : List (ℕ × ℤ))
    (after : Db × Bool) : Type 0 where
  kept : List (ℕ × ℤ)
  rest : List (ℕ × ℤ)
  parts : limits ≡ kept ++ rest
  fine : All IsRow kept
  days : Apart (λ (l : ℕ × ℤ). l.0) kept
  new : All (λ (l : ℕ × ℤ). has own l.0 ≡ false) kept
  ended : EndedAfter (own ++ rows_of profile kept) rest after.1
  rows : own_rows after.0 profile ≡ own ++ rows_of profile kept
  others : (other : String) → profile ≢ other → own_rows after.0 other ≡ own_rows db other

unlike :
    (profile : String) (own : List DailyLimit) (l : ℕ × ℤ) (kept : List (ℕ × ℤ))
    → All (λ (k : ℕ × ℤ). has (own ++ (new_limit profile l ∷ [])) k.0 ≡ false) kept
    → (any (λ (k : ℕ × ℤ). k.0 == l.0) kept ≡ false) × All (λ (k : ℕ × ℤ). has own k.0 ≡ false) kept
unfolding has
unlike profile own l [] h = (refl, tt)
unlike profile own l (k ∷ kept) h =
    let rest = unlike profile own l kept h.1 in
    let split =
      any-append (λ (r : DailyLimit). r.day_of_week == k.0) own (new_limit profile l ∷ []) in
    (
      ground (arith, rest.0, h.0, split, eq_nat.same_iff k.0 l.0, eq_nat.same_iff l.0 k.0),
      (ground (arith, h.0, split), rest.1),
    )

refused :
    (own : List DailyLimit) (l : ℕ × ℤ)
    → fits own l ≡ false
    → (6 < l.0) ⊎ (l.1 ≤ℤ negsuc 0) ⊎ (has own l.0 ≡ true)
unfolding has
refused own l h = elim (Bool-cases (leb l.0 6)) [
  | inr n ↦ inl (ground (arith, n))
  | inl y ↦ elim (Bool-cases (leb_ℤ (pos 0) l.1)) [
    | inr n ↦ inr (inl (ground (arith, n)))
    | inl z ↦ inr (inr (ground (arith, h, y, z)))
  ]
]

accepted : (own : List DailyLimit) (l : ℕ × ℤ) → fits own l ≡ true → IsRow l × (has own l.0 ≡ false)
unfolding has
accepted own l h = ground (arith, h)

add_limits-Added :
    (db : Db) (profile : String) (own : List DailyLimit) (limits : List (ℕ × ℤ))
    → own_rows db profile ≡ own
    → Added profile db own limits (add_limits db profile limits)
unfolding add_limits
add_limits-Added db profile own [] h = record {
  kept = [];
  rest = [];
  parts = refl;
  fine = tt;
  days = tt;
  new = tt;
  ended = refl;
  rows = h ∙ sym (append_nil own);
  others = λ other n. refl;
}
add_limits-Added db profile own (l ∷ limits) h = elim (Bool-cases (fits own l)) [
  | inl y ↦
      let one = new_limit profile l in
      let rest =
        add_limits-Added (with_limit db profile l) profile (own ++ (one ∷ [])) limits
          (rows_self profile db.daily_limits l ∙ ap (λ (r : List DailyLimit). r ++ (one ∷ [])) h) in
      let apart = unlike profile own l rest.kept rest.new in
      let (row, unseen) = accepted own l y in
      let regroup = append_cons own one (rows_of profile rest.kept) in
      rw h (
        rw y (record {
          kept = l ∷ rest.kept;
          rest = rest.rest;
          parts = ap (λ (r : List (ℕ × ℤ)). l ∷ r) rest.parts;
          fine = (row, rest.fine);
          days = (apart.0, rest.days);
          new = (unseen, apart.1);
          ended =
              subst
                (λ (r : List DailyLimit).
                  EndedAfter r rest.rest (add_limits (with_limit db profile l) profile limits).1)
                regroup rest.ended;
          rows = rest.rows ∙ regroup;
          others = λ other n.
              rest.others other n
              ∙ rows_other profile other db.daily_limits l (==_ne profile other n);
        }))
  | inr y ↦ rw h (
      rw y (record {
        kept = [];
        rest = l ∷ limits;
        parts = refl;
        fine = tt;
        days = tt;
        new = tt;
        ended = (
          refl,
          subst (λ (r : List DailyLimit). (6 < l.0) ⊎ (l.1 ≤ℤ negsuc 0) ⊎ (has r l.0 ≡ true))
              (sym (append_nil own)) (refused own l y),
        );
        rows = h ∙ sym (append_nil own);
        others = λ other n. refl;
      }))
]

has-rows_of :
    (profile : String) (kept : List (ℕ × ℤ)) (day : ℕ)
    → has (rows_of profile kept) day ≡ any (λ (k : ℕ × ℤ). k.0 == day) kept
unfolding has
has-rows_of profile [] day = refl
has-rows_of profile (k ∷ kept) day = ground (arith, has-rows_of profile kept day)

told :
    (profile : String) (kept rest : List (ℕ × ℤ)) (done : Bool)
    → EndedAfter (rows_of profile kept) rest done
    → Ended kept rest done
told profile kept [] done h = h
told profile kept (l ∷ rest) done h = (
  h.0,
  elim h.1 [
    | inl a ↦ inl a
    | inr b ↦ elim b [
      | inl c ↦ inr (inl c)
      | inr d ↦ inr (
          inr (
            (any_iff (λ (k : ℕ × ℤ). k.0 == l.0) (λ (k : ℕ × ℤ). k.0 ≡ l.0) kept
                (λ k. eq_nat.same_iff k.0 l.0)).0
              (sym (has-rows_of profile kept l.0) ∙ d)))
    ]
  ],
)

-- The new limits that are kept, and what the tables have for the profile `p`.
pub record Replaced (db : Db) (profile : String) (limits : List (ℕ × ℤ)) (after : Db × Bool)
    (p : String) : Type 0 where
  pub kept : List (ℕ × ℤ)
  pub rest : List (ℕ × ℤ)
  pub parts : limits ≡ kept ++ rest
  pub fine : All IsRow kept
  pub days : Apart (λ (l : ℕ × ℤ). l.0) kept
  pub ended : Ended kept rest after.1
  pub rows : get_daily_limits after.0 p ≡ (
      if profile == p
      then sort_by limit_before (map (new_limit profile) kept)
      else get_daily_limits db p)

-- A replacement keeps the new limits up to the first that breaks a constraint of the table (no day
-- of the week, negative minutes, or a day that came before): those kept are for days of the week,
-- each once, with no negative minutes. Afterwards the profile has exactly these, by day, and none
-- of its old ones; the limits of every other profile stay as they were; and the call succeeds
-- exactly if every new limit is kept.
pub replace_daily_limits-Replaced :
    (db : Db) (profile : String) (limits : List (ℕ × ℤ)) (p : String)
    → Replaced db profile limits (replace_daily_limits db profile limits) p
unfolding replace_daily_limits get_daily_limits
replace_daily_limits-Replaced db profile limits p =
    let a =
      add_limits-Added (without_limits db profile) profile [] limits
        (deleted_self profile db.daily_limits) in
    record {
      kept = a.kept;
      rest = a.rest;
      parts = a.parts;
      fine = a.fine;
      days = a.days;
      ended = told profile a.kept a.rest _ a.ended;
      rows = elim (==_cases profile p) [
        | inl e ↦ rw (==_eq profile p e) (
            ap (sort_by limit_before) (
              subst
                (λ (q : String).
                  own_rows (add_limits (without_limits db profile) profile limits).0 q
                  ≡ rows_of profile a.kept)
                e a.rows))
        | inr n ↦
            rw (==_ne profile p n)
              (ap (sort_by limit_before) (a.others p n ∙ deleted_other profile p db.daily_limits n))
      ];
    }
