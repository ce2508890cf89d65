-- ===== src/Limits/Once.antt =====
-- A warning is shown once for each threshold, and only for a group in use with time left.
use screenguard.Prelude.{
  eq_nat, eq_string, ==_refl, ℕ, ◌≡◌, ◌≢◌, refl, sym, ap, ◌↔◌, String, List, [], ◌∷◌, none, some,
  Bool, true, false, not, ◌&&◌, ◌==◌, filter, contains, arith, ◌⊎◌, inl, inr, Bool-cases, All,
}
use screenguard.Prelude.Dict.{get, get_or, get-insert_self, get-insert_ne}
use screenguard.Prelude.Int.{ℤ}
use screenguard.Limits.Status.{GroupStatus, blocked, exhausted}
use screenguard.Limits.Warnings.{
  Notified, minutes_left, reached, set_extend, set_insert, is_nil, still_fired, silent, crossed,
  warn_group, due_warnings,
}

contains-filter :
    (p : ℕ → Bool) (xs : List ℕ) (t : ℕ)
    → contains xs t ≡ true
    → p t ≡ true
    → contains (filter p xs) t ≡ true
contains-filter p [] t h k = h
contains-filter p (x ∷ xs) t h k = ground (arith, ap p, contains-filter p xs t)

contains-set_extend_left :
    (s ts : List ℕ) (t : ℕ) → contains s t ≡ true → contains (set_extend s ts) t ≡ true
unfolding set_extend
contains-set_extend_left s [] t h = h
contains-set_extend_left s (x ∷ ts) t h =
    contains-set_extend_left (set_insert s x) ts t (ground arith)

contains-set_extend_right :
    (s ts : List ℕ) (t : ℕ) → contains ts t ≡ true → contains (set_extend s ts) t ≡ true
unfolding set_extend
contains-set_extend_right s [] t h = cc
contains-set_extend_right s (x ∷ ts) t h = elim (Bool-cases (x == t)) [
  | inl e ↦ contains-set_extend_left (set_insert s x) ts t (ground arith)
  | inr e ↦ contains-set_extend_right (set_insert s x) ts t (ground arith)
]

contains-filter_iff :
    (p : ℕ → Bool) (xs : List ℕ) (t : ℕ)
    → contains (filter p xs) t ≡ true
    → (contains xs t ≡ true) × (p t ≡ true)
contains-filter_iff p [] t h = cc
contains-filter_iff p (x ∷ xs) t h = ground (arith, ap p, contains-filter_iff p xs t)

none_kept :
    (p : ℕ → Bool) (xs : List ℕ)
    → ((t : ℕ) → contains xs t ≡ true → p t ≡ false)
    → is_nil (filter p xs) ≡ true
none_kept p [] h = refl
none_kept p (x ∷ xs) h = rw (h x (rw ==_refl refl)) (none_kept p xs (λ t k. h t (ground arith)))

some_kept :
    (p : ℕ → Bool) (xs : List ℕ)
    → is_nil (filter p xs) ≡ false
    → (t : ℕ) × (contains xs t ≡ true) × (p t ≡ true)
some_kept p [] h = cc
some_kept p (x ∷ xs) h = elim (Bool-cases (p x)) [
  | inl e ↦ (x, rw ==_refl refl, e)
  | inr e ↦ let (t, among, good) = some_kept p xs (rw e at h) in (t, ground arith, good)
]

contains-filter_not :
    (p : ℕ → Bool) (xs : List ℕ) (t : ℕ)
    → contains (filter p xs) t ≡ false
    → p t ≡ true
    → contains xs t ≡ false
contains-filter_not p xs t h k = elim (Bool-cases (contains xs t)) [
  | inl e ↦ cc (h, contains-filter p xs t e k)
  | inr e ↦ e
]

is_nil_lem : (xs : List ℕ) (t : ℕ) → is_nil xs ≡ true → contains xs t ≡ false
is_nil_lem [] t h = refl
is_nil_lem (x ∷ xs) t h = cc

-- The groups have different ids.
abbrev pub Apart : GroupStatus → List GroupStatus → Type 0
Apart g status = All (λ (h : GroupStatus). g.group_id ≢ h.group_id) status

abbrev pub Distinct : List GroupStatus → Type 0
Distinct [] = Unit
Distinct (g ∷ status) = Apart g status × Distinct status

module _ (in_use : List String) (thresholds : List ℕ) where
  -- Nothing is left to say about the group: it is silent, or each threshold that it has reached has
  -- been shown.
  record IsCovered (notified : Notified) (g : GroupStatus) : Type 0 where
    shown :
        silent in_use thresholds g ≡ false
        → (t : ℕ) → contains thresholds t ≡ true
        → reached (minutes_left g) t ≡ true
        → contains (get_or [] notified g.group_id) t ≡ true

  -- A threshold that is reached is crossed, unless it has fired.
  crossed_lem :
      (g : GroupStatus) (fired : List ℕ) (t : ℕ)
      → contains thresholds t ≡ true
      → reached (minutes_left g) t ≡ true
      → (contains fired t ≡ true) ⊎ (contains (crossed in_use thresholds g fired) t ≡ true)
  unfolding crossed
  crossed_lem g fired t among due = elim (Bool-cases (contains fired t)) [
    | inl e ↦ inl e
    | inr e ↦ inr (
        contains-filter (λ x. reached (minutes_left g) x && not (contains fired x)) thresholds t
          among (rw (due, e)))
  ]

  warn_group-get_ne :
      (g : GroupStatus) (n : Notified) (id : String)
      → g.group_id ≢ id
      → get (warn_group in_use thresholds g n).0 id ≡ get n id
  unfolding warn_group
  warn_group-get_ne g n id h =
      let fired = still_fired in_use thresholds g n in
      let over = crossed in_use thresholds g fired in
      ground (
        arith,
        get-insert_ne n g.group_id fired id h,
        get-insert_ne n g.group_id (set_extend fired over) id h,
      )

  warn_group-IsCovered :
      (g : GroupStatus) (n : Notified) → IsCovered (warn_group in_use thresholds g n).0 g
  unfolding warn_group
  warn_group-IsCovered g n = record {
    shown = λ loud t among due.
        let fired = still_fired in_use thresholds g n in
        let over = crossed in_use thresholds g fired in
        ground (
          arith,
          loud,
          get-insert_self n g.group_id fired,
          get-insert_self n g.group_id (set_extend fired over),
          is_nil_lem over t,
          contains-set_extend_left fired over t,
          contains-set_extend_right fired over t,
          crossed_lem g fired t among due,
        );
  }

  crossed-IsCovered :
      (g : GroupStatus) (n : Notified)
      → IsCovered n g
      → silent in_use thresholds g ≡ false
      → is_nil (crossed in_use thresholds g (still_fired in_use thresholds g n)) ≡ true
  unfolding crossed still_fired
  crossed-IsCovered g n c loud =
      let fired = still_fired in_use thresholds g n in
      let test : ℕ → Bool = λ x. reached (minutes_left g) x && not (contains fired x) in
      none_kept test thresholds λ t among. elim (Bool-cases (reached (minutes_left g) t)) [
        | inr no_reach ↦ rw no_reach
        | inl due ↦ rw (
          due,
          contains-filter (reached (minutes_left g)) (get_or [] n g.group_id) t
              (c.shown loud t among due) due,
        )
      ]

  -- A covered group gets no warning.
  warn_group-quiet :
      (g : GroupStatus) (n : Notified) → IsCovered n g → (warn_group in_use thresholds g n).1 ≡ none
  unfolding warn_group
  warn_group-quiet g n c = ground (arith, crossed-IsCovered g n c)

  warn_group-IsCovered_other :
      (g h : GroupStatus) (n : Notified)
      → g.group_id ≢ h.group_id
      → IsCovered n h
      → IsCovered (warn_group in_use thresholds g n).0 h
  warn_group-IsCovered_other g h n ne c = record {
    shown = λ loud t among due.
        ground (arith, warn_group-get_ne g n h.group_id ne, c.shown loud t among due);
  }

  due_warnings-keeps :
      (g : GroupStatus) (status : List GroupStatus) (n : Notified)
      → Apart g status
      → IsCovered n g
      → IsCovered (due_warnings in_use thresholds status n).0 g
  unfolding due_warnings
  due_warnings-keeps g [] n a c = c
  due_warnings-keeps g (h ∷ status) n a c =
      due_warnings-keeps g status (warn_group in_use thresholds h n).0 a.1
        (warn_group-IsCovered_other h g n (λ e. a.0 (sym e)) c)

  due_warnings-IsCovered :
      (status : List GroupStatus) (n : Notified)
      → Distinct status
      → All (IsCovered (due_warnings in_use thresholds status n).0) status
  unfolding due_warnings
  due_warnings-IsCovered [] n d = tt
  due_warnings-IsCovered (g ∷ status) n d =
      let n' = (warn_group in_use thresholds g n).0 in
      (
        due_warnings-keeps g status n' d.0 (warn_group-IsCovered g n),
        due_warnings-IsCovered status n' d.1,
      )

  warn_group-All_IsCovered :
      (g : GroupStatus) (status : List GroupStatus) (n : Notified)
      → Apart g status
      → All (IsCovered n) status
      → All (IsCovered (warn_group in_use thresholds g n).0) status
  warn_group-All_IsCovered g [] n a c = tt
  warn_group-All_IsCovered g (h ∷ status) n a c =
      (warn_group-IsCovered_other g h n a.0 c.0, warn_group-All_IsCovered g status n a.1 c.1)

  due_warnings-quiet :
      (status : List GroupStatus) (n : Notified)
      → Distinct status
      → All (IsCovered n) status
      → (due_warnings in_use thresholds status n).1 ≡ []
  unfolding due_warnings
  due_warnings-quiet [] n d c = refl
  due_warnings-quiet (g ∷ status) n d c = cc (
    warn_group-quiet g n c.0,
    due_warnings-quiet status (warn_group in_use thresholds g n).0 d.1
        (warn_group-All_IsCovered g status n d.0 c.1),
  )

  -- Where the groups have different ids: right after a round of warnings, a second round with the
  -- same remaining times has nothing to say.
  pub due_warnings_once :
      (status : List GroupStatus) (n : Notified)
      → Distinct status
      → (due_warnings in_use thresholds status (due_warnings in_use thresholds status n).0).1 ≡ []
  due_warnings_once status n d =
      due_warnings-quiet status (due_warnings in_use thresholds status n).0 d
        (due_warnings-IsCovered status n d)

  -- A threshold to warn of: configured, reached, and not shown yet.
  abbrev pub IsFresh : GroupStatus → Notified → ℕ → Type 0
  IsFresh g n t =
      (contains thresholds t ≡ true)
      × (reached (minutes_left g) t ≡ true)
      × (contains (get_or [] n g.group_id) t ≡ false)

  IsFresh-crossed :
      (g : GroupStatus) (n : Notified)
      → is_nil (crossed in_use thresholds g (still_fired in_use thresholds g n)) ≡ false
      → (t : ℕ) × IsFresh g n t
  unfolding crossed still_fired
  IsFresh-crossed g n h =
      let fired = still_fired in_use thresholds g n in
      let (t, among, good) =
        some_kept (λ x. reached (minutes_left g) x && not (contains fired x)) thresholds h in
      (
        t,
        (
          among,
          ground (arith, good),
          contains-filter_not (reached (minutes_left g)) (get_or [] n g.group_id) t
              (ground (arith, good)) (ground (arith, good)),
        ),
      )

  crossed-IsFresh :
      (g : GroupStatus) (n : Notified) (t : ℕ)
      → IsFresh g n t
      → is_nil (crossed in_use thresholds g (still_fired in_use thresholds g n)) ≡ false
  unfolding still_fired
  crossed-IsFresh g n t f =
      let fired = still_fired in_use thresholds g n in
      ground (
        arith,
        f,
        crossed_lem g fired t f.0 f.1,
        contains-filter_iff (reached (minutes_left g)) (get_or [] n g.group_id) t,
        is_nil_lem (crossed in_use thresholds g fired) t,
      )

  -- A round of the loop warns of a group exactly when the group has time left, is not blocked, is in
  -- use, and has reached a configured threshold that was not shown yet; the warning names the group
  -- and its minutes left.
  pub warn_group_iff :
      (g : GroupStatus) (n : Notified) (w : String × ℤ)
      → ((warn_group in_use thresholds g n).1 ≡ some w) ↔ (
          (w ≡ (g.group_id, minutes_left g))
          × (exhausted g ≡ false)
          × (blocked g ≡ false)
          × (contains in_use g.group_id ≡ true)
          × ((t : ℕ) × IsFresh g n t))
  unfolding warn_group silent
  warn_group_iff g n w =
      let over = crossed in_use thresholds g (still_fired in_use thresholds g n) in
      (
        λ h. (
          ground arith,
          ground arith,
          ground arith,
          ground arith,
          IsFresh-crossed g n (ground (arith, h)),
        ),
        λ v. ground (arith, v.0, v.1, v.2, v.3, crossed-IsFresh g n v.4.0 v.4.1),
      )
