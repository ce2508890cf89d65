-- ===== src/Apps/Assign.antt =====
-- Which group an app gets: the first that names it, or else the first that covers it.
use Prim.Native.String.{◌++◌ as str_append}
use text.Mathlib.TextLemmas.{nil-append, cons-append, cons-ne-nil}
use text.Mathlib.TextEquality.{Char-path}
use screenguard.Prelude.{
  eq_nat, eq_string, ◌≡◌, ◌≢◌, refl, ◌↔◌, inl, inr, Bool, true, false, not, some, String, List, [],
  ◌∷◌, find, any, any_iff, arith, All, Any, here, there, Option-cases, Bool-cases, ap, sym,
  contains, ◌==◌, ◌&&◌, ◌∙◌,
}
use screenguard.Apps.First.{First, find-First, First-find, find-none, none-find}
use screenguard.Apps.Chars.{starts_with}
use screenguard.Apps.Groups.{
  RuleKind, app_id, category, prefix, GroupRule, is_app_id, hits, kind_hits, includes, excludes,
  names, group_matches, explicit, Group, assign_group,
}

contains_iff :
    (xs : List String) (s : String) → (contains xs s ≡ true) ↔ Any (λ (c : String). c ≡ s) xs
contains_iff [] s = (λ e. absurd cc, λ a. elim a [ ])
contains_iff (x ∷ xs) s = (
  λ h. elim (Bool-cases (x == s)) [
    | inl e ↦ here ((eq_string.same_iff x s).0 e)
    | inr e ↦ there ((contains_iff xs s).0 (ground (arith, h, e)))
  ],
  λ a. elim a [
    | here e ↦ ground (arith, (eq_string.same_iff x s).1 e)
    | there r ↦ ground (arith, (contains_iff xs s).1 r)
  ],
)

and_not_iff :
    {P Q : Type 0} (a b : Bool)
    → (a ≡ true) ↔ P
    → (b ≡ true) ↔ Q
    → ((a && not b) ≡ true) ↔ (P × ¬ Q)
and_not_iff true true p q = (λ h. absurd cc, λ c. absurd (c.1 (q.0 refl)))
and_not_iff true false p q =
    (λ h. (p.0 refl, λ y. absurd (let e : false ≡ true = q.1 y in cc)), λ c. refl)
and_not_iff false b p q = (λ h. absurd cc, λ c. p.1 c.0)

-- `starts_with` is that something follows the text.
starts_with-append : (p rest : String) → starts_with (str_append p rest) p ≡ true
starts_with-append String.[] rest = refl
starts_with-append (String.◌∷◌ c p) rest =
    rw cons-append (ground (arith, starts_with-append p rest))

starts_with-rest :
    (s p : String) → starts_with s p ≡ true → (rest : String) × (str_append p rest ≡ s)
starts_with-rest s String.[] h = (s, nil-append s)
starts_with-rest String.[] (String.◌∷◌ d p) h = cc
starts_with-rest (String.◌∷◌ c s) (String.◌∷◌ d p) h =
    let r = starts_with-rest s p (ground arith) in
    (r.0, ground (arith, Char-path c d, cons-append d p r.0, r.1))

-- What a rule covers: one app, the apps that begin with a text, or the apps of a category.
abbrev pub Covers : RuleKind → String → String → List String → Type 0
Covers app_id value app categories = app ≡ value
Covers prefix value app categories =
    (value ≢ "") × ((rest : String) × (str_append value rest ≡ app))
Covers category value app categories = Any (λ (c : String). c ≡ value) categories

module _ (app : String) (categories : List String) where
  -- An exclusion takes the app out of the group.
  abbrev pub Excluded : List GroupRule → Type 0
  Excluded rules =
      Any (λ (r : GroupRule). (r.exclude ≡ true) × Covers r.kind r.value app categories) rules

  -- A rule names the app by its id, and no exclusion takes it out.
  abbrev pub Named : Group → Type 0
  Named g =
      Any (λ (r : GroupRule). (r.kind ≡ app_id) × (r.exclude ≡ false) × (r.value ≡ app)) g.1
      × ¬ Excluded g.1

  -- A rule covers the app, and no exclusion takes it out.
  abbrev pub Matched : Group → Type 0
  Matched g =
      Any (λ (r : GroupRule). (r.exclude ≡ false) × Covers r.kind r.value app categories) g.1
      × ¬ Excluded g.1

  abbrev named_by : Group → Bool
  named_by g = explicit app categories g.1

  abbrev matched_by : Group → Bool
  matched_by g = group_matches g.1 app categories

  kind_hits_iff :
      (kind : RuleKind) (value : String)
      → (kind_hits kind value app categories ≡ true) ↔ Covers kind value app categories
  kind_hits_iff app_id value = eq_string.same_iff app value
  kind_hits_iff category value = contains_iff categories value
  kind_hits_iff prefix String.[] = (λ e. cc, λ c. absurd (c.0 refl))
  kind_hits_iff prefix (String.◌∷◌ d p) = (
    λ h. (λ e. cons-ne-nil d p e, starts_with-rest app (String.◌∷◌ d p) h),
    λ c.
        ap (λ (s : String). starts_with s (String.◌∷◌ d p)) (sym c.1.1)
        ∙ starts_with-append (String.◌∷◌ d p) c.1.0,
  )

  covered_iff :
      (e : Bool) (r : GroupRule)
      → ((e && hits r app categories) ≡ true) ↔ ((e ≡ true) × Covers r.kind r.value app categories)
  unfolding hits
  covered_iff true r =
      (λ h. (refl, (kind_hits_iff r.kind r.value).0 h), λ c. (kind_hits_iff r.kind r.value).1 c.1)
  covered_iff false r = (λ h. absurd cc, λ c. c.0)

  included_iff :
      (r : GroupRule)
      → (includes app categories r ≡ true)
        ↔ ((r.exclude ≡ false) × Covers r.kind r.value app categories)
  included_iff r = (
    λ h. let c = (covered_iff (not r.exclude) r).0 h in (ground (arith, c.0), c.1),
    λ c. (covered_iff (not r.exclude) r).1 (ground (arith, c.0), c.1),
  )

  is_app_id_iff : (k : RuleKind) → (is_app_id k ≡ true) ↔ (k ≡ app_id)
  is_app_id_iff app_id = (λ h. refl, λ h. refl)
  is_app_id_iff category = (λ h. absurd cc, λ h. absurd cc)
  is_app_id_iff prefix = (λ h. absurd cc, λ h. absurd cc)

  names_iff :
      (r : GroupRule)
      → (names app r ≡ true) ↔ ((r.kind ≡ app_id) × (r.exclude ≡ false) × (r.value ≡ app))
  names_iff r = (
    λ h. (
      (is_app_id_iff r.kind).0 (ground arith),
      ground arith,
      (eq_string.same_iff r.value app).0 (ground arith),
    ),
    λ c. rw ((is_app_id_iff r.kind).1 c.0, c.1, (eq_string.same_iff r.value app).1 c.2) refl,
  )

  explicit_iff : (g : Group) → (explicit app categories g.1 ≡ true) ↔ Named g
  unfolding explicit
  explicit_iff g =
      and_not_iff (any (names app) g.1) (any (excludes app categories) g.1)
        (any_iff (names app) _ g.1 names_iff)
        (any_iff (excludes app categories) _ g.1 (λ r. covered_iff r.exclude r))

  group_matches_iff : (g : Group) → (group_matches g.1 app categories ≡ true) ↔ Matched g
  unfolding group_matches hits
  group_matches_iff g =
      and_not_iff (any (includes app categories) g.1) (any (excludes app categories) g.1)
        (any_iff (includes app categories) _ g.1 included_iff)
        (any_iff (excludes app categories) _ g.1 (λ r. covered_iff r.exclude r))

  -- The group of an app, in display order: the first group that names it, or, where none does, the
  -- first whose rules cover it; a group that excludes the app is neither.
  pub data Assigned (groups : List Group) : String → Type 0 where
    by_name : (g : Group) {id : String} → First Named groups g → id ≡ g.0 → Assigned groups id
    by_rule :
        (g : Group) {id : String}
        → All (λ (y : Group). ¬ Named y) groups
        → First Matched groups g
        → id ≡ g.0
        → Assigned groups id

  assign_group-Assigned :
      (groups : List Group) (id : String)
      → assign_group groups app categories ≡ some id
      → Assigned groups id
  unfolding assign_group
  assign_group-Assigned groups id h = elim (Option-cases (find named_by groups)) [
    | inr (g, e) ↦ by_name g (find-First named_by Named explicit_iff groups g e) (ground (arith, e))
    | inl n ↦ elim (Option-cases (find matched_by groups)) [
      | inr (g, e) ↦
          by_rule g (find-none named_by Named explicit_iff groups n)
            (find-First matched_by Matched group_matches_iff groups g e) (ground (arith, n, e))
      | inl m ↦ ground (arith, n, m)
    ]
  ]

  Assigned-assign_group :
      (groups : List Group) {id : String}
      → Assigned groups id
      → assign_group groups app categories ≡ some id
  unfolding assign_group
  Assigned-assign_group groups (by_name g f e) =
      rw (First-find named_by Named explicit_iff groups g f) (ap some (sym e))
  Assigned-assign_group groups (by_rule g n f e) =
      rw
        (
          none-find named_by Named explicit_iff groups n,
          First-find matched_by Matched group_matches_iff groups g f,
        )
        (ap some (sym e))

  -- `assign_group` finds a group exactly when it is the app's group: the first that names the app,
  -- or, where none names it, the first with a rule that covers it (its id, a prefix of the id, or one
  -- of its categories); a group with an exclusion that covers the app neither names nor covers it.
  pub assign_group_iff :
      (groups : List Group) (id : String)
      → (assign_group groups app categories ≡ some id) ↔ Assigned groups id
  assign_group_iff groups id =
      (assign_group-Assigned groups id, λ a. Assigned-assign_group groups a)
