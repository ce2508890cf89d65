-- ===== src/Apps/First.antt =====
-- What `find` gives: the first element with a property that the test decides.
use screenguard.Prelude.{
  eq_nat, eq_string, ◌≡◌, refl, ◌↔◌, inl, inr, Bool, true, false, none, some, List, [], ◌∷◌, ◌++◌,
  find, All, Bool-cases,
}

-- `x` is the first element of a kind: those before it are not.
pub record First {ℓ} {A : Type ℓ} (P : A → Type 0) (xs : List A) (x : A) : Type ℓ where
  pub before : List A
  pub after : List A
  pub place : xs ≡ before ++ x ∷ after
  pub skipped : All (λ y. ¬ P y) before
  pub passes : P x

module _ {ℓ} {A : Type ℓ} (test : A → Bool) (P : A → Type 0)
    (decides : (x : A) → (test x ≡ true) ↔ P x) where
  fails : (x : A) → test x ≡ false → ¬ P x
  fails x h p = let yes : test x ≡ true = (decides x).1 p in cc

  fails_test : (x : A) → ¬ P x → test x ≡ false
  fails_test x n = elim (Bool-cases (test x)) [ inl y ↦ absurd (n ((decides x).0 y)) | inr y ↦ y ]

  pub find-First : (xs : List A) (x : A) → find test xs ≡ some x → First P xs x
  find-First [] x h = cc
  find-First (y ∷ xs) x h = elim (Bool-cases (test y)) [
    | inl p ↦
        let e : some y ≡ some x = rw p at h in
        record {
          before = [];
          after = xs;
          place = cc (e);
          skipped = tt;
          passes = (decides x).0 (cc (e, p));
        }
    | inr p ↦
        let f = find-First xs x (rw p at h) in
        record {
          before = y ∷ f.before;
          after = f.after;
          place = cc (f.place);
          skipped = (fails y p, f.skipped);
          passes = f.passes;
        }
  ]

  find-append :
      (before after : List A) (x : A)
      → All (λ y. ¬ P y) before
      → P x
      → find test (before ++ x ∷ after) ≡ some x
  find-append [] after x h p = rw ((decides x).1 p) refl
  find-append (y ∷ before) after x h p = rw (fails_test y h.0) (find-append before after x h.1 p)

  pub First-find : (xs : List A) (x : A) → First P xs x → find test xs ≡ some x
  First-find xs x f = rw f.place (find-append f.before f.after x f.skipped f.passes)

  pub find-none : (xs : List A) → find test xs ≡ none → All (λ y. ¬ P y) xs
  find-none [] h = tt
  find-none (y ∷ xs) h = elim (Bool-cases (test y)) [
    | inl p ↦ absurd (let e : some y ≡ none = rw p at h in cc (e))
    | inr p ↦ (fails y p, find-none xs (rw p at h))
  ]

  pub none-find : (xs : List A) → All (λ y. ¬ P y) xs → find test xs ≡ none
  none-find [] h = refl
  none-find (y ∷ xs) h = rw (fails_test y h.0) (none-find xs h.1)
