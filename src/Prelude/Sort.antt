-- ===== src/Prelude/Sort.antt =====
-- `sort_by`, and ORDER BY of a query.
use Prim.Native.Char.{code}
use screenguard.Prelude.{
  eq_nat, ◌≡◌, refl, ◌∙◌, ap, Bool, true, false, ◌||◌, String, ◌==◌, List, [], ◌∷◌, map, any, ℕ,
  ltb, if◌then◌else◌, arith, All, Bool-cases, inl, inr,
}

-- `sort_by`, which is stable.
abbrev pub insert_sorted {ℓ} : {A : Type ℓ} → (A → A → Bool) → A → List A → List A
insert_sorted before x [] = x ∷ []
insert_sorted before x (y ∷ ys) =
    let rest = insert_sorted before x ys in if before x y then x ∷ y ∷ ys else y ∷ rest

unfoldable pub sort_by {ℓ} : {A : Type ℓ} → (A → A → Bool) → List A → List A
sort_by before [] = []
sort_by before (x ∷ xs) = insert_sorted before x (sort_by before xs)

-- The order of texts is that of their code points.
abbrev pub leb_str : String → String → Bool
leb_str String.[] t = true
leb_str (String.◌∷◌ c s) String.[] = false
leb_str (String.◌∷◌ c s) (String.◌∷◌ d t) =
    if code c == code d then leb_str s t else ltb (code c) (code d)

module _ {ℓ κ} {A : Type ℓ} {B : Type κ} (f : A → B) (p : A → A → Bool) (q : B → B → Bool)
    (same : (a b : A) → q (f a) (f b) ≡ p a b) where
  insert_sorted-map :
      (x : A) (xs : List A) → insert_sorted q (f x) (map f xs) ≡ map f (insert_sorted p x xs)
  insert_sorted-map x [] = refl
  insert_sorted-map x (y ∷ xs) = ground (arith, same x y, insert_sorted-map x xs)

  pub sort_by-map : (xs : List A) → sort_by q (map f xs) ≡ map f (sort_by p xs)
  unfolding sort_by
  sort_by-map [] = refl
  sort_by-map (x ∷ xs) =
      ap (insert_sorted q (f x)) (sort_by-map xs) ∙ insert_sorted-map x (sort_by p xs)

module _ {ℓ} {A : Type ℓ} (p : A → A → Bool) where
  pub any-insert_sorted :
      (t : A → Bool) (x : A) (xs : List A) → any t (insert_sorted p x xs) ≡ (t x || any t xs)
  any-insert_sorted t x [] = refl
  any-insert_sorted t x (y ∷ xs) = ground (arith, any-insert_sorted t x xs)

  pub any-sort_by : (t : A → Bool) (xs : List A) → any t (sort_by p xs) ≡ any t xs
  unfolding sort_by
  any-sort_by t [] = refl
  any-sort_by t (x ∷ xs) = ground (arith, any-insert_sorted t x (sort_by p xs), any-sort_by t xs)

  All-insert_sorted {κ} :
      (P : A → Type κ) (x : A) (xs : List A) → P x → All P xs → All P (insert_sorted p x xs)
  All-insert_sorted P x [] h a = (h, tt)
  All-insert_sorted P x (y ∷ xs) h a = elim (Bool-cases (p x y)) [
    | inl e ↦ rw e (h, a)
    | inr e ↦ rw e (a.0, All-insert_sorted P x xs h a.1)
  ]

  pub All-sort_by {κ} : (P : A → Type κ) (xs : List A) → All P xs → All P (sort_by p xs)
  unfolding sort_by
  All-sort_by P [] a = tt
  All-sort_by P (x ∷ xs) a = All-insert_sorted P x (sort_by p xs) a.0 (All-sort_by P xs a.1)

-- Sorting keeps the keys apart.
module _ {ℓ} {A : Type ℓ} (key : A → ℕ) where
  abbrev pub Apart : List A → Type 0
  Apart [] = Unit
  Apart (x ∷ xs) = (any (λ (y : A). key y == key x) xs ≡ false) × Apart xs

  insert_sorted-Apart :
      (p : A → A → Bool) (x : A) (xs : List A)
      → any (λ (y : A). key y == key x) xs ≡ false
      → Apart xs
      → Apart (insert_sorted p x xs)
  insert_sorted-Apart p x [] n h = (refl, tt)
  insert_sorted-Apart p x (y ∷ xs) n h =
      ground (
        arith,
        insert_sorted-Apart p x xs,
        any-insert_sorted p (λ (z : A). key z == key y) x xs,
        h.0,
      )

  pub sort_by-Apart : (p : A → A → Bool) (xs : List A) → Apart xs → Apart (sort_by p xs)
  unfolding sort_by
  sort_by-Apart p [] h = tt
  sort_by-Apart p (x ∷ xs) h =
      insert_sorted-Apart p x (sort_by p xs) (any-sort_by p (λ (y : A). key y == key x) xs ∙ h.0)
        (sort_by-Apart p xs h.1)
