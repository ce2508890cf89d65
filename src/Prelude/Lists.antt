-- ===== src/Prelude/Lists.antt =====
-- Lists: lengths, searches and membership over the native numbers and derived equality.
use Prim.Native.Nat.{ℕ, suc}
use native.Mathlib.Omega.{arith}
use mathlib.Core.Path.{◌≡◌, refl}
use mathlib.Core.Bool.{Bool, true, false, ◌||◌, ◌&&◌}
use mathlib.Core.Logic.{◌↔◌, inl, inr}
use mathlib.Core.Option.{Option, none, some}
use mathlib.Core.List.{List, [], ◌∷◌, ◌++◌}
use screenguard.Prelude.Tests.{if◌then◌else◌, is_some, Bool-cases}
use screenguard.Prelude.Equality.{PartialEq, ◌==◌}

module _ {ℓ} {A : Type ℓ} where
  abbrev pub length : List A → ℕ
  length [] = 0
  length (x ∷ xs) = suc (length xs)

  -- `iter().any(p)`
  abbrev pub any : (A → Bool) → List A → Bool
  any p [] = false
  any p (x ∷ xs) = p x || any p xs

  -- `iter().find(p)`
  abbrev pub find : (A → Bool) → List A → Option A
  find p [] = none
  find p (x ∷ xs) = let rest = find p xs in if p x then some x else rest

  -- `iter().filter(p)`
  abbrev pub filter : (A → Bool) → List A → List A
  filter p [] = []
  filter p (x ∷ xs) = let rest = filter p xs in if p x then x ∷ rest else rest

  -- Some element of the list has the property, with the element's place.
  pub data Any {κ} (P : A → Type κ) : List A → Type (ℓ ⊔ κ) where
    here : {x : A} {xs : List A} → P x → Any P (x ∷ xs)
    there : {x : A} {xs : List A} → Any P xs → Any P (x ∷ xs)

  pub Any-map {κ μ} :
      (P : A → Type κ) (Q : A → Type μ) {xs : List A} → ((x : A) → P x → Q x) → Any P xs → Any Q xs
  Any-map P Q f (here {x = x} h) = here (f x h)
  Any-map P Q f (there h) = there (Any-map P Q f h)

  -- Every element has the property.
  abbrev pub All {κ} : (A → Type κ) → List A → Type κ
  All P [] = Unit
  All P (x ∷ xs) = P x × All P xs

  pub All-zip {κ μ ν} :
      (P : A → Type κ) (Q : A → Type μ) (R : A → Type ν) (xs : List A)
      → ((x : A) → P x → Q x → R x)
      → All P xs
      → All Q xs
      → All R xs
  All-zip P Q R [] f h k = tt
  All-zip P Q R (x ∷ xs) f h k = (f x h.0 k.0, All-zip P Q R xs f h.1 k.1)

-- `is_empty`
abbrev pub is_empty_list {ℓ} : {A : Type ℓ} → List A → Bool
is_empty_list [] = true
is_empty_list (x ∷ xs) = false

-- What `any` and `find` say of a filtered, appended or mapped list.
module _ {ℓ} {A : Type ℓ} where
  pub any_ext : (p q : A → Bool) (xs : List A) → ((x : A) → p x ≡ q x) → any p xs ≡ any q xs
  any_ext p q [] h = refl
  any_ext p q (x ∷ xs) h = ground (arith, h x, any_ext p q xs h)

  pub any-filter : (p q : A → Bool) (xs : List A) → any p (filter q xs) ≡ any (λ x. q x && p x) xs
  any-filter p q [] = refl
  any-filter p q (x ∷ xs) = ground (arith, any-filter p q xs)

  pub any-append : (p : A → Bool) (xs ys : List A) → any p (xs ++ ys) ≡ (any p xs || any p ys)
  any-append p [] ys = refl
  any-append p (x ∷ xs) ys = ground (arith, any-append p xs ys)

  -- A sublist has no element that the list has not.
  pub filter_fewer : (p q : A → Bool) (xs : List A) → any p xs ≡ false → any p (filter q xs) ≡ false
  filter_fewer p q [] h = refl
  filter_fewer p q (x ∷ xs) h = ground (arith, filter_fewer p q xs)

  pub any_or : (p q : A → Bool) (xs : List A) → any (λ x. p x || q x) xs ≡ (any p xs || any q xs)
  any_or p q [] = refl
  any_or p q (x ∷ xs) = ground (arith, any_or p q xs)

  pub find-any : (p : A → Bool) (xs : List A) → is_some (find p xs) ≡ any p xs
  find-any p [] = refl
  find-any p (x ∷ xs) = ground (arith, find-any p xs)

-- `contains`
abbrev pub contains {ℓ} : {A : Type ℓ} ⦃e : PartialEq A⦄ → List A → A → Bool
contains [] a = false
contains (x ∷ xs) a = x == a || contains xs a

module _ {ℓ κ} {A : Type ℓ} (p : A → Bool) (P : A → Type κ) where
  -- A test that decides a property finds an element with it.
  pub any_iff : (xs : List A) → ((x : A) → (p x ≡ true) ↔ P x) → (any p xs ≡ true) ↔ Any P xs
  any_iff [] h = (λ e. absurd cc, λ a. elim a [ ])
  any_iff (x ∷ xs) h = (
    λ e. elim (Bool-cases (p x)) [
      | inl q ↦ here ((h x).0 q)
      | inr q ↦ there ((any_iff xs h).0 (ground (arith, q, e)))
    ],
    λ a. elim a [
      | here q ↦ ground (arith, (h x).1 q)
      | there q ↦ ground (arith, (any_iff xs h).1 q)
    ],
  )
