-- ===== src/Prelude/Equality.antt =====
-- Derived equality (`PartialEq`) as an interface, with its instances for numbers and texts.
use Prim.Native.Nat.{ℕ}
use Prim.Native.String.{String}
use mathlib.Core.Path.{◌≡◌, refl}
use mathlib.Core.Logic.{◌≢◌, ◌↔◌, ◌⊎◌, inl, inr}
use mathlib.Core.Bool.{Bool, true, false, ◌&&◌}
use native.Mathlib.Omega.{arith}
use text.Mathlib.Text.{◌==◌ as str_beq}
use text.Mathlib.TextEquality.{eq_iff}
use screenguard.Prelude.Tests.{nat_beq, nat_beq_iff, Bool-cases}

-- A Boolean test that decides whether two values are one.
pub record PartialEq {ℓ} (T : Type ℓ) : Type ℓ where
  pub same : T → T → Bool
  pub same_iff : (x y : T) → (same x y ≡ true) ↔ (x ≡ y)

instance abbrev pub eq_string : PartialEq String
eq_string = record { same = str_beq; same_iff = eq_iff }

infix 50 ◌==◌
abbrev pub ◌==◌ {ℓ} : {T : Type ℓ} ⦃q : PartialEq T⦄ → T → T → Bool
◌==◌ ⦃q⦄ x y = q.same x y

instance abbrev pub eq_nat : PartialEq ℕ
eq_nat = record { same = nat_beq; same_iff = nat_beq_iff }

module _ {ℓ κ} {A : Type ℓ} {B : Type κ} ⦃e : PartialEq A⦄ ⦃f : PartialEq B⦄ where
  abbrev pub pair_beq : A × B → A × B → Bool
  pair_beq p q = p.0 == q.0 && p.1 == q.1

  pub pair_beq_iff : (p q : A × B) → (pair_beq p q ≡ true) ↔ (p ≡ q)
  pair_beq_iff (a, b) (c, d) = ground (arith, e.same_iff a c, f.same_iff b d)

instance abbrev pub eq_pair {ℓ κ} :
    {A : Type ℓ} {B : Type κ} ⦃e : PartialEq A⦄ ⦃f : PartialEq B⦄ → PartialEq (A × B)
eq_pair = record { same = pair_beq; same_iff = pair_beq_iff }

module _ {ℓ} {A : Type ℓ} ⦃e : PartialEq A⦄ where
  pub ==_refl : (a : A) → (a == a) ≡ true
  ==_refl a = (e.same_iff a a).1 refl

  pub ==_ne : (a b : A) → a ≢ b → (a == b) ≡ false
  ==_ne a b h = elim (Bool-cases (a == b)) [ inl p ↦ absurd (h ((e.same_iff a b).0 p)) | inr p ↦ p ]

  pub ==_eq : (a b : A) → a ≡ b → (a == b) ≡ true
  ==_eq a b h = (e.same_iff a b).1 h

  pub ==_cases : (a b : A) → (a ≡ b) ⊎ (a ≢ b)
  ==_cases a b = elim (Bool-cases (a == b)) [
    | inl p ↦ inl ((e.same_iff a b).0 p)
    | inr p ↦ inr (λ q. ground (arith, e.same_iff a b))
  ]
