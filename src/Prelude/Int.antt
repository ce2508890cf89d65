-- ===== src/Prelude/Int.antt =====
-- The signed integers of the source (`i32`, `i64`) over the native numbers, and the casts to `i32`.
use screenguard.Prelude.{
  ℕ, suc, ◌+◌, ◌-◌, ◌*◌, ◌%◌, ◌/◌, ◌^◌, ◌≤◌, ◌<◌, ◌≡◌, Bool, arith, ltb, leb, if◌then◌else◌,
  PartialEq, ◌↔◌, nat_beq, nat_beq_iff, false, true,
}

-- `negsuc n` is -(n + 1).
pub data ℤ : Type 0 where
  pos : ℕ → ℤ
  negsuc : ℕ → ℤ

abbrev pub pos_part : ℤ → ℕ
pos_part (pos n) = n
pos_part (negsuc n) = 0

abbrev pub neg_part : ℤ → ℕ
neg_part (pos n) = 0
neg_part (negsuc n) = suc n

-- a - b, as an integer.
abbrev pub sub_ℕ : ℕ → ℕ → ℤ
sub_ℕ a b = if leb b a then pos (a - b) else negsuc (b - a - 1)

infixl 65 ◌+ℤ◌ ◌-ℤ◌
infix 50 ◌≤ℤ◌ ◌<ℤ◌
unfoldable pub ◌+ℤ◌ : ℤ → ℤ → ℤ
a +ℤ b = sub_ℕ (pos_part a + pos_part b) (neg_part a + neg_part b)

unfoldable pub ◌-ℤ◌ : ℤ → ℤ → ℤ
a -ℤ b = sub_ℕ (pos_part a + neg_part b) (neg_part a + pos_part b)

abbrev pub ◌≤ℤ◌ : ℤ → ℤ → Type 0
a ≤ℤ b = pos_part a + neg_part b ≤ pos_part b + neg_part a

abbrev pub ◌<ℤ◌ : ℤ → ℤ → Type 0
a <ℤ b = pos_part a + neg_part b < pos_part b + neg_part a

abbrev pub leb_ℤ : ℤ → ℤ → Bool
leb_ℤ a b = leb (pos_part a + neg_part b) (pos_part b + neg_part a)

-- `.min(b)` and `.max(0)`
unfoldable pub min_ℤ : ℤ → ℤ → ℤ
min_ℤ a b = if leb_ℤ a b then a else b

abbrev pub max_zero : ℤ → ℕ
max_zero (pos n) = n
max_zero (negsuc n) = 0

abbrev pub is_zero : ℤ → Bool
is_zero (pos n) = nat_beq n 0
is_zero (negsuc n) = false

abbrev pub two31 : ℕ
two31 = 2147483648

abbrev pub two32 : ℕ
two32 = 4294967296

-- An unsigned value `as i32`: the low 32 bits, in two's complement.
unfoldable pub as_i32 : ℕ → ℤ
as_i32 n = let r = n % two32 in if ltb r two31 then pos r else negsuc (two32 - 1 - r)

-- The sum or difference of two `i32`, which wraps in a release build.
unfoldable pub wrap_i32 : ℤ → ℤ
unfolding as_i32
wrap_i32 (pos n) = as_i32 n
wrap_i32 (negsuc n) = as_i32 (two32 - 1 - n % two32)

abbrev pub two63 : ℕ
two63 = 9223372036854775808

abbrev pub two64 : ℕ
two64 = 18446744073709551616

-- `as i64`, and the sums of two `i64`.
unfoldable pub as_i64 : ℕ → ℤ
as_i64 n = let r = n % two64 in if ltb r two63 then pos r else negsuc (two64 - 1 - r)

unfoldable pub wrap_i64 : ℤ → ℤ
unfolding as_i64
wrap_i64 (pos n) = as_i64 n
wrap_i64 (negsuc n) = as_i64 (two64 - 1 - n % two64)

-- Division by a positive number rounds towards zero.
unfoldable pub div_ℤ : ℤ → ℕ → ℤ
div_ℤ (pos n) d = pos (n / d)
div_ℤ (negsuc n) d = sub_ℕ 0 (suc n / d)

pub record IsI64 (a : ℤ) : Type 0 where
  pub above : neg_part a ≤ two63
  pub below : pos_part a < two63

pub as_i64-small : (n : ℕ) → n < two63 → as_i64 n ≡ pos n
unfolding as_i64
as_i64-small n h = ground arith

-- The range of `i32`.
pub record IsI32 (a : ℤ) : Type 0 where
  pub above : neg_part a ≤ two31
  pub below : pos_part a < two31

pub as_i32-small : (n : ℕ) → n < two31 → as_i32 n ≡ pos n
unfolding as_i32
as_i32-small n h = ground arith

pub wrap_i32-small : (a : ℤ) → IsI32 a → wrap_i32 a ≡ a
unfolding wrap_i32
wrap_i32-small (pos n) h = ground (arith, h.below)
wrap_i32-small (negsuc n) h = ground (arith, h.above)

pub wrap_i32-IsI32 : (a : ℤ) → IsI32 (wrap_i32 a)
unfolding wrap_i32
wrap_i32-IsI32 (pos n) = ground arith
wrap_i32-IsI32 (negsuc n) = ground arith

-- One lemma for each operation lets `omega` work with the operations shut.
pub +ℤ_parts :
    (a b : ℤ)
    → pos_part (a +ℤ b) + neg_part a + neg_part b ≡ neg_part (a +ℤ b) + pos_part a + pos_part b
unfolding ◌+ℤ◌
+ℤ_parts a b = ground arith

pub -ℤ_parts :
    (a b : ℤ)
    → pos_part (a -ℤ b) + neg_part a + pos_part b ≡ neg_part (a -ℤ b) + pos_part a + neg_part b
unfolding ◌-ℤ◌
-ℤ_parts a b = ground arith

pub eq_of_parts : (a b : ℤ) → pos_part a + neg_part b ≡ pos_part b + neg_part a → a ≡ b
eq_of_parts a b h = ground arith

pub ruleset int_laws = (arith, +ℤ_parts, -ℤ_parts, eq_of_parts)

abbrev pub int_beq : ℤ → ℤ → Bool
int_beq (pos a) (pos b) = nat_beq a b
int_beq (pos a) (negsuc b) = false
int_beq (negsuc a) (pos b) = false
int_beq (negsuc a) (negsuc b) = nat_beq a b

pub int_beq_iff : (a b : ℤ) → (int_beq a b ≡ true) ↔ (a ≡ b)
int_beq_iff (pos a) (pos b) = ground (arith, nat_beq_iff a b)
int_beq_iff (pos a) (negsuc b) = ground arith
int_beq_iff (negsuc a) (pos b) = ground arith
int_beq_iff (negsuc a) (negsuc b) = ground (arith, nat_beq_iff a b)

instance abbrev pub eq_int : PartialEq ℤ
eq_int = record { same = int_beq; same_iff = int_beq_iff }
