-- ===== src/Text.antt =====
-- The methods of `str` that agent and server read times and thresholds with.
pub mod Decimal
pub mod Affixes
use Prim.Native.Char.{Char, code}
use screenguard.Prelude.{
  eq_nat, ℕ, ◌+◌, ◌-◌, ◌*◌, Bool, ◌&&◌, ◌||◌, Option, none, some, List, [], ◌∷◌, String, leb, ltb,
  if◌then◌else◌, ◌==◌,
}
use screenguard.Prelude.Int.{two32}
use screenguard.Apps.Chars.{is_digit, is_empty}

-- `split(c)`
abbrev pub cons_head : Char → List String → List String
cons_head c [] = []
cons_head c (s ∷ rest) = String.◌∷◌ c s ∷ rest

abbrev pub split : ℕ → String → List String
split c String.[] = String.[] ∷ []
split c (String.◌∷◌ d s) = if code d == c then String.[] ∷ split c s else cons_head d (split c s)

-- `parse::<u32>()`: an optional `+`, then digits whose value fits in 32 bits.
abbrev pub parse_digits : ℕ → String → Option ℕ
parse_digits n String.[] = some n
parse_digits n (String.◌∷◌ c s) =
    let next = n * 10 + (code c - b'0') in
    let rest = parse_digits next s in if is_digit (code c) && ltb next two32 then rest else none

abbrev pub some_digits : String → Option ℕ
some_digits s = if is_empty s then none else parse_digits 0 s

abbrev pub parse_u32 : String → Option ℕ
parse_u32 String.[] = none
parse_u32 (String.◌∷◌ c s) = if code c == b'+' then some_digits s else some_digits (String.◌∷◌ c s)

-- `trim()`: without the characters of the property White_Space at both ends
abbrev pub is_whitespace : ℕ → Bool
is_whitespace c =
    (leb 9 c && leb c 13)
    || c == 32
    || c == 0x85
    || c == 0xA0
    || c == 0x1680
    || (leb 0x2000 c && leb c 0x200A)
    || c == 0x2028
    || c == 0x2029
    || c == 0x202F
    || c == 0x205F
    || c == 0x3000

abbrev pub trim_start : String → String
trim_start String.[] = String.[]
trim_start (String.◌∷◌ c s) =
    let rest = trim_start s in if is_whitespace (code c) then rest else String.◌∷◌ c s

abbrev pub trim_end : String → String
trim_end String.[] = String.[]
trim_end (String.◌∷◌ c s) =
    let rest = trim_end s in
    if is_empty rest && is_whitespace (code c) then String.[] else String.◌∷◌ c rest

abbrev pub trim : String → String
trim s = trim_end (trim_start s)

-- `filter_map(f)`
abbrev pub cons_some {ℓ} : {A : Type ℓ} → Option A → List A → List A
cons_some none xs = xs
cons_some (some x) xs = x ∷ xs

abbrev pub filter_map {ℓ κ} : {A : Type ℓ} {B : Type κ} → (A → Option B) → List A → List B
filter_map f [] = []
filter_map f (x ∷ xs) = cons_some (f x) (filter_map f xs)
