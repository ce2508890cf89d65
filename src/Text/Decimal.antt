-- ===== src/Text/Decimal.antt =====
-- `to_string` of a `u32` and `join`, which `parse` and `split` read back.
use Prim.Native.Char.{Char, code}
use Prim.Native.String.{◌++◌ as str_append}
use text.Mathlib.TextLemmas.{nil-append, cons-append}
use screenguard.Prelude.{
  eq_nat, ℕ, zero, suc, ◌+◌, ◌*◌, ◌/◌, ◌%◌, ◌<◌, ◌≡◌, refl, ap, true, false, some, List, [], ◌∷◌,
  map, String, ltb, if◌then◌else◌, ◌==◌, arith, All, Bool-cases, inl, inr, ◌∙◌, subst,
}
use screenguard.Prelude.Int.{two32}
use screenguard.Apps.Chars.{all_chars, is_empty, is_digit}
use screenguard.Text.{split, parse_digits, parse_u32, is_whitespace, trim, trim_end, filter_map}

abbrev digit_char : ℕ → Char
digit_char n =
    if n == 0
    then "0"
    else if n == 1
    then "1"
    else if n == 2
    then "2"
    else if n == 3
    then "3"
    else if n == 4
    then "4"
    else if n == 5
    then "5"
    else if n == 6
    then "6"
    else if n == 7
    then "7"
    else if n == 8
    then "8"
    else "9"

-- The digits of a number in front of a text; a `u32` has ten at most.
show_from : ℕ → ℕ → String → String
show_from zero n s = s
show_from (suc f) n s =
    let front = String.◌∷◌ (digit_char (n % 10)) s in
    let rest = show_from f (n / 10) front in if ltb n 10 then front else rest

unfoldable pub to_string : ℕ → String
unfolding show_from
to_string n = show_from 10 n String.[]

-- `join(",")`
abbrev pub join : Char → List String → String
join c [] = String.[]
join c (s ∷ []) = s
join c (s ∷ t ∷ rest) = str_append s (String.◌∷◌ c (join c (t ∷ rest)))

digit_char-code : (n : ℕ) → n < 10 → code (digit_char n) ≡ b'0' + n
digit_char-code zero h = refl
digit_char-code (suc zero) h = refl
digit_char-code (suc (suc zero)) h = refl
digit_char-code (suc (suc (suc zero))) h = refl
digit_char-code (suc (suc (suc (suc zero)))) h = refl
digit_char-code (suc (suc (suc (suc (suc zero))))) h = refl
digit_char-code (suc (suc (suc (suc (suc (suc zero)))))) h = refl
digit_char-code (suc (suc (suc (suc (suc (suc (suc zero))))))) h = refl
digit_char-code (suc (suc (suc (suc (suc (suc (suc (suc zero)))))))) h = refl
digit_char-code (suc (suc (suc (suc (suc (suc (suc (suc (suc zero))))))))) h = refl
digit_char-code (suc (suc (suc (suc (suc (suc (suc (suc (suc (suc n)))))))))) h =
    absurd (omega arith)

abbrev pow10 : ℕ → ℕ
pow10 zero = 1
pow10 (suc f) = 10 * pow10 f

parse_digits-last :
    (n : ℕ) (s : String)
    → n < two32
    → parse_digits (n / 10) (String.◌∷◌ (digit_char (n % 10)) s) ≡ parse_digits n s
parse_digits-last n s h =
    ground (arith, digit_char-code (n % 10), ap (λ m. parse_digits m s) (last n))
  where
    last : (m : ℕ) → m / 10 * 10 + m % 10 ≡ m
    last m = omega arith

tenth : (n : ℕ) → n < 10 → n / 10 ≡ 0
tenth n h = omega arith

parse_digits-show_from :
    (f n : ℕ) (s : String)
    → n < pow10 f
    → n < two32
    → parse_digits 0 (show_from f n s) ≡ parse_digits n s
unfolding show_from
parse_digits-show_from zero n s h k = let e : n ≡ 0 = omega arith in rw e refl
parse_digits-show_from (suc f) n s h k = elim (Bool-cases (ltb n 10)) [
  | inl e ↦ rw e (
      subst (λ m. parse_digits m (String.◌∷◌ (digit_char (n % 10)) s) ≡ parse_digits n s)
        (tenth n (ground arith)) (parse_digits-last n s k))
  | inr e ↦ rw e (
      parse_digits-show_from f (n / 10) (String.◌∷◌ (digit_char (n % 10)) s) (omega arith)
        (omega arith)
      ∙ parse_digits-last n s k)
]

-- A text of digits only, with at least one.
abbrev pub IsNumeral : String → Type 0
IsNumeral s = (is_empty s ≡ false) × (all_chars is_digit s ≡ true)

show_from-IsNumeral :
    (f n : ℕ) (s : String) → all_chars is_digit s ≡ true → IsNumeral (show_from (suc f) n s)
unfolding show_from
show_from-IsNumeral zero n s h = ground (arith, digit_char-code (n % 10))
show_from-IsNumeral (suc f) n s h = ground (
  arith,
  digit_char-code (n % 10),
  show_from-IsNumeral f (n / 10) (String.◌∷◌ (digit_char (n % 10)) s),
)

to_string-IsNumeral : (n : ℕ) → IsNumeral (to_string n)
unfolding to_string
to_string-IsNumeral n = show_from-IsNumeral 9 n String.[] refl

parse_digits-to_string : (n : ℕ) → n < two32 → parse_digits 0 (to_string n) ≡ some n
unfolding to_string
parse_digits-to_string n h = parse_digits-show_from 10 n String.[] (omega arith) h

parse_u32-IsNumeral : (s : String) → IsNumeral s → parse_u32 s ≡ parse_digits 0 s
parse_u32-IsNumeral String.[] h = cc
parse_u32-IsNumeral (String.◌∷◌ c s) h = ground (arith, h.1)

-- A `u32` is read back from its print.
pub parse_u32-to_string : (n : ℕ) → n < two32 → parse_u32 (to_string n) ≡ some n
parse_u32-to_string n h = parse_u32-IsNumeral _ (to_string-IsNumeral n) ∙ parse_digits-to_string n h

digit_solid : (c : ℕ) → is_digit c ≡ true → is_whitespace c ≡ false
digit_solid c h = ground arith

digit_head :
    (c : Char) (s : String)
    → all_chars is_digit (String.◌∷◌ c s) ≡ true
    → (is_whitespace (code c) ≡ false) × (all_chars is_digit s ≡ true)
digit_head c s h = (digit_solid (code c) (ground (arith, h)), ground (arith, h))

trim_end-IsNumeral : (s : String) → all_chars is_digit s ≡ true → trim_end s ≡ s
trim_end-IsNumeral String.[] h = refl
trim_end-IsNumeral (String.◌∷◌ c s) h =
    rw (digit_head c s h).0 (rw (trim_end-IsNumeral s (digit_head c s h).1) (ground arith))

trim-IsNumeral : (s : String) → all_chars is_digit s ≡ true → trim s ≡ s
trim-IsNumeral String.[] h = refl
trim-IsNumeral (String.◌∷◌ c s) h = rw (digit_head c s h).0 (trim_end-IsNumeral (String.◌∷◌ c s) h)

split-IsNumeral :
    (s t : String)
    → all_chars is_digit s ≡ true
    → split b',' (str_append s (String.◌∷◌ "," t)) ≡ s ∷ split b',' t
split-IsNumeral String.[] t h = rw nil-append refl
split-IsNumeral (String.◌∷◌ c s) t h = rw cons-append (ground (arith, split-IsNumeral s t))

split_one : (s : String) → all_chars is_digit s ≡ true → split b',' s ≡ s ∷ []
split_one String.[] h = refl
split_one (String.◌∷◌ c s) h = ground (arith, split_one s)

read-to_string : (n : ℕ) → n < two32 → parse_u32 (trim (to_string n)) ≡ some n
read-to_string n h = rw (trim-IsNumeral _ (to_string-IsNumeral n).1) (parse_u32-to_string n h)

-- The numbers of a list are read back from their prints with commas between.
pub filter_map-split-join :
    (ns : List ℕ)
    → All (λ n. n < two32) ns
    → filter_map (λ (s : String). parse_u32 (trim s)) (split b',' (join "," (map to_string ns)))
      ≡ ns
filter_map-split-join [] h = refl
filter_map-split-join (n ∷ []) h =
    rw (split_one (to_string n) (to_string-IsNumeral n).1) (rw (read-to_string n h.0) refl)
filter_map-split-join (n ∷ m ∷ ns) h =
    rw (split-IsNumeral (to_string n) (join "," (map to_string (m ∷ ns))) (to_string-IsNumeral n).1)
      (rw (read-to_string n h.0) (rw (filter_map-split-join (m ∷ ns) h.1) refl))
