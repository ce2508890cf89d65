-- ===== src/Apps/Chars.antt =====
-- The methods of `str` and `char` that the app ids use, character by character.
use Prim.Native.Char.{Char, code}
use text.Mathlib.TextLemmas.{nil-append, cons-append}
use text.Mathlib.TextEquality.{Char-path}
use Prim.Native.String.{◌++◌ as str_append}
use screenguard.Prelude.{
  Option-cases, inl, inr, eq_nat, ==_refl, not, ℕ, ◌+◌, ◌≡◌, refl, Bool, true, false, ◌&&◌, ◌||◌,
  Option, none, some, String, leb, ltb, if◌then◌else◌, ◌==◌, arith,
}

-- `chars().all(p)`, on code points
abbrev pub all_chars : (ℕ → Bool) → String → Bool
all_chars p String.[] = true
all_chars p (String.◌∷◌ c s) = p (code c) && all_chars p s

-- `is_empty`
abbrev pub is_empty : String → Bool
is_empty String.[] = true
is_empty (String.◌∷◌ c s) = false

-- `len`: the bytes of the UTF-8 encoding
abbrev pub utf8_width : ℕ → ℕ
utf8_width c = if ltb c 0x80 then 1 else if ltb c 0x800 then 2 else if ltb c 0x10000 then 3 else 4

abbrev pub len : String → ℕ
len String.[] = 0
len (String.◌∷◌ c s) = utf8_width (code c) + len s

-- `split_once(c)`: the parts before and after the first `c`
abbrev pub cons_first : Char → Option (String × String) → Option (String × String)
cons_first c none = none
cons_first c (some (a, b)) = some (String.◌∷◌ c a, b)

abbrev pub split_once : ℕ → String → Option (String × String)
split_once c String.[] = none
split_once c (String.◌∷◌ d s) =
    let rest = cons_first d (split_once c s) in if code d == c then some (String.[], s) else rest

abbrev pub is_digit : ℕ → Bool
is_digit c = leb b'0' c && leb c b'9'

abbrev pub is_lower : ℕ → Bool
is_lower c = leb b'a' c && leb c b'z'

abbrev pub is_upper : ℕ → Bool
is_upper c = leb b'A' c && leb c b'Z'

-- `is_control`: the category Cc
abbrev pub is_control : ℕ → Bool
is_control c = ltb c 32 || (leb 127 c && leb c 159)

-- `starts_with`
abbrev pub starts_with : String → String → Bool
starts_with s String.[] = true
starts_with String.[] (String.◌∷◌ d p) = false
starts_with (String.◌∷◌ c s) (String.◌∷◌ d p) = code c == code d && starts_with s p

-- `contains` of a text
abbrev pub contains_str : String → String → Bool
contains_str String.[] p = is_empty p
contains_str (String.◌∷◌ c s) p = starts_with (String.◌∷◌ c s) p || contains_str s p

-- A text with no `c` in front of a `c` is what the split gives back.
pub split_once-append :
    (d : Char) (a b : String)
    → all_chars (λ x. not (x == code d)) a ≡ true
    → split_once (code d) (str_append a (String.◌∷◌ d b)) ≡ some (a, b)
split_once-append d String.[] b h = rw nil-append (rw ==_refl refl)
split_once-append d (String.◌∷◌ c a) b h = rw cons-append (ground (arith, split_once-append d a b))

-- The parts of a split, put together again, are the text.
pub split_once-join :
    (d : Char) (s a b : String)
    → split_once (code d) s ≡ some (a, b)
    → str_append a (String.◌∷◌ d b) ≡ s
split_once-join d String.[] a b h = cc
split_once-join d (String.◌∷◌ c s) a b h = elim (Option-cases (split_once (code d) s)) [
  | inl n ↦ ground (arith, n, nil-append (String.◌∷◌ d b), Char-path c d)
  | inr (p, e) ↦ ground (
    arith,
    e,
    nil-append (String.◌∷◌ d b),
    Char-path c d,
    cons-append c p.0 (String.◌∷◌ d p.1),
    split_once-join d s p.0 p.1 e,
  )
]
