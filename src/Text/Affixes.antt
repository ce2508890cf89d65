-- ===== src/Text/Affixes.antt =====
-- `strip_prefix`, `strip_suffix`, `ends_with` and `rsplit_once` of `str`.
use Prim.Native.Char.{Char, code}
use Prim.Native.String.{◌++◌ as str_append}
use text.Mathlib.TextLemmas.{nil-append, cons-append, append_cancel_right, cons-ne-nil}
use screenguard.Prelude.{
  eq_nat, eq_string, ==_refl, ==_ne, ◌≡◌, refl, sym, ◌∙◌, ℕ, Bool, true, false, not, Option, none,
  some, String, ◌==◌, if◌then◌else◌, is_some, arith,
}
use screenguard.Apps.Chars.{all_chars, is_empty, cons_first}

abbrev pub strip_prefix : String → String → Option String
strip_prefix s String.[] = some s
strip_prefix String.[] (String.◌∷◌ d p) = none
strip_prefix (String.◌∷◌ c s) (String.◌∷◌ d p) =
    let rest = strip_prefix s p in if code c == code d then rest else none

abbrev pub cons_text : Char → Option String → Option String
cons_text c none = none
cons_text c (some s) = some (String.◌∷◌ c s)

abbrev pub strip_suffix : String → String → Option String
strip_suffix String.[] p = if is_empty p then some String.[] else none
strip_suffix (String.◌∷◌ c s) p =
    let rest = cons_text c (strip_suffix s p) in
    if String.◌∷◌ c s == p then some String.[] else rest

abbrev pub ends_with : String → String → Bool
ends_with s p = is_some (strip_suffix s p)

-- The parts before and after the last `c`
abbrev pub last_split : Char → Bool → String → Option (String × String) → Option (String × String)
last_split d found s (some parts) = cons_first d (some parts)
last_split d found s none = if found then some (String.[], s) else none

abbrev pub rsplit_once : ℕ → String → Option (String × String)
rsplit_once c String.[] = none
rsplit_once c (String.◌∷◌ d s) = last_split d (code d == c) s (rsplit_once c s)

-- A text without `c`.
abbrev pub Without : ℕ → String → Type 0
Without c s = all_chars (λ x. not (x == c)) s ≡ true

rsplit_once-Without : (c : ℕ) (s : String) → Without c s → rsplit_once c s ≡ none
rsplit_once-Without c String.[] h = refl
rsplit_once-Without c (String.◌∷◌ d s) h = ground (arith, rsplit_once-Without c s)

-- In front of a `d`, with no `d` behind it, the text is the part before the last `d`.
pub rsplit_once-append :
    (d : Char) (a b : String)
    → Without (code d) b
    → rsplit_once (code d) (str_append a (String.◌∷◌ d b)) ≡ some (a, b)
rsplit_once-append d String.[] b h =
    rw nil-append (rw (rsplit_once-Without (code d) b h) (rw ==_refl refl))
rsplit_once-append d (String.◌∷◌ c a) b h =
    rw cons-append (ground (arith, rsplit_once-append d a b h))

pub strip_prefix-append : (p s : String) → strip_prefix (str_append p s) p ≡ some s
strip_prefix-append String.[] s = rw nil-append refl
strip_prefix-append (String.◌∷◌ c p) s = rw cons-append (ground (arith, strip_prefix-append p s))

longer : (c : Char) (s p : String) → (String.◌∷◌ c (str_append s p) == p) ≡ false
longer c s p = ==_ne _ _ λ e.
    cons-ne-nil c s (
      append_cancel_right (String.◌∷◌ c s) String.[] p (cons-append c s p ∙ e ∙ sym (nil-append p)))

pub strip_suffix-append : (s p : String) → strip_suffix (str_append s p) p ≡ some s
strip_suffix-append String.[] p = rw nil-append (whole p)
  where
    whole : (t : String) → strip_suffix t t ≡ some String.[]
    whole String.[] = refl
    whole (String.◌∷◌ c t) = rw ==_refl refl
strip_suffix-append (String.◌∷◌ c s) p =
    rw cons-append (rw (longer c s p) (rw (strip_suffix-append s p) refl))
