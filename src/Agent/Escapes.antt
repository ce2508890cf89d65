-- ===== src/Agent/Escapes.antt =====
-- crates/agent/src/app_ident.rs, parse_unit: it reads back the launcher and the app from the name that
-- systemd gives to the scope of an app.
use Prim.Native.Char.{Char, code}
use Prim.Native.String.{◌++◌ as str_append}
use text.Mathlib.TextEquality.{Char-path}
use text.Mathlib.TextLemmas.{nil-append, cons-append}
use screenguard.Prelude.{
  eq_nat, eq_string, ◌≡◌, refl, ap, ℕ, ◌+◌, ◌/◌, ◌%◌, ◌*◌, ◌<◌, false, none, some, String, ◌==◌,
  if◌then◌else◌, List, [], ◌∷◌, leb, arith, All,
}
use screenguard.Apps.Chars.{split_once-append}
use screenguard.Text.Affixes.{
  Without, strip_prefix, rsplit_once-append, strip_prefix-append, strip_suffix-append,
}
use screenguard.Agent.Units.{
  byte_char, hex_digit, hex_pair, unescape, unit_body, launcher_and_app, parse_unit,
}

-- A name as systemd writes it: a character as it is, or its byte in two hexadecimal digits. A
-- character outside ASCII has several bytes, and is not among these.
pub data Piece : Type 0 where
  plain : Char → Piece
  escape : Char → Piece

abbrev pub IsPiece : Piece → Type 0
IsPiece (plain c) = ((code c == b'-') ≡ false) × ((code c == 92) ≡ false)
IsPiece (escape c) = code c < 128

abbrev pub hex_char : ℕ → Char
hex_char d = byte_char (if leb d 9 then d + 48 else d + 87)

abbrev pub written : List Piece → String
written [] = String.[]
written (plain c ∷ ps) = String.◌∷◌ c (written ps)
written (escape c ∷ ps) = String.◌∷◌ "\\" (
    String.◌∷◌ "x"
      (String.◌∷◌ (hex_char (code c / 16)) (String.◌∷◌ (hex_char (code c % 16)) (written ps))))

abbrev pub meant : List Piece → String
meant [] = String.[]
meant (plain c ∷ ps) = String.◌∷◌ c (meant ps)
meant (escape c ∷ ps) = String.◌∷◌ c (meant ps)

hex_char_lem :
    (d : ℕ)
    → d < 16
    → (hex_digit (code (hex_char d)) ≡ some d)
      × ((code (hex_char d) == b'-') ≡ false)
      × ((code (hex_char d) == b'+') ≡ false)
unfolding byte_char
hex_char_lem d h = ground arith

byte_char-code : (c : Char) → code c < 128 → byte_char (code c) ≡ c
unfolding byte_char
byte_char-code c h = Char-path (byte_char (code c)) c (omega arith)

hex_pair_lem :
    (n : ℕ) → n < 256 → hex_pair (code (hex_char (n / 16))) (code (hex_char (n % 16))) ≡ some n
hex_pair_lem n h =
    let hi = hex_char_lem (n / 16) (omega arith) in
    let lo = hex_char_lem (n % 16) (omega arith) in
    rw (hi.0, hi.2, lo.0) (ap (λ m. some m) (whole n))
  where
    whole : (m : ℕ) → m / 16 * 16 + m % 16 ≡ m
    whole m = omega arith

written-Without : (ps : List Piece) → All IsPiece ps → Without b'-' (written ps)
written-Without [] h = refl
written-Without (plain c ∷ ps) h = rw (h.0.0) (written-Without ps h.1)
written-Without (escape c ∷ ps) h =
    let hi = hex_char_lem (code c / 16) (omega (arith, h.0)) in
    let lo = hex_char_lem (code c % 16) (omega (arith, h.0)) in
    rw (hi.1, lo.1) (written-Without ps h.1)

-- Unescaping gives the characters that were meant.
unescape-written : (ps : List Piece) → All IsPiece ps → unescape (written ps) ≡ meant ps
unfolding unescape
unescape-written [] h = refl
unescape-written (plain c ∷ ps) h =
    rw (h.0.1) (rw (cons-append, nil-append) (ap (String.◌∷◌ c) (unescape-written ps h.1)))
unescape-written (escape c ∷ ps) h = rw (hex_pair_lem (code c) (omega (arith, h.0))) (
    rw (cons-append, nil-append)
      (rw (byte_char-code c h.0) (ap (String.◌∷◌ c) (unescape-written ps h.1))))

-- The launcher and the app, and the whole name of the scope.
abbrev pub escaped : List Piece → List Piece → String
escaped launcher app = str_append (written launcher) (String.◌∷◌ "-" (written app))

abbrev pub scope_name : List Piece → List Piece → String → String
scope_name launcher app random =
    str_append "app-"
      (str_append (str_append (escaped launcher app) (String.◌∷◌ "-" random)) ".scope")

no_snap : (s : String) → strip_prefix (str_append "app-" s) "snap." ≡ none
no_snap s = ap (λ u. strip_prefix u "snap.") (cons-append "a" "pp-" s)

body_lem :
    (body random : String)
    → Without b'-' random
    → unit_body (str_append (str_append body (String.◌∷◌ "-" random)) ".scope") ≡ some body
body_lem body random r =
    let dash : Char = "-" in
    rw (unit_body, strip_suffix-append (str_append body (String.◌∷◌ "-" random)) ".scope")
      (rw (rsplit_once-append dash body random r) refl)

launcher_lem :
    (launcher app : List Piece)
    → All IsPiece launcher
    → All IsPiece app
    → launcher_and_app (escaped launcher app) ≡ (some (meant launcher), meant app)
launcher_lem launcher app l a =
    let dash : Char = "-" in
    rw
      (
        launcher_and_app,
        split_once-append dash (written launcher) (written app) (written-Without launcher l),
      )
      (rw (unescape-written launcher l, unescape-written app a) refl)

-- From a name of the form that systemd gives to the scope of an app (`app-`, the launcher, the app and
-- a random part with `-` between, and `.scope`), the launcher and the app are read back, if every
-- character is either written as it is, and then neither `-` nor `\`, or an ASCII character that is
-- written as the two hexadecimal digits of its byte, and the random part has no `-`.
pub parse_unit-scope_name :
    (launcher app : List Piece) (random : String)
    → All IsPiece launcher
    → All IsPiece app
    → Without b'-' random
    → parse_unit (scope_name launcher app random) ≡ some (some (meant launcher), meant app)
unfolding parse_unit
parse_unit-scope_name launcher app random l a r =
    let rest = str_append (str_append (escaped launcher app) (String.◌∷◌ "-" random)) ".scope" in
    rw (parse_unit, no_snap rest, strip_prefix-append "app-" rest)
      (rw (body_lem (escaped launcher app) random r) (rw (launcher_lem launcher app l a) refl))
