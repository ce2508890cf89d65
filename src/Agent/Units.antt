-- ===== src/Agent/Units.antt =====
-- crates/agent/src/app_ident.rs, lines 45-62 and 111-182: the unit of a process's cgroup, and the app
-- that the name of a systemd unit tells.
use Prim.Native.Char.{Char, char, code, IsScalar}
use Prim.Native.String.{◌++◌ as str_append}
use screenguard.Prelude.{
  eq_nat, eq_string, ℕ, zero, suc, ◌+◌, ◌-◌, ◌*◌, ◌%◌, ◌<◌, Bool, not, ◌&&◌, ◌||◌, Option, none,
  some, List, [], ◌∷◌, String, ◌==◌, if◌then◌else◌, or_default, find, filter, leb, arith, ◌>>=◌,
}
use screenguard.Apps.Chars.{is_empty, is_digit, starts_with, split_once}
use screenguard.Text.{split}
use screenguard.Text.Affixes.{strip_prefix, strip_suffix, ends_with, rsplit_once}

pub byte-IsScalar : (n : ℕ) → n < 256 → IsScalar n
byte-IsScalar n h = ground arith

-- `b as char`: the character of Latin-1
unfoldable pub byte_char : ℕ → Char
byte_char n = char (n % 256) (byte-IsScalar (n % 256) (omega arith))

abbrev pub hex_digit : ℕ → Option ℕ
hex_digit c =
    if is_digit c
    then some (c - b'0')
    else if leb b'a' c && leb c b'f'
    then some (c - b'a' + 10)
    else if leb b'A' c && leb c b'F'
    then some (c - b'A' + 10)
    else none

-- `u8::from_str_radix(h, 16)` on two characters, of which the first may be a `+`.
abbrev pub hex_pair : ℕ → ℕ → Option ℕ
hex_pair a b =
    let digits = hex_digit a >>= λ x. hex_digit b >>= λ y. some (x * 16 + y) in
    if a == b'+' then hex_digit b else digits

abbrev pub hex_byte : String → Option ℕ
hex_byte String.[] = none
hex_byte (String.◌∷◌ a String.[]) = none
hex_byte (String.◌∷◌ a (String.◌∷◌ b s)) = hex_pair (code a) (code b)

-- What is printed for a character and the text behind it, and how much of that text it takes.
abbrev pub byte_token : Option ℕ → String × ℕ
byte_token none = ("\\x", 1)
byte_token (some b) = (String.◌∷◌ (byte_char b) String.[], 3)

abbrev pub tail : String → String
tail String.[] = String.[]
tail (String.◌∷◌ c s) = s

abbrev pub token : Char → String → String × ℕ
token c s =
    if code c == 92 && starts_with s "x"
    then byte_token (hex_byte (tail s))
    else (String.◌∷◌ c String.[], 0)

abbrev pub unescape_from : ℕ → String → String
unescape_from n String.[] = String.[]
unescape_from zero (String.◌∷◌ c s) = str_append (token c s).0 (unescape_from (token c s).1 s)
unescape_from (suc n) (String.◌∷◌ c s) = unescape_from n s

unfoldable pub unescape : String → String
unescape s = unescape_from 0 s

pub data CgKind : Type 0 where
  app autostart user_service session background other : CgKind

abbrev pub is_unit : String → Bool
is_unit s = ends_with s ".scope" || ends_with s ".service"

-- The parts after the first that is the slice, if one is.
abbrev pub after_slice : String → List String → Option (List String)
after_slice slice [] = none
after_slice slice (p ∷ parts) =
    let rest = after_slice slice parts in if p == slice then some parts else rest

abbrev pub last_part : List String → String
last_part [] = String.[]
last_part (p ∷ []) = p
last_part (p ∷ q ∷ parts) = last_part (q ∷ parts)

abbrev pub app_kind : String → CgKind
app_kind unit =
    if not (starts_with unit "app-")
    then user_service
    else if ends_with unit "@autostart.service"
    then autostart
    else app

abbrev pub unit_in : String → List String → String
unit_in last parts = or_default last (find is_unit parts)

-- The kind of a cgroup and its unit: the first below the slice.
unfoldable pub classify : String → CgKind × String
classify path =
    let parts = filter (λ s. not (is_empty s)) (split b'/' path) in
    let last = last_part parts in
    if starts_with last "snap." then (app, last) else elim (after_slice "app.slice" parts) [
      | some below ↦ let unit = unit_in last below in (app_kind unit, unit)
      | none ↦ elim (after_slice "session.slice" parts) [
        | some below ↦ (session, unit_in last below)
        | none ↦ elim (after_slice "background.slice" parts) [
          | some below ↦ (background, unit_in last below)
          | none ↦ (other, last)
        ]
      ]
    ]

-- The part before the first `c`, or the whole.
abbrev pub before_first : ℕ → String → String
before_first c s = elim (split_once c s) [ none ↦ s | some parts ↦ parts.0 ]

-- The name of an app unit between `app-` and what systemd puts behind it.
abbrev pub unit_body : String → Option String
unit_body rest = elim (strip_suffix rest ".scope") [
  | some s ↦ rsplit_once b'-' s >>= λ parts. some parts.0
  | none ↦ strip_suffix rest ".service" >>= λ s. some (before_first b'@' s)
]

abbrev pub launcher_and_app : String → Option String × String
launcher_and_app body = elim (split_once b'-' body) [
  | none ↦ (none, unescape body)
  | some parts ↦ (some (unescape parts.0), unescape parts.1)
]

-- The launcher, if any, and the id of the app.
unfoldable pub parse_unit : String → Option (Option String × String)
parse_unit unit = elim (strip_prefix unit "snap.") [
  | some rest ↦ some (some "snap", before_first b'.' rest)
  | none ↦
      strip_prefix unit "app-" >>= λ rest. unit_body rest >>= λ body. some (launcher_and_app body)
]
