-- ===== src/Apps/Id.antt =====
-- crates/common/src/apps.rs, lines 11-112: an app id is `<kind>:<name>`; parsing and printing.
use Prim.Native.String.{◌++◌ as str_append}
use Prim.Native.Char.{Char, code}
use text.Mathlib.TextEquality.{eq_iff}
use text.Mathlib.TextLemmas.{nil-append, cons-append}
use screenguard.Prelude.{
  eq_nat, ==_refl, PartialEq, eq_string, ℕ, ◌≤◌, ◌≡◌, refl, ap, sym, subst, Bool, true, false, not,
  ◌&&◌, ◌||◌, ◌↔◌, Option, none, some, String, ltb, if◌then◌else◌, ◌==◌, arith, ◌>>=◌, ◌∙◌,
  Option-cases, inl, inr,
}
use screenguard.Apps.Chars.{
  all_chars, is_empty, len, split_once, is_digit, is_lower, is_upper, is_control, split_once-append,
  split_once-join,
}

abbrev pub max_app_id_len : ℕ
max_app_id_len = 255

pub data AppKind : Type 0 where
  desktop flatpak snap steam minecraft wine exe : AppKind

unfoldable pub prefix : AppKind → String
prefix desktop = "desktop"
prefix flatpak = "flatpak"
prefix snap = "snap"
prefix steam = "steam"
prefix minecraft = "minecraft"
prefix wine = "wine"
prefix exe = "exe"

unfoldable pub from_prefix : String → Option AppKind
from_prefix s =
    if s == "desktop"
    then some desktop
    else if s == "flatpak"
    then some flatpak
    else if s == "snap"
    then some snap
    else if s == "steam"
    then some steam
    else if s == "minecraft"
    then some minecraft
    else if s == "wine"
    then some wine
    else if s == "exe"
    then some exe
    else none

abbrev reverse_dns : ℕ → Bool
reverse_dns c = is_digit c || is_lower c || is_upper c || c == b'.' || c == b'_' || c == b'-'

abbrev plain : ℕ → Bool
plain c = not (is_control c) && not (c == b'/')

unfoldable pub valid_name : AppKind → String → Bool
valid_name flatpak name = all_chars reverse_dns name
valid_name snap name = all_chars (λ c. is_lower c || is_digit c || c == b'-') name
valid_name steam name = all_chars is_digit name
valid_name minecraft name = all_chars is_lower name
valid_name desktop name = all_chars plain name
valid_name wine name = all_chars plain name
valid_name exe name = all_chars plain name

pub record AppId : Type 0 where
  pub kind : AppKind
  pub name : String

-- `Display`: `{kind}:{name}`
unfoldable pub display : AppId → String
display id = str_append (prefix id.kind) (str_append ":" id.name)

-- The tests of `parse` on the two parts of the text.
unfoldable pub parse_parts : String → String → Option AppId
parse_parts p name = from_prefix p >>= λ kind.
    if is_empty name || not (valid_name kind name)
    then none
    else some (record { kind = kind; name = name })

unfoldable pub parse : String → Option AppId
unfolding parse_parts
parse s =
    if ltb max_app_id_len (len s)
    then none
    else split_once b':' s >>= λ parts. parse_parts parts.0 parts.1

unfoldable pub new : AppKind → String → Option AppId
new kind name =
    let id : AppId = record { kind = kind; name = name } in
    elim (parse (display id)) [ none ↦ none | some parsed ↦ some id ]

abbrev pub is_exe : AppKind → Bool
is_exe exe = true
is_exe _ = false

unfoldable pub is_app : AppId → Bool
is_app id = not (is_exe id.kind)

-- An id that fits the wire format: a name, of the kind's characters, within the length.
pub record IsValid (id : AppId) : Type 0 where
  pub named : is_empty id.name ≡ false
  pub chars : valid_name id.kind id.name ≡ true
  pub short : len (display id) ≤ max_app_id_len

from_prefix-prefix : (k : AppKind) → from_prefix (prefix k) ≡ some k
unfolding from_prefix prefix
from_prefix-prefix desktop = refl
from_prefix-prefix flatpak = refl
from_prefix-prefix snap = refl
from_prefix-prefix steam = refl
from_prefix-prefix minecraft = refl
from_prefix-prefix wine = refl
from_prefix-prefix exe = refl

prefix-from_prefix : (s : String) (k : AppKind) → from_prefix s ≡ some k → prefix k ≡ s
unfolding from_prefix prefix
prefix-from_prefix s k h = ground (
  arith,
  eq_iff s "desktop",
  eq_iff s "flatpak",
  eq_iff s "snap",
  eq_iff s "steam",
  eq_iff s "minecraft",
  eq_iff s "wine",
  eq_iff s "exe",
)

abbrev colon : Char
colon = ":"

prefix_plain : (k : AppKind) → all_chars (λ x. not (x == code colon)) (prefix k) ≡ true
unfolding prefix
prefix_plain desktop = refl
prefix_plain flatpak = refl
prefix_plain snap = refl
prefix_plain steam = refl
prefix_plain minecraft = refl
prefix_plain wine = refl
prefix_plain exe = refl

display_lem : (id : AppId) → display id ≡ str_append (prefix id.kind) (String.◌∷◌ colon id.name)
unfolding display
display_lem id = rw (cons-append colon String.[] id.name, nil-append)

split_once-display : (id : AppId) → split_once b':' (display id) ≡ some (prefix id.kind, id.name)
split_once-display id =
    rw display_lem (split_once-append colon (prefix id.kind) id.name (prefix_plain id.kind))

parse-display_valid : (id : AppId) → IsValid id → parse (display id) ≡ some id
unfolding parse
parse-display_valid id v =
    ground (arith, split_once-display id, from_prefix-prefix id.kind, v.short, v.named, v.chars)

parse_parts_lem :
    (p name : String) (id : AppId)
    → parse_parts p name ≡ some id
    → (from_prefix p ≡ some id.kind)
      × (id.name ≡ name)
      × (is_empty name ≡ false)
      × (valid_name id.kind name ≡ true)
unfolding parse_parts
parse_parts_lem p name id h = ground arith

parse_split :
    (s p name : String) (id : AppId)
    → split_once b':' s ≡ some (p, name)
    → parse s ≡ some id
    → (len s ≤ max_app_id_len) × (parse_parts p name ≡ some id)
unfolding parse
parse_split s p name id e h = ground (arith, e)

parse-IsValid_split :
    (s p name : String) (id : AppId)
    → split_once b':' s ≡ some (p, name)
    → parse s ≡ some id
    → (display id ≡ s) × IsValid id
parse-IsValid_split s p name id e h =
    let (short, parts) = parse_split s p name id e h in
    let (pre, same, full, chars) = parse_parts_lem p name id parts in
    let shown : display id ≡ s =
      cc (
        display_lem id,
        prefix-from_prefix p id.kind pre,
        split_once-join colon s p name e,
        same,
      ) in
    (shown, record { named = cc (same, full); chars = cc (same, chars); short = rw shown short })

parse-IsValid : (s : String) (id : AppId) → parse s ≡ some id → (display id ≡ s) × IsValid id
unfolding parse
parse-IsValid s id h = elim (Option-cases (split_once b':' s)) [
  | inl n ↦ ground (arith, n)
  | inr (p, e) ↦ parse-IsValid_split s p.0 p.1 id e h
]

-- A text parses to an id exactly when it is the id's own printed form and the id is valid: a
-- non-empty name of the kind's characters, at most 255 bytes printed.
pub parse_iff : (s : String) (id : AppId) → (parse s ≡ some id) ↔ ((display id ≡ s) × IsValid id)
parse_iff s id = (parse-IsValid s id, λ h. ap parse (sym h.0) ∙ parse-display_valid id h.1)

-- The derived equality of kinds and ids.
abbrev kind_tag : AppKind → ℕ
kind_tag desktop = 0
kind_tag flatpak = 1
kind_tag snap = 2
kind_tag steam = 3
kind_tag minecraft = 4
kind_tag wine = 5
kind_tag exe = 6

abbrev kind_at : ℕ → AppKind
kind_at n =
    if n == 0
    then desktop
    else if n == 1
    then flatpak
    else if n == 2
    then snap
    else if n == 3
    then steam
    else if n == 4
    then minecraft
    else if n == 5
    then wine
    else exe

kind_at-kind_tag : (k : AppKind) → kind_at (kind_tag k) ≡ k
kind_at-kind_tag desktop = refl
kind_at-kind_tag flatpak = refl
kind_at-kind_tag snap = refl
kind_at-kind_tag steam = refl
kind_at-kind_tag minecraft = refl
kind_at-kind_tag wine = refl
kind_at-kind_tag exe = refl

abbrev pub app_id_beq : AppId → AppId → Bool
app_id_beq a b = kind_tag a.kind == kind_tag b.kind && a.name == b.name

pub app_id_beq_iff : (a b : AppId) → (app_id_beq a b ≡ true) ↔ (a ≡ b)
app_id_beq_iff a b = (
  λ h.
      let same : kind_tag a.kind ≡ kind_tag b.kind = ground arith in
      let kinds : a.kind ≡ b.kind =
        sym (kind_at-kind_tag a.kind) ∙ ap kind_at same ∙ kind_at-kind_tag b.kind in
      let names : a.name ≡ b.name = ground (arith, eq_iff a.name b.name) in
      λ i. record { kind = kinds i; name = names i },
  λ e.
      subst (λ x. app_id_beq a x ≡ true) e
        (ground (arith, ==_refl a.name, ==_refl (kind_tag a.kind))),
)

instance abbrev pub eq_app_id : PartialEq AppId
eq_app_id = record { same = app_id_beq; same_iff = app_id_beq_iff }
