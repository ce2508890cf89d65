-- ===== src/Server/Groups.antt =====
-- crates/server/src/app_groups.rs, lines 14-291: the app groups of the profiles, their rules, and the
-- board on which a parent moves an app into a group or out of it. A fresh `Uuid` is an argument; the
-- times of creation are left out. The column `exclude` holds 0 or 1.
pub mod Board
pub mod Shown
pub mod Rules
pub mod Order
pub mod Leaving
pub mod Listed
pub mod Kept
pub mod Moves
pub mod Limits
pub mod Life
pub mod Seeded
use Prim.Native.Char.{code}
use screenguard.Prelude.Sort.{sort_by, leb_str}
use screenguard.Prelude.{
  eq_nat, eq_string, ℕ, ◌+◌, Bool, true, false, not, ◌&&◌, ◌||◌, Option, none, some, List, [], ◌∷◌,
  ◌++◌, map, String, ◌==◌, if◌then◌else◌, any, find, filter, leb, ltb, is_some, ◌>>=◌, ◌≡◌,
}
use screenguard.Apps.Chars.{
  all_chars, is_empty, is_control, is_digit, is_lower, is_upper, len, split_once,
}
use screenguard.Apps.Id.{parse}
use screenguard.Apps.Groups.{GroupRule, RuleKind, app_id, category, prefix, assign_group}
use screenguard.Text.{trim, filter_map}
use screenguard.Server.Db.{is_profile}

-- A row of `app_groups`.
pub record GroupRow : Type 0 where
  pub id : String
  pub profile_id : Option String
  pub name : String
  pub builtin : Option String

-- A row of `app_group_rules`.
pub record RuleRecord : Type 0 where
  pub id : String
  pub group_id : String
  pub kind : String
  pub value : String
  pub exclude : Bool

pub record RuleRow : Type 0 where
  pub id : String
  pub rule : GroupRule

pub record Group : Type 0 where
  pub id : String
  pub name : String
  pub builtin : Option String
  pub rules : List RuleRow

abbrev pub rules_of : Group → List GroupRule
rules_of g = map (λ (r : RuleRow). r.rule) g.rules

-- The one group of an app among `groups`.
unfoldable pub group_of : List Group → String → List String → Option String
group_of groups app categories =
    assign_group (map (λ (g : Group). (g.id, rules_of g)) groups) app categories >>= λ id.
    find (λ (g : Group). g.id == id) groups >>= λ (g : Group). some g.id

abbrev pub kind_str : RuleKind → String
kind_str app_id = "app_id"
kind_str prefix = "prefix"
kind_str category = "category"

abbrev pub kind_from : String → Option RuleKind
kind_from s =
    if s == "app_id"
    then some app_id
    else if s == "prefix"
    then some prefix
    else if s == "category"
    then some category
    else none

abbrev pub max_group_name : ℕ
max_group_name = 60

abbrev pub without_control : String → String
without_control String.[] = String.[]
without_control (String.◌∷◌ c s) =
    let rest = without_control s in if is_control (code c) then rest else String.◌∷◌ c rest

-- `chars().count()`
abbrev pub count : String → ℕ
count String.[] = 0
count (String.◌∷◌ c s) = 1 + count s

unfoldable pub clean_name : String → Option String
clean_name name =
    let kept = trim (without_control name) in
    if is_empty kept || ltb max_group_name (count kept) then none else some kept

abbrev pub alphanumeric : ℕ → Bool
alphanumeric c = is_digit c || is_lower c || is_upper c

-- Lower-case letters, then the only `:` at the end.
abbrev pub is_prefix_rule : Option (String × String) → Bool
is_prefix_rule none = false
is_prefix_rule (some parts) = all_chars is_lower parts.0 && is_empty parts.1

unfoldable pub valid_value : RuleKind → String → Bool
valid_value app_id value = is_some (parse value)
valid_value prefix value = is_prefix_rule (split_once b':' value) && leb (len value) 32
valid_value category value =
    not (is_empty value)
    && leb (len value) 64
    && all_chars (λ c. alphanumeric c || c == b'-' || c == b'_') value

-- The tables `app_groups` and `app_group_rules`.
pub record Store : Type 0 where
  pub groups : List GroupRow
  pub rules : List RuleRecord

abbrev pub same_rule : String → String → String → Bool → RuleRecord → Bool
same_rule group kind value exclude r =
    r.group_id == group
    && r.kind == kind
    && r.value == value
    && (if exclude then r.exclude else not r.exclude)

-- The rows after a valid rule of a group is added.
unfoldable pub with_rule :
    List RuleRecord → String → String → String → String → Bool → List RuleRecord
with_rule rules fresh group kind value exclude =
    if any (same_rule group kind value exclude) rules
    then rules
    else filter (λ r. not (same_rule group kind value (not exclude) r)) rules
      ++ (record { id = fresh; group_id = group; kind = kind; value = value; exclude = exclude }
          ∷ [])

-- The rows, and whether the rule was accepted; the id of the rule is left out.
unfoldable pub add_rule : List RuleRecord → String → String → GroupRule → List RuleRecord × Bool
add_rule rules fresh group r =
    let value = trim r.value in
    if valid_value r.kind value
    then (with_rule rules fresh group (kind_str r.kind) value r.exclude, true)
    else (rules, false)

unfoldable pub delete_rule : List RuleRecord → String → String → List RuleRecord
delete_rule rules group id =
    filter (λ (r : RuleRecord). not (r.id == id && r.group_id == group)) rules

-- The place of a predefined group among the predefined ones.
abbrev pub place : Option String → ℕ
place none = 3
place (some key) =
    if key == "games" then 0 else if key == "browsers" then 1 else if key == "blocked" then 2 else 3

abbrev pub rule_row : RuleRecord → Option RuleRow
rule_row r = kind_from r.kind >>= λ kind.
    some (record { id = r.id; rule = record { kind = kind; value = r.value; exclude = r.exclude } })

abbrev pub own_groups : Store → String → List GroupRow
own_groups store profile = filter (λ (g : GroupRow). is_profile profile g.profile_id) store.groups

-- The rows that the join of rules and groups selects.
abbrev pub own_rules : Store → String → List RuleRecord
own_rules store profile =
    filter
      (λ (r : RuleRecord). any (λ (g : GroupRow). g.id == r.group_id) (own_groups store profile))
      store.rules

unfoldable pub listed : List RuleRecord → GroupRow → Group
listed rules g = record {
  id = g.id;
  name = g.name;
  builtin = g.builtin;
  rules = filter_map rule_row (filter (λ (r : RuleRecord). r.group_id == g.id) rules);
}

abbrev pub is_builtin : String → Option String → Bool
is_builtin key none = false
is_builtin key (some b) = b == key

-- What a listing takes from outside: `to_lowercase` of the standard library, and the order in which
-- the database returns the rules.
pub record Listing : Type 0 where
  pub to_lowercase : String → String
  pub order_by : List RuleRecord → List RuleRecord
  pub any-order_by :
      (p : RuleRecord → Bool) (rules : List RuleRecord) → any p (order_by rules) ≡ any p rules

module _ ⦃w : Listing⦄ where
  unfoldable pub before : Option String × String → Option String × String → Bool
  before a b =
      let p = place a.0 in
      let q = place b.0 in
      if p == q then leb_str (w.to_lowercase a.1) (w.to_lowercase b.1) else ltb p q

  unfoldable pub list_groups : Store → String → List Group
  list_groups store profile =
      sort_by (λ (a b : Group). before (a.builtin, a.name) (b.builtin, b.name))
        (map (listed (w.order_by (own_rules store profile))) (own_groups store profile))
