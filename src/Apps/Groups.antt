-- ===== src/Apps/Groups.antt =====
-- crates/common/src/apps.rs, lines 114-176: the rules of an app group and the group of an app.
use screenguard.Prelude.{
  eq_string, Bool, true, false, not, ◌&&◌, Option, none, some, String, ◌==◌, List, any, find,
  contains,
}
use screenguard.Apps.Chars.{is_empty, starts_with}

pub data RuleKind : Type 0 where
  app_id category : RuleKind
  prefix : RuleKind

pub record GroupRule : Type 0 where
  pub kind : RuleKind
  pub value : String
  pub exclude : Bool

abbrev pub is_app_id : RuleKind → Bool
is_app_id app_id = true
is_app_id _ = false

abbrev pub kind_hits : RuleKind → String → String → List String → Bool
kind_hits app_id value app categories = app == value
kind_hits prefix value app categories = not (is_empty value) && starts_with app value
kind_hits category value app categories = contains categories value

unfoldable pub hits : GroupRule → String → List String → Bool
hits r app categories = kind_hits r.kind r.value app categories

abbrev pub includes : String → List String → GroupRule → Bool
includes app categories r = not r.exclude && hits r app categories

abbrev pub excludes : String → List String → GroupRule → Bool
excludes app categories r = r.exclude && hits r app categories

unfoldable pub group_matches : List GroupRule → String → List String → Bool
group_matches rules app categories =
    any (includes app categories) rules && not (any (excludes app categories) rules)

abbrev pub names : String → GroupRule → Bool
names app r = is_app_id r.kind && not r.exclude && r.value == app

-- The closure `explicit` of `assign_group`.
unfoldable pub explicit : String → List String → List GroupRule → Bool
explicit app categories rules = any (names app) rules && not (any (excludes app categories) rules)

abbrev pub Group : Type 0
Group = String × List GroupRule

abbrev or_else : Option Group → Option Group → Option Group
or_else none o = o
or_else (some g) o = some g

abbrev id_of : Option Group → Option String
id_of none = none
id_of (some g) = some g.0

unfoldable pub assign_group : List Group → String → List String → Option String
assign_group groups app categories = id_of (
    or_else (find (λ (g : Group). explicit app categories g.1) groups)
      (find (λ (g : Group). group_matches g.1 app categories) groups))
