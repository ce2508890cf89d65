-- ===== src/Server/Groups/Shown.antt =====
-- crates/server/src/app_groups.rs: which rules a listing shows of a group, as tests on the table's rows.
use screenguard.Prelude.{
  eq_string, ==_cases, ==_ne, ◌≡◌, refl, ap, ◌∙◌, Bool, true, false, not, ◌&&◌, ◌||◌, none, some,
  List, [], ◌∷◌, map, String, ◌==◌, any, filter, arith, inl, inr, any_ext, any-filter,
}
use screenguard.Apps.Groups.{GroupRule, is_app_id, names, excludes, hits}
use screenguard.Text.{filter_map}
use screenguard.Server.Groups.{
  GroupRow, RuleRecord, RuleRow, Store, Listing, same_rule, listed, rule_row, rules_of, own_groups,
  own_rules,
}
use screenguard.Server.Groups.Board.{is_entry}

-- A test on listed rules, of a row of the table.
abbrev pub row_holds : (RuleRow → Bool) → RuleRecord → Bool
row_holds q r = elim (rule_row r) [ none ↦ false | some x ↦ q x ]

abbrev pub row_test : (GroupRule → Bool) → RuleRecord → Bool
row_test q r = row_holds (λ x. q x.rule) r

rows_any :
    (q : RuleRow → Bool) (rows : List RuleRecord)
    → any q (filter_map rule_row rows) ≡ any (row_holds q) rows
rows_any q [] = refl
rows_any q (r ∷ rows) = ground (arith, rows_any q rows)

any-map :
    (q : GroupRule → Bool) (rows : List RuleRow)
    → any q (map (λ (r : RuleRow). r.rule) rows) ≡ any (λ (r : RuleRow). q r.rule) rows
any-map q [] = refl
any-map q (r ∷ rows) = ground (arith, any-map q rows)

-- A group stands among those of a profile.
abbrev pub owns : Store → String → String → Bool
owns store profile id = any (λ (g : GroupRow). g.id == id) (own_groups store profile)

joined :
    (store : Store) (profile id : String) (q : RuleRecord → Bool) (r : RuleRecord)
    → owns store profile id ≡ true
    → (owns store profile r.group_id && (r.group_id == id && q r)) ≡ (r.group_id == id && q r)
joined store profile id q r h = elim (==_cases r.group_id id) [
  | inl e ↦ rw (ap (owns store profile) e ∙ h) refl
  | inr n ↦ rw (==_ne r.group_id id n) (ground arith)
]

-- The rules that a listing shows of a group of the profile are the group's rows.
pub any-rules :
    ⦃w : Listing⦄ (store : Store) (profile : String) (g : GroupRow) (q : RuleRow → Bool)
    → owns store profile g.id ≡ true
    → any q (listed (w.order_by (own_rules store profile)) g).rules
      ≡ any (λ (r : RuleRecord). r.group_id == g.id && row_holds q r) store.rules
unfolding listed
any-rules ⦃w⦄ store profile g q h =
    rows_any q
      (filter (λ (r : RuleRecord). r.group_id == g.id) (w.order_by (own_rules store profile)))
    ∙ any-filter (row_holds q) (λ (r : RuleRecord). r.group_id == g.id) _
    ∙ w.any-order_by _ (own_rules store profile)
    ∙ any-filter _ _ store.rules
    ∙ any_ext _ _ store.rules (λ r. joined store profile g.id (row_holds q) r h)

pub any-listed :
    ⦃w : Listing⦄ (store : Store) (profile : String) (g : GroupRow) (q : GroupRule → Bool)
    → owns store profile g.id ≡ true
    → any q (rules_of (listed (w.order_by (own_rules store profile)) g))
      ≡ any (λ (r : RuleRecord). r.group_id == g.id && row_test q r) store.rules
any-listed ⦃w⦄ store profile g q h =
    any-map q (listed (w.order_by (own_rules store profile)) g).rules
    ∙ any-rules store profile g (λ x. q x.rule) h

-- The tests that decide a group, on the rows of a group.
abbrev pub entry : List RuleRecord → String → String → Bool → Bool
entry rules group app exclude = any (same_rule group "app_id" app exclude) rules

abbrev pub bars : String → List String → GroupRule → Bool
bars app categories r = not (is_app_id r.kind) && excludes app categories r

-- An exclusion by category or prefix takes the app out of the group.
abbrev pub barred : List RuleRecord → String → String → List String → Bool
barred rules group app categories =
    any (λ (r : RuleRecord). r.group_id == group && row_test (bars app categories) r) rules

pub entry_row :
    (group app : String) (exclude : Bool) (r : RuleRecord)
    → (r.group_id == group && row_test (is_entry app exclude) r)
      ≡ same_rule group "app_id" app exclude r
entry_row group app exclude r = ground arith

pub names_row :
    (group app : String) (r : RuleRecord)
    → (r.group_id == group && row_test (names app) r) ≡ same_rule group "app_id" app false r
names_row group app r = ground arith

pub excludes_row :
    (group app : String) (categories : List String) (r : RuleRecord)
    → (r.group_id == group && row_test (excludes app categories) r) ≡ (
        same_rule group "app_id" app true r
        || (r.group_id == group && row_test (bars app categories) r))
unfolding hits
excludes_row group app categories r =
    ground (arith, eq_string.same_iff r.value app, eq_string.same_iff app r.value)
