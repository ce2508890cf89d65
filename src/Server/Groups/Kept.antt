-- ===== src/Server/Groups/Kept.antt =====
-- crates/server/src/app_groups.rs: the constraints of the rules' table hold through a move.
use screenguard.Prelude.{
  eq_string, ◌≡◌, refl, Option, Bool, true, false, not, none, some, List, [], ◌∷◌, ◌++◌, String,
  ◌==◌, any, filter, arith, Bool-cases, Option-cases, inl, inr, filter_fewer, any-append,
  if◌then◌else◌, find, is_some,
}
use screenguard.Apps.Id.{parse}
use screenguard.Text.{trim}
use screenguard.Apps.Groups.{GroupRule}
use screenguard.Server.Groups.{
  Group, RuleRecord, RuleRow, Store, Listing, delete_rule, add_rule, valid_value, with_rule,
  same_rule, kind_str, list_groups,
}
use screenguard.Server.Groups.Board.{
  delete_all, drop_opposite, leave_others, is_entry, move, move_app, set_membership, entry_rule,
  find_group, in_this, without_exclusions, enter, leave, with_rules,
}
use screenguard.Server.Groups.Rules.{
  IsTable, same_key, delete_rule-IsTable, delete_rule-Within, Within-any,
}

-- The table keeps its constraints, and an id that it did not have is not in it.
abbrev Keeps : String → List RuleRecord → Type 0
Keeps fresh rules = IsTable rules × (any (λ (r : RuleRecord). r.id == fresh) rules ≡ false)

delete_rule-Keeps :
    (fresh : String) (rules : List RuleRecord) (group id : String)
    → Keeps fresh rules
    → Keeps fresh (delete_rule rules group id)
delete_rule-Keeps fresh rules group id k = (
  delete_rule-IsTable rules group id k.0,
  Within-any (λ (r : RuleRecord). r.id == fresh) (delete_rule rules group id) rules
      (delete_rule-Within rules group id) k.1,
)

delete_all-Keeps :
    (fresh : String) (rules : List RuleRecord) (group : String) (rows : List RuleRow)
    → Keeps fresh rules
    → Keeps fresh (delete_all rules group rows)
delete_all-Keeps fresh rules group [] k = k
delete_all-Keeps fresh rules group (r ∷ rows) k =
    delete_all-Keeps fresh (delete_rule rules group r.id) group rows
      (delete_rule-Keeps fresh rules group r.id k)

drop_opposite-Keeps :
    (fresh : String) (rules : List RuleRecord) (g : Group) (app : String) (member : Bool)
    → Keeps fresh rules
    → Keeps fresh (drop_opposite rules g app member)
drop_opposite-Keeps fresh rules g app member k =
    elim (Option-cases (find (λ (r : RuleRow). is_entry app member r.rule) g.rules)) [
      | inl n ↦ rw (drop_opposite, n) k
      | inr (r, e) ↦ rw (drop_opposite, e) (delete_rule-Keeps fresh rules g.id r.id k)
    ]

leave_others-Keeps :
    (fresh : String) (groups : List Group) (rules : List RuleRecord) (group app : String)
    → Keeps fresh rules
    → Keeps fresh (leave_others rules groups group app)
unfolding leave_others
leave_others-Keeps fresh [] rules group app k = k
leave_others-Keeps fresh (other ∷ groups) rules group app k =
    let named = filter (λ (r : RuleRow). is_entry app false r.rule) other.rules in
    let left = delete_all rules other.id named in
    let next : Keeps fresh (if other.id == group then rules else left) =
      elim (Bool-cases (other.id == group)) [
        | inl e ↦ rw e k
        | inr n ↦ rw n (delete_all-Keeps fresh rules other.id named k)
      ] in
    leave_others-Keeps fresh groups (if other.id == group then rules else left) group app next

filter-IsTable :
    (p : RuleRecord → Bool) (rules : List RuleRecord) → IsTable rules → IsTable (filter p rules)
filter-IsTable p [] t = tt
filter-IsTable p (r ∷ rules) t = ground (
  arith,
  filter-IsTable p rules t.2,
  filter_fewer (same_key r) p rules t.0,
  filter_fewer (λ (x : RuleRecord). x.id == r.id) p rules t.1,
)

last-IsTable :
    (rules : List RuleRecord) (x : RuleRecord)
    → IsTable rules
    → any (same_key x) rules ≡ false
    → any (λ (r : RuleRecord). r.id == x.id) rules ≡ false
    → IsTable (rules ++ (x ∷ []))
last-IsTable [] x t s i = (refl, refl, tt)
last-IsTable (r ∷ rules) x t s i = (
  rw any-append (ground (arith, t.0, symmetric, s)),
  rw any-append
      (ground (arith, t.1, i, eq_string.same_iff x.id r.id, eq_string.same_iff r.id x.id)),
  last-IsTable rules x t.2 (ground (arith, s)) (ground (arith, i)),
)
  where
    symmetric : same_key r x ≡ same_key x r
    symmetric = ground (
      arith,
      eq_string.same_iff x.group_id r.group_id,
      eq_string.same_iff r.group_id x.group_id,
      eq_string.same_iff x.kind r.kind,
      eq_string.same_iff r.kind x.kind,
      eq_string.same_iff x.value r.value,
      eq_string.same_iff r.value x.value,
    )

with_rule-IsTable :
    (rules : List RuleRecord) (fresh group kind value : String) (exclude : Bool)
    → Keeps fresh rules
    → IsTable (with_rule rules fresh group kind value exclude)
unfolding with_rule
with_rule-IsTable rules fresh group kind value exclude k =
    let stays = λ (r : RuleRecord). not (same_rule group kind value (not exclude) r) in
    elim (Bool-cases (any (same_rule group kind value exclude) rules)) [
      | inl there ↦ rw there k.0
      | inr new ↦ rw new (
          last-IsTable (filter stays rules) _ (filter-IsTable stays rules k.0)
            (filter_fewer (same_rule group kind value exclude) stays rules new)
            (filter_fewer (λ (r : RuleRecord). r.id == fresh) stays rules k.1))
    ]

add_rule-IsTable :
    (rules : List RuleRecord) (fresh group : String) (rule : GroupRule)
    → Keeps fresh rules
    → IsTable (add_rule rules fresh group rule).0
unfolding add_rule
add_rule-IsTable rules fresh group rule k =
    elim (Bool-cases (valid_value rule.kind (trim rule.value))) [
      | inl y ↦ rw y (
          with_rule-IsTable rules fresh group (kind_str rule.kind) (trim rule.value) rule.exclude k)
      | inr n ↦ rw n k.0
    ]

delete_all-IsTable :
    (rules : List RuleRecord) (group : String) (rows : List RuleRow)
    → IsTable rules
    → IsTable (delete_all rules group rows)
delete_all-IsTable rules group [] t = t
delete_all-IsTable rules group (r ∷ rows) t =
    delete_all-IsTable (delete_rule rules group r.id) group rows
      (delete_rule-IsTable rules group r.id t)

module _ ⦃w : Listing⦄ (store : Store) (profile group app : String) (categories : List String) where
  without_exclusions-IsTable :
      (rules : List RuleRecord) (g : Option Group)
      → IsTable rules
      → IsTable (without_exclusions store profile group app categories rules g)
  without_exclusions-IsTable rules none t = t
  without_exclusions-IsTable rules (some g) t =
      delete_all-IsTable rules group (filter (λ (r : RuleRow). is_entry app true r.rule) g.rules) t

  enter-IsTable :
      (added : List RuleRecord × Bool)
      → IsTable added.0
      → IsTable (enter store profile group app categories added).0
  enter-IsTable (rules, false) t = t
  enter-IsTable (rules, true) t =
      elim (Bool-cases (in_this store profile group app categories rules)) [
        | inl y ↦ rw y t
        | inr n ↦
            let g = find_group (list_groups (with_rules store rules) profile) group in
            rw n (without_exclusions-IsTable rules g t)
      ]

  leave-IsTable :
      (added : List RuleRecord × Bool)
      → IsTable added.0
      → IsTable (leave store profile group app categories added).0
  leave-IsTable (rules, false) t = t
  leave-IsTable (rules, true) t = t

  move-IsTable :
      (fresh : String) (rules : List RuleRecord) (member : Bool)
      → Keeps fresh rules
      → IsTable (move store profile group app categories fresh rules member).0
  unfolding move
  move-IsTable fresh rules member k = ground (
    arith,
    k,
    enter-IsTable (add_rule rules fresh group (entry_rule app false))
        (add_rule-IsTable rules fresh group (entry_rule app false) k),
    leave-IsTable (add_rule rules fresh group (entry_rule app true))
        (add_rule-IsTable rules fresh group (entry_rule app true) k),
  )

  move_app-IsTable :
      (fresh : String) (groups : List Group) (g : Option Group) (member : Bool)
      → Keeps fresh store.rules
      → IsTable (move_app store profile group app categories fresh groups g member).0
  unfolding move_app
  move_app-IsTable fresh groups none member k = k.0
  move_app-IsTable fresh groups (some g) true k = move-IsTable fresh _ true (
      leave_others-Keeps fresh groups _ group app
        (drop_opposite-Keeps fresh store.rules g app true k))
  move_app-IsTable fresh groups (some g) false k =
      move-IsTable fresh _ false (drop_opposite-Keeps fresh store.rules g app false k)

-- However an app is moved, and also if the call fails, no rule of a group and no id of a rule comes to
-- stand twice in the table, given a fresh id.
pub set_membership-IsTable :
    ⦃w : Listing⦄ (store : Store) (fresh profile group app : String) (categories : List String)
    (member : Bool)
    → IsTable store.rules
    → any (λ (r : RuleRecord). r.id == fresh) store.rules ≡ false
    → IsTable (set_membership store fresh profile group app categories member).0.rules
unfolding set_membership
set_membership-IsTable store fresh profile group app categories member t new =
    elim (Bool-cases (is_some (parse app))) [
      | inl y ↦ rw y (
          move_app-IsTable store profile group app categories fresh (list_groups store profile)
            (find_group (list_groups store profile) group) member (t, new))
      | inr n ↦ rw n t
    ]
