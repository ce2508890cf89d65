-- ===== src/Server/Groups/Board.antt =====
-- crates/server/src/app_groups.rs, lines 57-62 and 293-348: an app is put into a group or taken out.
use screenguard.Prelude.{
  eq_string, Bool, true, false, not, ◌&&◌, Option, none, some, List, [], ◌∷◌, String, ◌==◌,
  if◌then◌else◌, find, filter, is_some,
}
use screenguard.Apps.Id.{parse}
use screenguard.Apps.Groups.{GroupRule, is_app_id, app_id}
use screenguard.Server.Groups.{
  Group, RuleRecord, RuleRow, Store, Listing, add_rule, delete_rule, group_of, list_groups,
}

-- How a call ends: `Ok(Some(()))`, `Ok(None)` for an unknown group, or an error.
pub data Reply : Type 0 where
  done missing refused : Reply

-- A rule that names the app, in the group or out of it.
abbrev pub is_entry : String → Bool → GroupRule → Bool
is_entry app exclude r =
    is_app_id r.kind && r.value == app && (if exclude then r.exclude else not r.exclude)

abbrev pub delete_all : List RuleRecord → String → List RuleRow → List RuleRecord
delete_all rules group [] = rules
delete_all rules group (r ∷ rows) = delete_all (delete_rule rules group r.id) group rows

-- The explicit rule that says the opposite of what is wanted is dropped.
abbrev pub drop_opposite : List RuleRecord → Group → String → Bool → List RuleRecord
drop_opposite rules group app member =
    elim (find (λ (r : RuleRow). is_entry app member r.rule) group.rules) [
      | none ↦ rules
      | some r ↦ delete_rule rules group.id r.id
    ]

-- Every other group that names the app loses it.
unfoldable pub leave_others : List RuleRecord → List Group → String → String → List RuleRecord
leave_others rules [] group app = rules
leave_others rules (other ∷ groups) group app =
    let left =
      delete_all rules other.id (filter (λ (r : RuleRow). is_entry app false r.rule) other.rules) in
    leave_others (if other.id == group then rules else left) groups group app

abbrev pub is_this : String → Option String → Bool
is_this group none = false
is_this group (some id) = id == group

abbrev pub entry_rule : String → Bool → GroupRule
entry_rule app exclude = record { kind = app_id; value = app; exclude = exclude }

abbrev pub with_rules : Store → List RuleRecord → Store
with_rules store rules = record store { rules = rules }

abbrev pub find_group : List Group → String → Option Group
find_group groups id = find (λ (g : Group). g.id == id) groups

module _ ⦃w : Listing⦄ where
  module _ (store : Store) (profile group app : String) (categories : List String) where
    abbrev pub in_this : List RuleRecord → Bool
    in_this rules =
        is_this group (group_of (list_groups (with_rules store rules) profile) app categories)

    -- An exclusion of the app that still stands is removed.
    abbrev pub without_exclusions : List RuleRecord → Option Group → List RuleRecord
    without_exclusions rules none = rules
    without_exclusions rules (some g) =
        delete_all rules group (filter (λ (r : RuleRow). is_entry app true r.rule) g.rules)

    abbrev pub settle : List RuleRecord → List RuleRecord
    settle rules =
        let again =
          without_exclusions rules
            (find_group (list_groups (with_rules store rules) profile) group) in
        if in_this rules then rules else again

    abbrev pub enter : List RuleRecord × Bool → List RuleRecord × Reply
    enter (rules, false) = (rules, refused)
    enter (rules, true) = (settle rules, done)

    abbrev pub leave : List RuleRecord × Bool → List RuleRecord × Reply
    leave (rules, false) = (rules, refused)
    leave (rules, true) = (rules, done)

    unfoldable pub move : String → List RuleRecord → Bool → List RuleRecord × Reply
    move fresh rules member =
        let entered = enter (add_rule rules fresh group (entry_rule app false)) in
        let left = leave (add_rule rules fresh group (entry_rule app true)) in
        if member && not (in_this rules)
        then entered
        else if not member && in_this rules
        then left
        else (rules, done)

    unfoldable pub move_app : String → List Group → Option Group → Bool → List RuleRecord × Reply
    move_app fresh groups none member = (store.rules, missing)
    move_app fresh groups (some g) member =
        let dropped = drop_opposite store.rules g app member in
        move fresh (if member then leave_others dropped groups group app else dropped) member

  unfoldable pub set_membership :
      Store → String → String → String → String → List String → Bool → Store × Reply
  set_membership store fresh profile group app categories member =
      let groups = list_groups store profile in
      let moved =
        move_app store profile group app categories fresh groups (find_group groups group) member in
      if is_some (parse app) then (with_rules store moved.0, moved.1) else (store, refused)
