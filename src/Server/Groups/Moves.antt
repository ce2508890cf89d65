-- ===== src/Server/Groups/Moves.antt =====
-- crates/server/src/app_groups.rs, lines 293-348: after `set_membership`, the app is in the group or it
-- is not, as asked.
use screenguard.Prelude.Sort.{any-sort_by}
use screenguard.Prelude.{
  subst, eq_string, ==_eq, ◌≡◌, ◌≢◌, refl, sym, ap, ◌∙◌, Bool, true, false, ◌&&◌, some, List, [],
  ◌∷◌, map, String, ◌==◌, any, arith, Bool-cases, Option-cases, inl, inr, is_some, find-any,
}
use screenguard.Apps.Id.{parse}
use screenguard.Text.{trim}
use screenguard.Server.Groups.{
  listed, Group, GroupRow, RuleRecord, Store, Listing, add_rule, with_rule, valid_value, same_rule,
  list_groups, group_of, own_groups,
}
use screenguard.Server.Groups.Board.{
  Reply, done, is_this, in_this, with_rules, drop_opposite, leave_others, find_group, move,
  move_app, set_membership, entry_rule,
}
use screenguard.Server.Groups.Shown.{owns, entry, bars, barred, row_test}
use screenguard.Server.Groups.Rules.{IsTable, Within-any, with_rule_lem, with_rule_fewer}
use screenguard.Server.Groups.Order.{sorted_rows, list_groups_lem}
use screenguard.Server.Groups.Leaving.{
  shown, find-listed, entry-drop_opposite, Left, leave_others_lem,
}
use screenguard.Server.Groups.Listed.{any-map_rows, sorted_own, listed_in, listed_out}

add_rule_app :
    (rules : List RuleRecord) (fresh group app : String) (exclude : Bool)
    → is_some (parse app) ≡ true
    → trim app ≡ app
    → add_rule rules fresh group (entry_rule app exclude)
      ≡ (with_rule rules fresh group "app_id" app exclude, true)
unfolding add_rule valid_value
add_rule_app rules fresh group app exclude valid trimmed = rw (trimmed, valid) refl

module _ ⦃w : Listing⦄ (store : Store) (fresh profile app group : String) (categories : List String)
    (valid : is_some (parse app) ≡ true) (trimmed : trim app ≡ app) where
  abbrev Asked : Bool → List RuleRecord × Reply → Type 0
  Asked member after =
      (after.1 ≡ done) × (in_this store profile group app categories after.0 ≡ member)

  Left-with_rule :
      (rules : List RuleRecord) (rows : List GroupRow)
      → Left store profile app group rules rows
      → Left store profile app group (with_rule rules fresh group "app_id" app false) rows
  Left-with_rule rules [] h = tt
  Left-with_rule rules (row ∷ rows) h = (
    elim (Bool-cases (row.id == group)) [
      | inl e ↦ rw e refl
      | inr n ↦
          let before : entry rules row.id app false ≡ false = ground (arith, h.0, n) in
          rw n (
            with_rule_fewer (same_rule row.id "app_id" app false) rules fresh group "app_id" app
              false before
              (ground (arith, n, eq_string.same_iff row.id group, eq_string.same_iff group row.id)))
    ],
    Left-with_rule rules rows h.1,
  )

  entered :
      (rules : List RuleRecord)
      → owns store profile group ≡ true
      → Left store profile app group rules (sorted_rows store profile)
      → entry rules group app true ≡ false
      → barred rules group app categories ≡ false
      → in_this store profile group app categories (with_rule rules fresh group "app_id" app false)
        ≡ true
  entered rules o left free unbarred =
      let added = with_rule rules fresh group "app_id" app false in
      let found =
        listed_in profile app group categories (with_rules store added) o
          (Left-with_rule rules (sorted_rows store profile) left)
          (with_rule_lem rules fresh group "app_id" app false)
          (rw
            (
              with_rule_fewer (same_rule group "app_id" app true) rules fresh group "app_id" app
                  false free (ground arith),
              with_rule_fewer
                  (λ (r : RuleRecord). r.group_id == group && row_test (bars app categories) r)
                  rules fresh group "app_id" app false unbarred (ground arith),
            )
            refl) in
      ap (is_this group) found ∙ ==_eq group group refl

  -- The app enters, once no other group names it and nothing takes it out.
  move_in :
      (rules : List RuleRecord)
      → owns store profile group ≡ true
      → Left store profile app group rules (sorted_rows store profile)
      → entry rules group app true ≡ false
      → barred rules group app categories ≡ false
      → Asked true (move store profile group app categories fresh rules true)
  unfolding move
  move_in rules o left free unbarred =
      elim (Bool-cases (in_this store profile group app categories rules)) [
        | inl already ↦ rw already (refl, already)
        | inr not_yet ↦
            rw (not_yet, add_rule_app rules fresh group app false valid trimmed)
              (rw (entered rules o left free unbarred) (refl, entered rules o left free unbarred))
      ]

  move_out :
      (rules : List RuleRecord)
      → Asked false (move store profile group app categories fresh rules false)
  unfolding move
  move_out rules = elim (Bool-cases (in_this store profile group app categories rules)) [
    | inl inside ↦
        rw (inside, add_rule_app rules fresh group app true valid trimmed)
          (
            refl,
            listed_out profile app group categories
                (with_rules store (with_rule rules fresh group "app_id" app true))
                (with_rule_lem rules fresh group "app_id" app true),
          )
    | inr outside ↦ rw outside (refl, outside)
  ]

-- The app moves as asked.
module _ ⦃w : Listing⦄ (store : Store) (fresh profile app : String) (categories : List String)
    (valid : is_some (parse app) ≡ true) (trimmed : trim app ≡ app) where
  moved :
      (row : GroupRow) (member : Bool)
      → IsTable store.rules
      → owns store profile row.id ≡ true
      → (member && barred store.rules row.id app categories) ≡ false
      → Asked store fresh profile app row.id categories valid trimmed member (
          move_app store profile row.id app categories fresh
            (map (shown store profile app) (sorted_rows store profile))
            (some (shown store profile app row))
            member)
  unfolding move_app
  moved row false t o b = move_out store fresh profile app row.id categories valid trimmed _
  moved row true t o b =
      let dropped = entry-drop_opposite store profile app row true t o in
      let start = drop_opposite store.rules (shown store profile app row) app true in
      let others =
        leave_others_lem store profile app row.id (sorted_rows store profile) start dropped.1
          (sorted_own profile app row.id categories store) in
      let rules =
        leave_others start (map (shown store profile app) (sorted_rows store profile)) row.id app in
      move_in store fresh profile app row.id categories valid trimmed rules o others.1
        (Within-any _ rules start others.0 dropped.0)
        (Within-any _ rules store.rules (λ p h. dropped.1 p (others.0 p h)) b)

found_group :
    ⦃w : Listing⦄ (store : Store) (profile app group : String)
    → owns store profile group ≡ true
    → (g : Group) × (find_group (map (shown store profile app) (sorted_rows store profile)) group
        ≡ some g)
unfolding listed
found_group store profile app group o =
    elim (Option-cases
      (find_group (map (shown store profile app) (sorted_rows store profile)) group)) [
        | inr found ↦ found
        | inl n ↦
            let there : any (λ (g : Group). g.id == group)
                  (map (shown store profile app) (sorted_rows store profile))
                ≡ true =
              any-map_rows (shown store profile app) group (sorted_rows store profile) (λ row. refl)
              ∙ any-sort_by _ _ (own_groups store profile)
              ∙ o in
            absurd (
              false_true (
                sym (ap is_some n)
                ∙ find-any _ (map (shown store profile app) (sorted_rows store profile))
                ∙ there))
      ]
  where
    false_true : false ≢ true
    false_true e = cc (e)

-- Moving a valid app id without white space at its ends into a group of the profile, or out of it,
-- succeeds, and afterwards the group is the app's exactly if that was asked, provided that no rule and
-- no id stands twice in the table and, for a move into the group, that the group excludes the app by no
-- category and no prefix.
pub set_membership-in_this :
    ⦃w : Listing⦄ (store : Store) (fresh profile group app : String) (categories : List String)
    (member : Bool)
    → IsTable store.rules
    → owns store profile group ≡ true
    → is_some (parse app) ≡ true
    → trim app ≡ app
    → (member && barred store.rules group app categories) ≡ false
    → let after = set_membership store fresh profile group app categories member in
      (after.1 ≡ done)
      × (is_this group (group_of (list_groups after.0 profile) app categories) ≡ member)
unfolding set_membership
set_membership-in_this store fresh profile group app categories member t o valid trimmed b =
    let (g, found) = found_group store profile app group o in
    let (row, shows, same) = find-listed _ (sorted_rows store profile) group g found in
    let m =
      moved store fresh profile app categories valid trimmed row member t
        (ap (owns store profile) same ∙ o)
        (ap (λ id. member && barred store.rules id app categories) same ∙ b) in
    let (answer, placed) =
      subst
        (λ id. Asked store fresh profile app id categories valid trimmed member (
          move_app store profile id app categories fresh
            (map (shown store profile app) (sorted_rows store profile))
            (some (shown store profile app row)) member))
        same m in
    rw (valid, list_groups_lem store profile, found, shows) (answer, placed)
