-- ===== src/Server/Groups/Listed.antt =====
-- crates/server/src/app_groups.rs: which group has an app, told by the rows of the rules.
use screenguard.Prelude.Sort.{any-sort_by}
use screenguard.Prelude.{
  eq_string, ==_eq, ◌≡◌, refl, sym, ap, ◌∙◌, Bool, true, false, not, ◌&&◌, ◌||◌, some, List, [],
  ◌∷◌, map, String, ◌==◌, any, arith, All, All-zip, Bool-cases, inl, inr, any_ext, any_or,
}
use screenguard.Apps.Groups.{explicit, group_matches, names, excludes}
use screenguard.Server.Groups.{
  listed, Group, GroupRow, RuleRecord, Store, Listing, same_rule, list_groups, group_of, rules_of,
  own_groups,
}
use screenguard.Server.Groups.Board.{is_this}
use screenguard.Server.Groups.Shown.{
  any-listed, owns, entry, bars, barred, row_test, names_row, excludes_row,
}
use screenguard.Server.Groups.Order.{sorted_rows, list_groups_lem, group_of_in, group_of_out}
use screenguard.Server.Groups.Leaving.{shown, Left}

module _ ⦃w : Listing⦄ (profile app : String) (categories : List String) (store : Store)
    (row : GroupRow) (o : owns store profile row.id ≡ true) where
  names_lem :
      any (names app) (rules_of (shown store profile app row)) ≡ entry store.rules row.id app false
  names_lem =
      any-listed store profile row (names app) o ∙ any_ext _ _ store.rules (names_row row.id app)

  excludes_lem :
      any (excludes app categories) (rules_of (shown store profile app row))
      ≡ (entry store.rules row.id app true || barred store.rules row.id app categories)
  excludes_lem =
      any-listed store profile row (excludes app categories) o
      ∙ any_ext _ _ store.rules (excludes_row row.id app categories)
      ∙ any_or (same_rule row.id "app_id" app true)
          (λ (r : RuleRecord). r.group_id == row.id && row_test (bars app categories) r) store.rules

  -- A group names the app exactly if its rows do and none takes the app out.
  explicit_lem : explicit app categories (rules_of (shown store profile app row)) ≡ (
      entry store.rules row.id app false
      && not (entry store.rules row.id app true || barred store.rules row.id app categories))
  unfolding explicit
  explicit_lem = rw (names_lem, excludes_lem) refl

  matches_out :
      entry store.rules row.id app true ≡ true
      → (group_matches (rules_of (shown store profile app row)) app categories ≡ false)
        × (explicit app categories (rules_of (shown store profile app row)) ≡ false)
  unfolding group_matches explicit
  matches_out h = ground (arith, excludes_lem, h)

All-lift :
    (P : GroupRow → Type 0) (rows : List GroupRow)
    → All P rows
    → (Q : Group → Type 0) (f : GroupRow → Group) → ((row : GroupRow) → P row → Q (f row))
    → All Q (map f rows)
All-lift P [] h Q f k = tt
All-lift P (row ∷ rows) h Q f k = (k row h.0, All-lift P rows h.1 Q f k)

pub any-map_rows :
    (f : GroupRow → Group) (group : String) (rows : List GroupRow)
    → ((row : GroupRow) → (f row).id ≡ row.id)
    → any (λ (g : Group). g.id == group) (map f rows) ≡ any (λ (r : GroupRow). r.id == group) rows
any-map_rows f group [] h = refl
any-map_rows f group (row ∷ rows) h = ground (arith, h row, any-map_rows f group rows h)

own_rows :
    (rows all : List GroupRow)
    → ((p : GroupRow → Bool) → any p rows ≡ true → any p all ≡ true)
    → All (λ (r : GroupRow). any (λ (x : GroupRow). x.id == r.id) all ≡ true) rows
own_rows [] all h = tt
own_rows (r ∷ rows) all h = (
  h (λ x. x.id == r.id) (rw (==_eq r.id r.id refl) refl),
  own_rows rows all (λ p k. h p (ground (arith, k))),
)

module _ ⦃w : Listing⦄ (profile app group : String) (categories : List String) (store : Store) where
  pub sorted_own :
      All (λ (r : GroupRow). owns store profile r.id ≡ true) (sorted_rows store profile)
  sorted_own =
      own_rows (sorted_rows store profile) (own_groups store profile)
        (λ p h. sym (any-sort_by _ p (own_groups store profile)) ∙ h)

  named_row :
      (row : GroupRow)
      → owns store profile row.id ≡ true
      → (not (row.id == group) && entry store.rules row.id app false) ≡ false
      → entry store.rules group app false ≡ true
      → (entry store.rules group app true || barred store.rules group app categories) ≡ false
      → explicit app categories (rules_of (shown store profile app row)) ≡ (row.id == group)
  named_row row o left named free = elim (Bool-cases (row.id == group)) [
    | inl e ↦
        let same : row.id ≡ group = (eq_string.same_iff row.id group).0 e in
        explicit_lem profile app categories store row o
        ∙ ap
            (λ id.
              entry store.rules id app false
              && not (entry store.rules id app true || barred store.rules id app categories))
            same
        ∙ ground (arith, named, free, e)
    | inr n ↦ explicit_lem profile app categories store row o ∙ ground (arith, left, n)
  ]

  -- The group has the app if its rows name it and none takes it out, and no other group names it.
  pub listed_in :
      owns store profile group ≡ true
      → Left store profile app group store.rules (sorted_rows store profile)
      → entry store.rules group app false ≡ true
      → (entry store.rules group app true || barred store.rules group app categories) ≡ false
      → group_of (list_groups store profile) app categories ≡ some group
  unfolding listed
  listed_in o left named free = rw (list_groups_lem store profile) (
      group_of_in app categories group (map (shown store profile app) (sorted_rows store profile))
        (All-lift _ (sorted_rows store profile)
          (All-zip _ _
            (λ (row : GroupRow).
              explicit app categories (rules_of (shown store profile app row)) ≡ (row.id == group))
            (sorted_rows store profile) (λ row p q. named_row row p q named free) sorted_own left)
          _ (shown store profile app) (λ row h. h))
        (any-map_rows (shown store profile app) group (sorted_rows store profile) (λ row. refl)
          ∙ any-sort_by _ _ (own_groups store profile)
          ∙ o))

  refused_row :
      (row : GroupRow)
      → owns store profile row.id ≡ true
      → entry store.rules group app true ≡ true
      → ((row.id == group && group_matches (rules_of (shown store profile app row)) app categories)
          ≡ false)
        × ((row.id == group && explicit app categories (rules_of (shown store profile app row)))
            ≡ false)
  refused_row row o taken = elim (Bool-cases (row.id == group)) [
    | inl e ↦
        let same : row.id ≡ group = (eq_string.same_iff row.id group).0 e in
        let h =
          matches_out profile app categories store row o
            (ap (λ id. entry store.rules id app true) same ∙ taken) in
        (ground (arith, h.0), ground (arith, h.1))
    | inr n ↦ (rw n refl, rw n refl)
  ]

  -- The group does not have the app if a row takes it out.
  pub listed_out :
      entry store.rules group app true ≡ true
      → is_this group (group_of (list_groups store profile) app categories) ≡ false
  unfolding listed
  listed_out taken =
      let all =
        All-zip _ _
          (λ (row : GroupRow).
            ((row.id == group
                && group_matches (rules_of (shown store profile app row)) app categories)
              ≡ false)
            × ((row.id == group && explicit app categories (rules_of (shown store profile app row)))
                ≡ false))
          (sorted_rows store profile) (λ row p q. refused_row row p taken) sorted_own sorted_own in
      rw (list_groups_lem store profile) (
        group_of_out app categories group
          (map (shown store profile app) (sorted_rows store profile))
          (All-lift _ _ all _ (shown store profile app) (λ row h. h.0))
          (All-lift _ _ all _ (shown store profile app) (λ row h. h.1)))
