-- ===== src/Server/Groups/Order.antt =====
-- crates/server/src/app_groups.rs: the order of a listing does not depend on the rules, and the group
-- of an app in a listing.
use screenguard.Prelude.Sort.{sort_by, sort_by-map}
use screenguard.Prelude.{
  eq_string, ◌≡◌, refl, ◌∙◌, Bool, true, false, ◌&&◌, Option, none, some, List, [], ◌∷◌, map,
  String, ◌==◌, any, find, arith, All, ◌>>=◌,
}
use screenguard.Apps.Groups.{GroupRule, explicit, group_matches, assign_group}
use screenguard.Server.Groups.{
  Group, GroupRow, Store, Listing, before, listed, list_groups, own_groups, own_rules, group_of,
  rules_of,
}
use screenguard.Server.Groups.Board.{is_this}

module _ ⦃w : Listing⦄ (store : Store) (profile : String) where
  -- The profile's groups in display order.
  abbrev pub sorted_rows : List GroupRow
  sorted_rows =
      sort_by (λ (a b : GroupRow). before (a.builtin, a.name) (b.builtin, b.name))
        (own_groups store profile)

  pub list_groups_lem :
      list_groups store profile ≡ map (listed (w.order_by (own_rules store profile))) sorted_rows
  unfolding list_groups listed
  list_groups_lem =
      sort_by-map (listed (w.order_by (own_rules store profile)))
        (λ (a b : GroupRow). before (a.builtin, a.name) (b.builtin, b.name))
        (λ (a b : Group). before (a.builtin, a.name) (b.builtin, b.name)) (λ a b. refl)
        (own_groups store profile)

module _ (app : String) (categories : List String) (group : String) where
  abbrev pair : Group → String × List GroupRule
  pair g = (g.id, rules_of g)

  abbrev chosen : Option (String × List GroupRule) → Option String
  chosen none = none
  chosen (some g) = some g.0

  find_in :
      (groups : List Group)
      → All (λ (g : Group). explicit app categories (rules_of g) ≡ (g.id == group)) groups
      → any (λ (g : Group). g.id == group) groups ≡ true
      → chosen (find (λ g. explicit app categories g.1) (map pair groups)) ≡ some group
  find_in [] h a = cc
  find_in (g ∷ groups) h a = ground (arith, h.0, eq_string.same_iff g.id group, find_in groups h.1)

  find_out :
      (test : List GroupRule → Bool) (groups : List Group)
      → All (λ (g : Group). (g.id == group && test (rules_of g)) ≡ false) groups
      → is_this group (chosen (find (λ g. test g.1) (map pair groups))) ≡ false
  find_out test [] h = refl
  find_out test (g ∷ groups) h = ground (arith, h.0, find_out test groups h.1)

  group_of_found :
      (groups : List Group) (o : Option String)
      → is_this group o ≡ false
      → is_this group
          (o >>= λ id. find (λ (g : Group). g.id == id) groups >>= λ (g : Group). some g.id)
        ≡ false
  group_of_found groups none h = refl
  group_of_found groups (some id) h = go groups
    where
      go :
          (gs : List Group)
          → is_this group (find (λ (g : Group). g.id == id) gs >>= λ (g : Group). some g.id) ≡ false
      go [] = refl
      go (g ∷ gs) = ground (arith, go gs, eq_string.same_iff g.id id)

  own_id :
      (groups : List Group)
      → any (λ (g : Group). g.id == group) groups ≡ true
      → (find (λ (g : Group). g.id == group) groups >>= λ (g : Group). some g.id) ≡ some group
  own_id [] h = cc
  own_id (g ∷ groups) h = ground (arith, own_id groups, eq_string.same_iff g.id group)

  assign_lem :
      (groups : List (String × List GroupRule))
      → assign_group groups app categories
        ≡ chosen (elim (find (λ g. explicit app categories g.1) groups) [
          | none ↦ find (λ g. group_matches g.1 app categories) groups
          | some g ↦ some g
        ])
  unfolding assign_group
  assign_lem groups = ground arith

  -- The only group that names the app has it.
  pub group_of_in :
      (groups : List Group)
      → All (λ (g : Group). explicit app categories (rules_of g) ≡ (g.id == group)) groups
      → any (λ (g : Group). g.id == group) groups ≡ true
      → group_of groups app categories ≡ some group
  unfolding group_of
  group_of_in groups h a =
      let f = find_in groups h a in
      let assigned : assign_group (map pair groups) app categories ≡ some group =
        assign_lem (map pair groups) ∙ ground (arith, f) in
      rw assigned (own_id groups a)

  -- A group whose rules refuse the app does not have it.
  pub group_of_out :
      (groups : List Group)
      → All
          (λ (g : Group). (g.id == group && group_matches (rules_of g) app categories) ≡ false)
          groups
      → All (λ (g : Group). (g.id == group && explicit app categories (rules_of g)) ≡ false) groups
      → is_this group (group_of groups app categories) ≡ false
  unfolding group_of
  group_of_out groups h e = group_of_found groups (assign_group (map pair groups) app categories) (
      rw assign_lem (
        ground (
          arith,
          find_out (λ rules. group_matches rules app categories) groups h,
          find_out (explicit app categories) groups e,
        )))
