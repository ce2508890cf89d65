-- ===== src/Server/Groups/Leaving.antt =====
-- crates/server/src/app_groups.rs: what the deletions of `set_membership` leave of the rules that name
-- an app.
use screenguard.Prelude.{
  eq_string, ==_eq, ◌≡◌, refl, sym, ap, ◌∙◌, Bool, true, false, not, ◌&&◌, some, List, [], ◌∷◌, map,
  String, ◌==◌, if◌then◌else◌, any, find, filter, arith, All, Bool-cases, Option-cases, inl, inr,
  is_some, any_ext, find-any, any-filter,
}
use screenguard.Server.Groups.{
  Group, GroupRow, RuleRecord, RuleRow, Store, Listing, delete_rule, same_rule, listed, own_rules,
}
use screenguard.Server.Groups.Board.{is_entry, delete_all, drop_opposite, leave_others, find_group}
use screenguard.Server.Groups.Shown.{any-rules, owns, row_holds, entry, entry_row}
use screenguard.Server.Groups.Rules.{
  IsTable, entry-delete_rule, Within, Within-any, delete_rule-Within,
}

-- What was found by the id is the listing of a row with the id.
pub find-listed :
    (rules : List RuleRecord) (rows : List GroupRow) (id : String) (g : Group)
    → find_group (map (listed rules) rows) id ≡ some g
    → (row : GroupRow) × (g ≡ listed rules row) × (row.id ≡ id)
unfolding listed
find-listed rules [] id g h = cc
find-listed rules (row ∷ rows) id g h = elim (Bool-cases (row.id == id)) [
  | inl e ↦
      let found : some (listed rules row) ≡ some g = rw e at h in
      (row, cc (found), ground (arith, eq_string.same_iff row.id id))
  | inr n ↦ find-listed rules rows id g (rw n at h)
]

find_holds {ℓ} :
    {A : Type ℓ} (p : A → Bool) (xs : List A) (x : A)
    → find p xs ≡ some x
    → (q : A → Bool) → q x ≡ true
    → any (λ y. p y && q y) xs ≡ true
find_holds p [] x h q k = cc
find_holds p (y ∷ xs) x h q k = elim (Bool-cases (p y)) [
  | inl e ↦
      let found : some y ≡ some x = rw e at h in
      let same : y ≡ x = cc (found) in let holds : q y ≡ true = ap q same ∙ k in rw (e, holds) refl
  | inr n ↦ rw n (find_holds p xs x (rw n at h) q k)
]

entry_with_id :
    (group app id : String) (exclude : Bool) (r : RuleRecord)
    → (r.group_id == group
        && row_holds (λ (x : RuleRow). is_entry app exclude x.rule && x.id == id) r)
      ≡ (same_rule group "app_id" app exclude r && r.id == id)
entry_with_id group app id exclude r = ground arith

module _ ⦃w : Listing⦄ (store : Store) (profile app : String) where
  abbrev pub shown : GroupRow → Group
  shown row = listed (w.order_by (own_rules store profile)) row

  -- The opposite rule is gone after it is dropped, and nothing is added.
  pub entry-drop_opposite :
      (row : GroupRow) (member : Bool)
      → IsTable store.rules
      → owns store profile row.id ≡ true
      → (entry (drop_opposite store.rules (shown row) app member) row.id app member ≡ false)
        × Within (drop_opposite store.rules (shown row) app member) store.rules
  unfolding listed
  entry-drop_opposite row member t o =
      elim (Option-cases (find (λ (r : RuleRow). is_entry app member r.rule) (shown row).rules)) [
        | inl n ↦
            rw (drop_opposite, n)
              (
                sym (
                      any-rules store profile row (λ (r : RuleRow). is_entry app member r.rule) o
                      ∙ any_ext _ _ store.rules (entry_row row.id app member))
                    ∙ sym (find-any (λ (r : RuleRow). is_entry app member r.rule) (shown row).rules)
                    ∙ ap is_some n,
                λ p h. h,
              )
        | inr (r, e) ↦
            rw (drop_opposite, e)
              (
                entry-delete_rule store.rules row.id "app_id" app r.id member t (
                    sym (any_ext _ _ store.rules (entry_with_id row.id app r.id member))
                    ∙ sym (
                        any-rules store profile row
                          (λ (x : RuleRow). is_entry app member x.rule && x.id == r.id) o)
                    ∙ find_holds (λ (x : RuleRow). is_entry app member x.rule) (shown row).rules r e
                        (λ (x : RuleRow). x.id == r.id) (==_eq r.id r.id refl)),
                delete_rule-Within store.rules row.id r.id,
              )
      ]

abbrev gone : String → List RuleRow → RuleRecord → Bool
gone group rows r = r.group_id == group && any (λ (x : RuleRow). x.id == r.id) rows

any-delete_all :
    (p : RuleRecord → Bool) (rules : List RuleRecord) (group : String) (rows : List RuleRow)
    → any p (delete_all rules group rows) ≡ any (λ r. not (gone group rows r) && p r) rules
unfolding delete_rule
any-delete_all p rules group [] = any_ext p _ rules (λ r. ground arith)
any-delete_all p rules group (x ∷ rows) =
    any-delete_all p (delete_rule rules group x.id) group rows
    ∙ any-filter (λ r. not (gone group rows r) && p r)
        (λ (r : RuleRecord). not (r.id == x.id && r.group_id == group)) rules
    ∙ any_ext
        (λ (r : RuleRecord).
          not (r.id == x.id && r.group_id == group) && (not (gone group rows r) && p r))
        (λ r. not (gone group (x ∷ rows) r) && p r) rules
        (λ r. ground (arith, eq_string.same_iff r.id x.id, eq_string.same_iff x.id r.id))

any_weaker :
    (p q : RuleRecord → Bool) (rules : List RuleRecord)
    → any (λ r. q r && p r) rules ≡ true
    → any p rules ≡ true
any_weaker p q [] h = h
any_weaker p q (r ∷ rules) h = ground (arith, any_weaker p q rules)

delete_all-Within :
    (rules : List RuleRecord) (group : String) (rows : List RuleRow)
    → Within (delete_all rules group rows) rules
delete_all-Within rules group rows p h =
    any_weaker p (λ r. not (gone group rows r)) rules (sym (any-delete_all p rules group rows) ∙ h)

module _ ⦃w : Listing⦄ (store : Store) (profile app : String) (row : GroupRow)
    (o : owns store profile row.id ≡ true) where
  abbrev entries : List RuleRow
  entries = filter (λ (r : RuleRow). is_entry app false r.rule) (shown store profile app row).rules

  -- Among the entries that are shown is that of every row that names the app.
  any-entries :
      (id : String)
      → any (λ (x : RuleRow). x.id == id) entries
        ≡ any (λ r. same_rule row.id "app_id" app false r && r.id == id) store.rules
  any-entries id =
      any-filter (λ (x : RuleRow). x.id == id) (λ (r : RuleRow). is_entry app false r.rule)
        (shown store profile app row).rules
      ∙ any-rules store profile row (λ (x : RuleRow). is_entry app false x.rule && x.id == id) o
      ∙ any_ext _ _ store.rules (entry_with_id row.id app id false)

  none_kept :
      (rules : List RuleRecord)
      → Within rules store.rules
      → any (λ r. not (gone row.id entries r) && same_rule row.id "app_id" app false r) rules
        ≡ false
  none_kept [] within = refl
  none_kept (r ∷ rules) within =
      ground (arith, head, none_kept rules (λ p h. within p (ground (arith, h))))
    where
      head : (not (gone row.id entries r) && same_rule row.id "app_id" app false r) ≡ false
      head = elim (Bool-cases (same_rule row.id "app_id" app false r)) [
        | inl e ↦
            let shows : any (λ (x : RuleRow). x.id == r.id) entries ≡ true =
              any-entries r.id
              ∙ within (λ x. same_rule row.id "app_id" app false x && x.id == r.id)
                  (rw (e, ==_eq r.id r.id refl) refl) in
            rw (e, shows) (ground (arith, e))
        | inr n ↦ rw n (ground arith)
      ]

  entry-delete_all :
      (rules : List RuleRecord)
      → Within rules store.rules
      → entry (delete_all rules row.id entries) row.id app false ≡ false
  entry-delete_all rules within =
      any-delete_all (same_rule row.id "app_id" app false) rules row.id entries
      ∙ none_kept rules within

unless : (b e : Bool) → (b ≡ false → e ≡ false) → (not b && e) ≡ false
unless true e h = refl
unless false e h = h refl

module _ ⦃w : Listing⦄ (store : Store) (profile app group : String) where
  -- No other group of the list names the app.
  abbrev pub Left : List RuleRecord → List GroupRow → Type 0
  Left rules rows =
      All (λ (row : GroupRow). (not (row.id == group) && entry rules row.id app false) ≡ false) rows

  pub leave_others_lem :
      (rows : List GroupRow) (rules : List RuleRecord)
      → Within rules store.rules
      → All (λ (row : GroupRow). owns store profile row.id ≡ true) rows
      → Within (leave_others rules (map (shown store profile app) rows) group app) rules
        × Left (leave_others rules (map (shown store profile app) rows) group app) rows
  unfolding leave_others listed
  leave_others_lem [] rules within o = (λ p h. h, tt)
  leave_others_lem (row ∷ rows) rules within o =
      let cleared = delete_all rules row.id (entries store profile app row o.0) in
      let next = if row.id == group then rules else cleared in
      let fewer : Within next rules = elim (Bool-cases (row.id == group)) [
        | inl e ↦ rw e (λ p h. h)
        | inr n ↦ rw n (delete_all-Within rules row.id (entries store profile app row o.0))
      ] in
      let rest = leave_others_lem rows next (λ p h. within p (fewer p h)) o.1 in
      let head : (not (row.id == group)
            && entry (leave_others next (map (shown store profile app) rows) group app) row.id app
                false)
          ≡ false =
        unless (row.id == group) _ λ n.
          Within-any (same_rule row.id "app_id" app false) _ next rest.0
            (rw n (entry-delete_all store profile app row o.0 rules within)) in
      (λ p h. fewer p (rest.0 p h), (head, rest.1))
