-- ===== src/Server/Approvals/Blocked.antt =====
-- crates/server/src/app_approvals.rs: where a new app and a decided app stand, and what the agent is
-- told of them.
use screenguard.Prelude.Sort.{any-sort_by}
use screenguard.Prelude.{
  eq_string, eq_pair, ◌≡◌, refl, sym, ap, ◌∙◌, Bool, true, false, not, ◌&&◌, Option, none, some,
  List, [], ◌∷◌, map, String, ◌==◌, if◌then◌else◌, any, find, filter, is_some, contains, arith,
  Bool-cases, inl, inr, ◌>>=◌, any-filter, any_ext,
}
use screenguard.Prelude.Dict.{Dict, get, contains_key, get-insert_self, get-cons, get-nil, IsDict}
use screenguard.Apps.Id.{parse}
use screenguard.Models.{AppApprovalConfig}
use screenguard.Text.{trim, filter_map}
use screenguard.Server.Db.{is_profile}
use screenguard.Server.Groups.{is_builtin, GroupRow, Store, Listing, list_groups, group_of}
use screenguard.Server.Groups.Board.{is_this}
use screenguard.Server.Groups.Shown.{owns, barred}
use screenguard.Server.Groups.Rules.{IsTable}
use screenguard.Server.Groups.Moves.{set_membership-in_this}
use screenguard.Server.Approvals.{
  Approvals, Approval, approval_mode, app_categories, blocked_group, is_ok, with_status,
  set_blocked, request, decide, approval_of, approval_before, list, config,
}

owns_found :
    (rows : List GroupRow) (profile group : String)
    → (find
          (λ (g : GroupRow). is_profile profile g.profile_id && is_builtin "blocked" g.builtin)
          rows
        >>= λ (g : GroupRow). some g.id)
      ≡ some group
    → any
        (λ (g : GroupRow). g.id == group)
        (filter (λ (g : GroupRow). is_profile profile g.profile_id) rows)
      ≡ true
owns_found [] profile group h = cc
owns_found (g ∷ rows) profile group h =
    ground (arith, eq_string.same_iff g.id group, owns_found rows profile group)

blocked_group-owns :
    (store : Store) (profile group : String)
    → blocked_group store profile ≡ some group
    → owns store profile group ≡ true
unfolding blocked_group
blocked_group-owns store profile group h = owns_found store.groups profile group h

module _ ⦃w : Listing⦄ (fresh : String) (a : Approvals) (profile group app : String)
    (table : IsTable a.store.rules) (found : blocked_group a.store profile ≡ some group)
    (valid : is_some (parse app) ≡ true) (trimmed : trim app ≡ app) where
  -- The group of the app is the Blocked group, or it is not.
  abbrev IsBlocked : Approvals → Bool → Type 0
  IsBlocked after blocked =
      is_this group (group_of (list_groups after.store profile) app (app_categories a app))
      ≡ blocked

  set_blocked_lem :
      (blocked : Bool) (status : String)
      → (blocked && barred a.store.rules group app (app_categories a app)) ≡ false
      → let after = set_blocked fresh (with_status a profile app status) profile app blocked in
        (after.1 ≡ true)
        × IsBlocked after.0 blocked
        × (get after.0.approvals (profile, app) ≡ some status)
  unfolding set_blocked app_categories
  set_blocked_lem blocked status open_to =
      let (answer, placed) =
        set_membership-in_this a.store fresh profile group app (app_categories a app) blocked table
          (blocked_group-owns a.store profile group found) valid trimmed open_to in
      rw found (ap is_ok answer, placed, get-insert_self a.approvals (profile, app) status)

-- A new app that a child asks for is recorded as pending and then is in the profile's Blocked group, and
-- the call says that it was new; an app that is known is left alone. The app's id is valid and has no
-- white space at its ends, the Blocked group exists and excludes the app by no category and no prefix,
-- and no rule and no id stands twice among the rules.
pub request-is_this :
    ⦃w : Listing⦄ (fresh : String) (a : Approvals) (profile group app : String)
    → IsTable a.store.rules
    → blocked_group a.store profile ≡ some group
    → is_some (parse app) ≡ true
    → trim app ≡ app
    → barred a.store.rules group app (app_categories a app) ≡ false
    → let after = request fresh a profile app in
      if contains_key a.approvals (profile, app)
      then after ≡ (a, some false)
      else (after.1 ≡ some true)
        × (is_this group (group_of (list_groups after.0.store profile) app (app_categories a app))
            ≡ true)
        × (get after.0.approvals (profile, app) ≡ some "pending")
unfolding request
request-is_this fresh a profile group app table found valid trimmed b =
    elim (Bool-cases (contains_key a.approvals (profile, app))) [
      | inl known ↦ rw known refl
      | inr new ↦
          let s =
            set_blocked_lem fresh a profile group app table found valid trimmed true "pending" b in
          rw new (rw s.0 refl, s.1, s.2)
    ]

-- A decision on an app succeeds, marks it as known, and leaves it in the Blocked group exactly if it was
-- to stay blocked, under the same conditions.
pub decide-is_this :
    ⦃w : Listing⦄ (fresh : String) (a : Approvals) (profile group app : String) (approve : Bool)
    → IsTable a.store.rules
    → blocked_group a.store profile ≡ some group
    → is_some (parse app) ≡ true
    → trim app ≡ app
    → barred a.store.rules group app (app_categories a app) ≡ false
    → let after = decide fresh a profile app approve in
      (after.1 ≡ true)
      × (is_this group (group_of (list_groups after.0.store profile) app (app_categories a app))
          ≡ not approve)
      × (get after.0.approvals (profile, app) ≡ some "approved")
unfolding decide
decide-is_this fresh a profile group app approve table found valid trimmed b = rw valid (
    set_blocked_lem fresh a profile group app table found valid trimmed (not approve) "approved"
      (ground (arith, b)))

any-filter_map :
    (q : Approval → Bool) (a : Approvals) (profile : String) (rows : Dict (String × String) String)
    → any q (filter_map (approval_of a profile) rows)
      ≡ any (λ row. elim (approval_of a profile row) [ none ↦ false | some x ↦ q x ]) rows
any-filter_map q a profile [] = refl
any-filter_map q a profile (row ∷ rows) = ground (arith, any-filter_map q a profile rows)

contains-map :
    (xs : List Approval) (app : String)
    → contains (map (λ (x : Approval). x.app_id) xs) app
      ≡ any (λ (x : Approval). x.app_id == app) xs
contains-map [] app = refl
contains-map (x ∷ xs) app = ground (arith, contains-map xs app)

-- What a test says of the status of an app; an unknown app fails it.
abbrev pub status_is : (String → Bool) → Option String → Bool
status_is t none = false
status_is t (some s) = t s

absent_key :
    (p x profile app : String) (rows : Dict (String × String) String)
    → (p == profile && x == app) ≡ true
    → get rows (p, x) ≡ none
    → get rows (profile, app) ≡ none
absent_key p x profile app rows e h =
    sym (ap (get rows) ((eq_pair.same_iff (p, x) (profile, app)).0 e)) ∙ h

any-status_is :
    (t : String → Bool) (profile app : String) (rows : Dict (String × String) String)
    → IsDict rows
    → any
        (λ (row : (String × String) × String). row.0.0 == profile && (row.0.1 == app && t row.1))
        rows
      ≡ status_is t (get rows (profile, app))
any-status_is t profile app [] h = rw get-nil refl
any-status_is t profile app (((p, x), s) ∷ rows) h = elim (Bool-cases (p == profile && x == app)) [
  | inl e ↦
      rw (get-cons (p, x) s rows (profile, app), e)
        (ground
          (arith, e, any-status_is t profile app rows h.1, absent_key p x profile app rows e h.0))
  | inr n ↦
      rw (get-cons (p, x) s rows (profile, app), n)
        (ground (arith, n, any-status_is t profile app rows h.1))
]

module _ ⦃w : Listing⦄ (a : Approvals) (profile app : String) (dict : IsDict a.approvals)
    (t : String → Bool) where
  abbrev passes : Approval → Bool
  passes x = t x.status

  passed_row :
      (row : (String × String) × String)
      → elim (approval_of a profile row) [ none ↦ false | some x ↦ t x.status && x.app_id == app ]
        ≡ (row.0.0 == profile && (row.0.1 == app && t row.1))
  passed_row row = ground arith

  contains-list :
      contains (map (λ (x : Approval). x.app_id) (filter passes (list a profile))) app
      ≡ status_is t (get a.approvals (profile, app))
  unfolding list
  contains-list =
      contains-map (filter passes (list a profile)) app
      ∙ any-filter (λ (x : Approval). x.app_id == app) passes (list a profile)
      ∙ any-sort_by approval_before (λ (x : Approval). t x.status && x.app_id == app)
          (filter_map (approval_of a profile) a.approvals)
      ∙ any-filter_map (λ (x : Approval). t x.status && x.app_id == app) a profile a.approvals
      ∙ any_ext _ _ a.approvals passed_row
      ∙ any-status_is t profile app a.approvals dict

-- The lists of an answer tell an app's status; there are lists exactly while the mode is on.
abbrev pub Tells : Approvals → String → String → Option AppApprovalConfig → Type 0
Tells a profile app none = approval_mode a profile ≡ false
Tells a profile app (some c) =
    (approval_mode a profile ≡ true)
    × (contains c.approved app
        ≡ status_is (λ s. not (s == "denied")) (get a.approvals (profile, app)))
    × (contains c.denied app ≡ status_is (λ s. s == "denied") (get a.approvals (profile, app)))

-- With the mode off the agent gets no lists; with it on, the approved apps are the known ones that are
-- not denied, and the denied ones those with that status, in whatever order the apps are listed, if no
-- app has two rows for a profile.
pub config-Tells :
    ⦃w : Listing⦄ (a : Approvals) (profile app : String)
    → IsDict a.approvals
    → Tells a profile app (config a profile)
unfolding config
config-Tells a profile app dict = elim (Bool-cases (approval_mode a profile)) [
  | inl on ↦ rw on (
    on,
    contains-list a profile app dict (λ s. not (s == "denied")),
    contains-list a profile app dict (λ s. s == "denied"),
  )
  | inr off ↦ rw off off
]
