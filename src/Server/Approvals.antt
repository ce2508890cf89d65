-- ===== src/Server/Approvals.antt =====
-- crates/server/src/app_approvals.rs, lines 26-143 and 183-191, and crates/server/src/app_usage.rs,
-- lines 126-151 and 291-298: new apps, which are blocked until a parent decides. The times of requests
-- and decisions are left out. A call that fails keeps what it wrote.
pub mod Blocked
use screenguard.Prelude.Sort.{sort_by, leb_str}
use screenguard.Prelude.{
  eq_nat, eq_string, eq_pair, ℕ, zero, suc, Bool, true, false, not, ◌&&◌, ◌||◌, Option, none, some,
  List, [], ◌∷◌, map, String, ◌==◌, if◌then◌else◌, or_default, any, find, filter, is_some, ◌>>=◌,
}
use screenguard.Prelude.Dict.{Dict, get, insert, remove, get_or, contains_key}
use screenguard.Apps.Chars.{is_empty, all_chars, split_once}
use screenguard.Apps.Id.{AppId, parse, display}
use screenguard.Models.{AppApprovalConfig}
use screenguard.Text.{split, filter_map}
use screenguard.Text.Decimal.{join}
use screenguard.Agent.Requests.{AppRequest}
use screenguard.Server.Db.{AgentUser, get_agent_user, is_profile, belongs}
use screenguard.Server.AppUsage.{
  UsageKey, CatalogApp, Tables, app_of, clean, clean_icon, is_category_char, take,
}
use screenguard.Server.Groups.{GroupRow, is_builtin, Store, Listing}
use screenguard.Server.Groups.Board.{Reply, done, missing, refused, set_membership}

-- The tables; `approvals` gives the status of an app for a profile.
pub record Approvals : Type 0 where
  pub tables : Tables
  pub store : Store
  pub modes : Dict String Bool
  pub approvals : Dict (String × String) String

abbrev pub approval_mode : Approvals → String → Bool
approval_mode a profile = get_or false a.modes profile

-- The inserts of `set_mode`, which skip a known app.
abbrev pub approve_used :
    Dict (String × String) String → String → List String → Dict (String × String) String
approve_used rows profile [] = rows
approve_used rows profile (app ∷ apps) =
    let new = insert rows (profile, app) "approved" in
    approve_used (if contains_key rows (profile, app) then rows else new) profile apps

-- The apps of the rows of a profile's users; an app that comes again is known by then.
abbrev pub used_app : Approvals → String → UsageKey × ℕ → Option String
used_app a profile row =
    if belongs a.tables.db.agent_users profile row.0.0.0 then some row.0.1 else none

unfoldable pub set_mode : Approvals → String → Bool → Approvals
set_mode a profile on = record a {
  modes = insert (remove a.modes profile) profile on;
  approvals =
      let used = filter_map (used_app a profile) a.tables.app_usage in
      if on then approve_used a.approvals profile used else a.approvals;
}

abbrev pub split_categories : String → List String
split_categories s = filter (λ c. not (is_empty c)) (split b';' s)

abbrev pub stored_categories : Option CatalogApp → String
stored_categories none = String.[]
stored_categories (some c) = c.categories

unfoldable pub app_categories : Approvals → String → List String
app_categories a app = split_categories (stored_categories (get a.tables.app_catalog app))

-- The profile's Blocked group.
unfoldable pub blocked_group : Store → String → Option String
blocked_group store profile =
    find (λ (g : GroupRow). is_profile profile g.profile_id && is_builtin "blocked" g.builtin)
      store.groups
    >>= λ (g : GroupRow). some g.id

-- `Ok` or an error.
abbrev pub is_ok : Reply → Bool
is_ok refused = false
is_ok _ = true

abbrev pub with_status : Approvals → String → String → String → Approvals
with_status a profile app status = record a { approvals = insert a.approvals (profile, app) status }

unfoldable pub seen : Approvals → String → String → Approvals
seen a profile app =
    if contains_key a.approvals (profile, app) then with_status a profile app "approved" else a

module _ ⦃w : Listing⦄ (fresh : String) where
  abbrev pub set_blocked_in : Approvals → String → String → Bool → Option String → Approvals × Bool
  set_blocked_in a profile app blocked none = (a, true)
  set_blocked_in a profile app blocked (some group) =
      let after = set_membership a.store fresh profile group app (app_categories a app) blocked in
      (record a { store = after.0 }, is_ok after.1)

  unfoldable pub set_blocked : Approvals → String → String → Bool → Approvals × Bool
  set_blocked a profile app blocked =
      set_blocked_in a profile app blocked (blocked_group a.store profile)

  -- The answer is `none` for an error, or whether the app was new.
  unfoldable pub request : Approvals → String → String → Approvals × Option Bool
  request a profile app =
      let after = set_blocked (with_status a profile app "pending") profile app true in
      if contains_key a.approvals (profile, app)
      then (a, some false)
      else (after.0, if after.1 then some true else none)

  -- The database, and whether the decision succeeded.
  unfoldable pub decide : Approvals → String → String → Bool → Approvals × Bool
  decide a profile app approve =
      let after = set_blocked (with_status a profile app "approved") profile app (not approve) in
      if is_some (parse app) then after else (a, false)

  -- The row of the catalogue that a request leaves: the categories of a known app stay.
  abbrev pub requested_app : Option CatalogApp → AppId → AppRequest → CatalogApp
  requested_app old app req = record {
    display_name = or_default app.name (clean req.display_name 200);
    icon = clean_icon req.icon;
    categories = elim old [
      | none ↦ join ";" (take 20 (filter (all_chars is_category_char) req.categories))
      | some c ↦ c.categories
    ];
  }

  abbrev pub with_app : Approvals → AppId → AppRequest → Approvals
  with_app a app req = record a {
    tables = record a.tables {
      app_catalog =
          insert a.tables.app_catalog (display app)
            (requested_app (get a.tables.app_catalog (display app)) app req);
    };
  }

  abbrev pub requested_by : String → Approvals × Option Bool → Approvals × Option (Option String)
  requested_by profile (a, none) = (a, none)
  requested_by profile (a, some new) = (a, some (if new then some profile else none))

  -- The answer is `none` for an error, or the profile whose parents hear of a new app.
  abbrev pub app_request_for :
      Approvals → AppRequest → Option (AppId × String) → Approvals × Option (Option String)
  app_request_for a req none = (a, some none)
  app_request_for a req (some target) =
      requested_by target.1 (request (with_app a target.0 req) target.1 (display target.0))

  unfoldable pub app_request : Approvals → String → AppRequest → Approvals × Option (Option String)
  app_request a agent req = app_request_for a req (
      app_of req.app_id >>= λ app.
      get_agent_user a.tables.db agent req.local_uid >>= λ (u : AgentUser).
      u.profile_id >>= λ profile. some (app, profile))

pub record Approval : Type 0 where
  pub app_id : String
  pub name : String
  pub icon : Option String
  pub status : String

-- The name in the catalogue, or the part of the id after the kind.
abbrev pub shown_name : Option CatalogApp → String → String
shown_name none app = elim (split_once b':' app) [ none ↦ app | some parts ↦ parts.1 ]
shown_name (some c) app = c.display_name

abbrev pub shown_icon : Option CatalogApp → Option String
shown_icon none = none
shown_icon (some c) = c.icon

abbrev pub approval_of : Approvals → String → (String × String) × String → Option Approval
approval_of a profile row =
    let c = get a.tables.app_catalog row.0.1 in
    if row.0.0 == profile
    then some (record {
      app_id = row.0.1;
      name = shown_name c row.0.1;
      icon = shown_icon c;
      status = row.1;
    })
    else none

module _ ⦃w : Listing⦄ where
  -- Pending first, then by name.
  abbrev pub approval_before : Approval → Approval → Bool
  approval_before x y =
      let p = x.status == "pending" in
      let q = y.status == "pending" in
      let by_name = leb_str (w.to_lowercase x.name) (w.to_lowercase y.name) in
      if p then (if q then by_name else true) else if q then false else by_name

  unfoldable pub list : Approvals → String → List Approval
  list a profile = sort_by approval_before (filter_map (approval_of a profile) a.approvals)

  -- What the agent gets: every known app counts as approved.
  unfoldable pub config : Approvals → String → Option AppApprovalConfig
  config a profile =
      let all = list a profile in
      if approval_mode a profile
      then some (record {
        approved =
            map (λ (x : Approval). x.app_id)
              (filter (λ (x : Approval). not (x.status == "denied")) all);
        denied =
            map (λ (x : Approval). x.app_id) (filter (λ (x : Approval). x.status == "denied") all);
      })
      else none
