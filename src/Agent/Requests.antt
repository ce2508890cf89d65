-- ===== src/Agent/Requests.antt =====
-- crates/agent/src/heartbeat.rs, lines 292-314, 408-436 and 559-599: the requests for new apps that
-- a parent has not decided. A request that is handed to the connection may fail, as `sends` says.
use screenguard.Prelude.{
  eq_nat, eq_string, eq_pair, ℕ, Bool, true, false, not, ◌&&◌, ◌||◌, Option, none, some, List, [],
  ◌∷◌, ◌++◌, String, ◌==◌, if◌then◌else◌, contains, filter, length, ltb, map,
}
use screenguard.Prelude.Dict.{Dict, get, insert, retain}
use screenguard.Models.{UserConfig, AppApprovalConfig}
use screenguard.Apps.Id.{AppId, eq_app_id}
use screenguard.Closing.Targets.{Target, Shown, Reason, limit, block, needs_approval, denied}

pub record AppRequest : Type 0 where
  pub local_uid : ℕ
  pub app_id : String
  pub display_name : String
  pub icon : Option String
  pub categories : List String

abbrev pub max_outstanding_requests : ℕ
max_outstanding_requests = 50

abbrev pub RequestKey : Type 0
RequestKey = ℕ × String

pub record Requests : Type 0 where
  pub requested : List RequestKey
  pub outstanding : Dict RequestKey AppRequest

abbrev pub waits_for_parent : Reason → Bool
waits_for_parent needs_approval = true
waits_for_parent limit = false
waits_for_parent block = false
waits_for_parent denied = false

abbrev pub icon_in : Option Shown → Option String
icon_in none = none
icon_in (some s) = s.icon

abbrev pub categories_in : Option Shown → List String
categories_in none = []
categories_in (some s) = s.categories

abbrev pub key_of : Target → RequestKey
key_of t = (t.uid, t.key)

abbrev pub without_key : List RequestKey → RequestKey → List RequestKey
without_key keys key = filter (λ k. not (k == key)) keys

module _ (sends : AppRequest → Bool) where
  module _ (names : Dict (ℕ × AppId) Shown) (is_online : Bool) where
    abbrev pub request_for : Target → AppRequest
    request_for t =
        let shown = get names (t.uid, t.app_id) in
        record {
          local_uid = t.uid;
          app_id = t.key;
          display_name = t.app_name;
          icon = icon_in shown;
          categories = categories_in shown;
        }

    -- A new request is kept if there is room, and sent if there is a connection.
    abbrev pub ask : Requests → Target → Requests × List AppRequest
    ask r t =
        let req = request_for t in
        (
          record {
            requested =
                if is_online && not (sends req)
                then without_key r.requested (key_of t)
                else key_of t ∷ r.requested;
            outstanding =
                if ltb (length r.outstanding) max_outstanding_requests
                then insert r.outstanding (key_of t) req
                else r.outstanding;
          },
          if is_online then req ∷ [] else [],
        )

    -- The loop over the apps that are to be closed.
    unfoldable pub ask_parents : Requests → List Target → Requests × List AppRequest
    ask_parents r [] = (r, [])
    ask_parents r (t ∷ targets) =
        let first =
          if waits_for_parent t.reason && not (contains r.requested (key_of t))
          then ask r t
          else (r, []) in
        let rest = ask_parents first.0 targets in (rest.0, first.1 ++ rest.1)

-- A new connection: only the requests that are sent again count as requested on it.
unfoldable pub resend : Requests → Requests × List AppRequest
resend r = (
  record r { requested = map (λ (k : RequestKey × AppRequest). k.0) r.outstanding },
  map (λ (k : RequestKey × AppRequest). k.1) r.outstanding,
)

abbrev pub is_decided : AppApprovalConfig → String → Bool
is_decided a app = contains a.approved app || contains a.denied app

-- What a user's configuration decides; without the mode, everything.
abbrev pub decides : ℕ → Option AppApprovalConfig → RequestKey → Bool
decides uid none key = key.0 == uid
decides uid (some a) key = key.0 == uid && is_decided a key.1

module _ {T : Type 0} where
  -- The requests that a config push leaves.
  unfoldable pub drop_decided :
      Dict RequestKey AppRequest → List (UserConfig T) → Dict RequestKey AppRequest
  drop_decided rows [] = rows
  drop_decided rows (u ∷ users) =
      drop_decided (retain (λ key req. not (decides u.local_uid u.app_approval key)) rows) users

-- The decisions that are new in a user's configuration: approved, then denied.
abbrev pub new_decisions : AppApprovalConfig → AppApprovalConfig → List (String × Bool)
new_decisions old new =
    map (λ app. (app, true)) (filter (λ app. not (contains old.approved app)) new.approved)
    ++ map (λ app. (app, false)) (filter (λ app. not (contains old.denied app)) new.denied)

-- The child is told of an app that was asked for on this connection, once.
abbrev pub tell_apps :
    ℕ → List RequestKey → List (String × Bool) → List RequestKey × List (RequestKey × Bool)
tell_apps uid requested [] = (requested, [])
tell_apps uid requested ((app, ok) ∷ decided) =
    let key : RequestKey = (uid, app) in
    let rest = tell_apps uid (without_key requested key) decided in
    (rest.0, if contains requested key then (key, ok) ∷ rest.1 else rest.1)

abbrev pub tell_user :
    ℕ
    → List RequestKey
    → Option AppApprovalConfig
    → Option AppApprovalConfig
    → List RequestKey × List (RequestKey × Bool)
tell_user uid requested none new = (requested, [])
tell_user uid requested (some old) none = (requested, [])
tell_user uid requested (some old) (some new) = tell_apps uid requested (new_decisions old new)

module _ {T : Type 0} (old : ℕ → Option AppApprovalConfig) where
  -- What a config push leaves of the requests of this connection, and what the children are told;
  -- `old` is the configuration before it.
  unfoldable pub tell_decided :
      List RequestKey → List (UserConfig T) → List RequestKey × List (RequestKey × Bool)
  tell_decided requested [] = (requested, [])
  tell_decided requested (u ∷ users) =
      let first = tell_user u.local_uid requested (old u.local_uid) u.app_approval in
      let rest = tell_decided first.0 users in (rest.0, first.1 ++ rest.1)
