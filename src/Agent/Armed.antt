-- ===== src/Agent/Armed.antt =====
-- crates/agent/src/heartbeat.rs, lines 620-643, 728-883, 930-964, 1026-1086 and 1248-1254, and
-- crates/agent/src/enforcement.rs, lines 229-271: the users whose lock is armed (`locked_uids`), and
-- what is started for them. A started lock is `execute_lock`; its end is an event of its own.
use screenguard.Prelude.{
  eq_nat, eq_string, eq_pair, ℕ, Bool, not, ◌&&◌, List, [], ◌∷◌, ◌++◌, String, ◌==◌, if◌then◌else◌,
  or_default, contains, filter, map,
}
use screenguard.Prelude.Dict.{Dict, get, insert, remove}
use screenguard.Prelude.Int.{ℤ, leb_ℤ, as_i32, eq_int}
use screenguard.Times.{NaiveTime}
use screenguard.Models.{EnforceAction, allow, warn, lock, UserConfig}
use screenguard.Agent.Tables.{Db}
use screenguard.Agent.Db.{get_cached_enforcement, reset_usage_for_date}
use screenguard.Agent.AppUsage.{save_group_elsewhere}
use screenguard.Agent.Config.{get_managed_uids}
use screenguard.Agent.State.{upsert_server_remaining}
use screenguard.Agent.Offline.{offline_evaluate}
use screenguard.Server.Remaining.{RemainingEntry}

unfoldable pub enforce_str : EnforceAction → String
enforce_str allow = "allow"
enforce_str warn = "warn"
enforce_str lock = "lock"

-- What is spawned: the lock with its grace period, a silent lock, an unlock, a notification.
pub data Action : Type 0 where
  start_lock relock unlock : ℕ → Action
  warn_user : ℕ → ℤ → ℤ → Action

pub record Armed : Type 0 where
  pub db : Db
  pub locked_uids : List ℕ
  pub notified_thresholds : Dict ℕ (List ℤ)

abbrev pub set_insert : List ℕ → ℕ → List ℕ
set_insert uids uid = if contains uids uid then uids else uid ∷ uids

abbrev pub set_remove : List ℕ → ℕ → List ℕ
set_remove uids uid = filter (λ v. not (v == uid)) uids

-- A lock that is armed already is only repeated.
unfoldable pub arm : Armed → ℕ → Armed × List Action
arm s uid = (
  record s { locked_uids = set_insert s.locked_uids uid },
  (if contains s.locked_uids uid then relock uid else start_lock uid) ∷ [],
)

unfoldable pub disarm : Armed → ℕ → Armed × List Action
disarm s uid = (
  record s { locked_uids = set_remove s.locked_uids uid },
  if contains s.locked_uids uid then unlock uid ∷ [] else [],
)

abbrev pub insert_desc : ℤ → List ℤ → List ℤ
insert_desc t [] = t ∷ []
insert_desc t (u ∷ us) = if leb_ℤ u t then t ∷ u ∷ us else u ∷ insert_desc t us

abbrev pub sort_desc : List ℤ → List ℤ
sort_desc [] = []
sort_desc (t ∷ ts) = insert_desc t (sort_desc ts)

abbrev pub add_all : List ℤ → List ℤ → List ℤ
add_all notified [] = notified
add_all notified (t ∷ ts) = add_all (if contains notified t then notified else t ∷ notified) ts

-- The thresholds that are reached now, and those that stay noted.
unfoldable pub fire_threshold_notifications : Armed → ℕ → ℤ → Armed × List Action
fire_threshold_notifications s uid remaining =
    let notified = or_default [] (get s.notified_thresholds uid) in
    let thresholds = map as_i32 (get_cached_enforcement s.db uid).warning_thresholds in
    let to_notify =
      sort_desc (filter (λ t. leb_ℤ remaining t && not (contains notified t)) thresholds) in
    (
      record s {
        notified_thresholds =
            insert s.notified_thresholds uid
              (filter (λ t. leb_ℤ remaining t) (add_all notified to_notify));
      },
      map (λ t. warn_user uid t remaining) to_notify,
    )

abbrev pub and_then : (Armed × List Action) → (Armed → Armed × List Action) → Armed × List Action
and_then r f = let next = f r.0 in (next.0, r.1 ++ next.1)

abbrev pub forget_thresholds : ℕ → Armed → Armed × List Action
forget_thresholds uid s = (record s { notified_thresholds = remove s.notified_thresholds uid }, [])

-- The answer of the server for one user.
unfoldable pub obey : Armed → ℕ → EnforceAction → ℤ → Armed × List Action
obey s uid lock remaining = arm s uid
obey s uid warn remaining =
    and_then (disarm s uid) (λ after. fire_threshold_notifications after uid remaining)
obey s uid allow remaining = and_then (disarm s uid) (forget_thresholds uid)

-- The offline decision for one user: a warning is only written to the log.
unfoldable pub obey_offline : Armed → ℕ → EnforceAction → Armed × List Action
obey_offline s uid lock = arm s uid
obey_offline s uid warn = (s, [])
obey_offline s uid allow = disarm s uid

unfoldable pub lock_now : Armed → ℕ → Armed × List Action
lock_now s uid = arm s uid

-- The end of `execute_lock`, which may rearm.
unfoldable pub lock_ended : Armed → ℕ → Bool → Armed
lock_ended s uid rearm =
    if rearm then record s { locked_uids = set_remove s.locked_uids uid } else s

-- The part of a config push that rearms.
unfoldable pub evict : {T : Type 0} → Armed → List (UserConfig T) → Armed
evict s [] = s
evict s (u ∷ users) =
    evict
      (if u.preserve_tasks_on_lock
        then s
        else record s { locked_uids = set_remove s.locked_uids u.local_uid })
      users

module _ {T : Type 0} where
  -- A failure to store the group time is only written to the log.
  abbrev pub store_answer : String → Db → RemainingEntry T → Db
  store_answer today db entry =
      let stored =
        upsert_server_remaining db entry.local_uid entry.remaining_minutes
          (enforce_str entry.enforce) in
      or_default stored
        (save_group_elsewhere stored entry.local_uid today entry.group_usage_elsewhere)

  unfoldable pub store_answers : String → Db → List (RemainingEntry T) → Db
  store_answers today db [] = db
  store_answers today db (entry ∷ entries) =
      store_answers today (store_answer today db entry) entries

  unfoldable pub obey_all : Armed → List (RemainingEntry T) → Armed × List Action
  obey_all s [] = (s, [])
  obey_all s (entry ∷ entries) =
      and_then (obey s entry.local_uid entry.enforce entry.remaining_minutes)
        (λ after. obey_all after entries)

  unfoldable pub remaining_update : String → Armed → List (RemainingEntry T) → Armed × List Action
  remaining_update today s entries =
      obey_all (record s { db = store_answers today s.db entries }) entries

abbrev pub reset_all : Db → String → List ℕ → Db
reset_all db yesterday [] = db
reset_all db yesterday (uid ∷ uids) =
    reset_all (reset_usage_for_date db uid yesterday) yesterday uids

-- At midnight a lock that is armed is left alone.
abbrev pub arm_new : Armed → ℕ → EnforceAction → Armed × List Action
arm_new s uid lock = if contains s.locked_uids uid then (s, []) else arm s uid
arm_new s uid warn = (s, [])
arm_new s uid allow = (s, [])

module _ {T : Type 0} ⦃c : NaiveTime T⦄ where
  abbrev pub arm_closed : Armed → String → ℕ → T → List ℕ → Armed × List Action
  arm_closed s today weekday now [] = (s, [])
  arm_closed s today weekday now (uid ∷ uids) =
      and_then (arm_new s uid (offline_evaluate uid s.db today weekday now))
        (λ after. arm_closed after today weekday now uids)

  unfoldable pub handle_midnight : Armed → String → String → ℕ → T → Armed × List Action
  handle_midnight s yesterday today weekday now =
      let uids = get_managed_uids s.db in
      arm_closed (record s { db = reset_all s.db yesterday uids }) today weekday now uids
