-- ===== src/Agent/Config.antt =====
-- crates/agent/src/db.rs, lines 332-484 and 959-1000: the configuration that the server pushes. An
-- insert that breaks a constraint of its table fails, and the transaction with it (`none`). Foreign
-- keys are on, so that a row of a table that refers to `managed_users` goes with its user's row.
use Prim.Native.String.{compare as compare_str}
use Prim.Native.Nat.{Ordering}
use screenguard.Prelude.{
  eq_nat, eq_string, eq_pair, ℕ, Bool, not, ◌&&◌, Option, none, some, List, [], ◌∷◌, ◌++◌, String,
  ◌==◌, any, map, contains, leb, if◌then◌else◌, or_default, ◌>>=◌,
}
use screenguard.Prelude.Dict.{Dict, get, insert, contains_key}
use screenguard.Prelude.Int.{ℤ, pos, is_zero, leb_ℤ}
use screenguard.Text.Decimal.{to_string, join}
use screenguard.Models.{
  DailyLimit, Schedule, UserStatus, managed, unmanaged, UserConfig, AppGroupConfig,
  AppApprovalConfig,
}
use screenguard.Agent.Tables.{
  CachedSchedule, CachedLimit, EnforcementRow, CachedGroups, ConfigMeta, ManagedUser, Db,
}
use screenguard.Agent.Db.{rows_of}

abbrev pub insert_new : {V : Type 0} → Dict ℕ V → ℕ → V → Option (Dict ℕ V)
insert_new m k v = if contains_key m k then none else some (insert m k v)

unfoldable pub status_text : UserStatus → String
status_text managed = "managed"
status_text unmanaged = "unmanaged"

-- CHECK (day_of_week BETWEEN 0 AND 6)
abbrev pub is_day : ℕ → Bool
is_day d = leb d 6

abbrev pub limit_row : DailyLimit → CachedLimit
limit_row l = record { day_of_week = l.day_of_week; allowed_minutes = l.allowed_minutes }

-- The key of a daily limit is its user and day.
abbrev pub has_day : List CachedLimit → ℕ → Bool
has_day rows d = any (λ (l : CachedLimit). l.day_of_week == d) rows

unfoldable pub insert_limits :
    ℕ → List DailyLimit → List (ℕ × CachedLimit) → Option (List (ℕ × CachedLimit))
insert_limits uid [] rows = some rows
insert_limits uid (l ∷ limits) rows =
    if is_day l.day_of_week && not (has_day (rows_of uid rows) l.day_of_week)
    then insert_limits uid limits (rows ++ ((uid, limit_row l) ∷ []))
    else none

-- INSERT OR IGNORE
unfoldable pub insert_domains : ℕ → List String → List (ℕ × String) → List (ℕ × String)
insert_domains uid [] rows = rows
insert_domains uid (d ∷ domains) rows =
    insert_domains uid domains
      (if contains (rows_of uid rows) d then rows else rows ++ ((uid, d) ∷ []))

-- ORDER BY of texts
abbrev pub insert_sorted : String → List String → List String
insert_sorted s [] = s ∷ []
insert_sorted s (t ∷ ts) = elim (compare_str s t) [
  | Ordering.gt ↦ t ∷ insert_sorted s ts
  | _ ↦ s ∷ t ∷ ts
]

abbrev pub sort_texts : List String → List String
sort_texts [] = []
sort_texts (s ∷ ss) = insert_sorted s (sort_texts ss)

unfoldable pub without_user {ℓ} : {A : Type ℓ} → ℕ → List (ℕ × A) → List (ℕ × A)
without_user uid [] = []
without_user uid ((u, a) ∷ rows) =
    let rest = without_user uid rows in if u == uid then rest else (u, a) ∷ rest

unfoldable pub save_cached_blocked_domains : Db → ℕ → List String → Db
save_cached_blocked_domains db uid domains = record db {
  cached_blocked_domains = insert_domains uid domains (without_user uid db.cached_blocked_domains);
}

unfoldable pub get_cached_blocked_domains : Db → ℕ → List String
get_cached_blocked_domains db uid = sort_texts (rows_of uid db.cached_blocked_domains)

abbrev pub groups_in : Option CachedGroups → List AppGroupConfig
groups_in none = []
groups_in (some row) = row.groups

abbrev pub approval_in : Option CachedGroups → Option AppApprovalConfig
approval_in none = none
approval_in (some row) = row.approval

unfoldable pub get_cached_app_groups : Db → ℕ → List AppGroupConfig
get_cached_app_groups db uid = groups_in (get db.cached_app_groups uid)

unfoldable pub get_cached_app_approval : Db → ℕ → Option AppApprovalConfig
get_cached_app_approval db uid = approval_in (get db.cached_app_groups uid)

abbrev pub managed_keys : Dict ℕ ManagedUser → List ℕ
managed_keys [] = []
managed_keys ((uid, row) ∷ rows) =
    let rest = managed_keys rows in if row.status == "managed" then uid ∷ rest else rest

unfoldable pub get_managed_uids : Db → List ℕ
get_managed_uids db = managed_keys db.managed_users

abbrev pub config_format : ℤ
config_format = pos 3

abbrev pub reported : ConfigMeta → ℤ
reported m = if leb_ℤ config_format m.config_format then m.config_version else pos 0

-- An older format is reported as version 0, so that the server sends the configuration again.
unfoldable pub get_config_version : Db → ℤ
get_config_version db =
    reported (or_default (record { config_version = pos 0; config_format = pos 0 }) db.config_meta)

unfoldable pub save_config_version : Db → ℤ → Db
save_config_version db version = record db {
  config_meta = some (record { config_version = version; config_format = config_format });
}

module _ {T : Type 0} (format_hm : T → String) where
  abbrev pub schedule_row : Schedule T → CachedSchedule
  schedule_row s = record {
    day_of_week = s.day_of_week;
    start_time = format_hm s.start_time;
    end_time = format_hm s.end_time;
  }

  unfoldable pub insert_schedules :
      ℕ → List (Schedule T) → List (ℕ × CachedSchedule) → Option (List (ℕ × CachedSchedule))
  insert_schedules uid [] rows = some rows
  insert_schedules uid (s ∷ schedules) rows =
      if is_day s.day_of_week
      then insert_schedules uid schedules (rows ++ ((uid, schedule_row s) ∷ []))
      else none

  abbrev pub enforcement_row : UserConfig T → EnforcementRow
  enforcement_row u = record {
    lockout_grace_minutes = u.lockout_grace_minutes;
    warning_thresholds = join "," (map to_string u.warning_thresholds_minutes);
    language = u.language;
    preserve_tasks_on_lock = u.preserve_tasks_on_lock;
  }

  abbrev pub adjusted : String → UserConfig T → Dict (ℕ × String) ℤ → Dict (ℕ × String) ℤ
  adjusted today u rows =
      if is_zero u.adjustments_today
      then rows
      else insert rows (u.local_uid, today) u.adjustments_today

  unfoldable pub apply_user : String → Db → UserConfig T → Option Db
  apply_user today db u =
      insert_new db.managed_users u.local_uid
        (record { profile_id = u.profile_id; status = status_text u.status })
      >>= λ users. insert_schedules u.local_uid u.schedules db.cached_schedules >>= λ schedules.
          insert_limits u.local_uid u.daily_limits db.cached_daily_limits >>= λ limits.
          some (record db {
            managed_users = users;
            cached_schedules = schedules;
            cached_daily_limits = limits;
            cached_adjustments = adjusted today u db.cached_adjustments;
            cached_enforcement = insert db.cached_enforcement u.local_uid (enforcement_row u);
            cached_app_groups =
                insert db.cached_app_groups u.local_uid
                  (record { groups = u.app_groups; approval = u.app_approval });
            cached_blocked_domains =
                insert_domains u.local_uid u.blocked_domains
                  (without_user u.local_uid db.cached_blocked_domains);
          })

  unfoldable pub apply_users : String → Db → List (UserConfig T) → Option Db
  apply_users today db [] = some db
  apply_users today db (u ∷ users) =
      apply_user today db u >>= λ after. apply_users today after users

  -- The two DELETEs, with the rows that they take along.
  unfoldable pub cleared : Db → Db
  cleared db = record db {
    managed_users = [];
    cached_schedules = [];
    cached_daily_limits = [];
    cached_adjustments = [];
    cached_enforcement = [];
    cached_app_groups = [];
    cached_blocked_domains = [];
  }

  unfoldable pub apply_config_push : String → Db → List (UserConfig T) → Option Db
  apply_config_push today db users = apply_users today (cleared db) users
