-- ===== src/Agent/View.antt =====
-- What the agent reads of a user's configuration, and what one user's inserts do to the tables.
use screenguard.Prelude.{
  eq_nat, eq_string, eq_pair, ==_ne, ℕ, ◌<◌, ◌≡◌, ◌≢◌, refl, true, false, Option, none, some, List,
  [], ◌∷◌, String, ◌==◌, map, arith, All,
}
use screenguard.Prelude.Dict.{get, insert}
use screenguard.Prelude.Int.{ℤ, pos, is_zero, two32}
use screenguard.Text.{split, trim, parse_u32, filter_map}
use screenguard.Text.Decimal.{filter_map-split-join}
use screenguard.Models.{UserConfig, AppGroupConfig, AppApprovalConfig}
use screenguard.Agent.Tables.{CachedSchedule, CachedLimit, CachedEnforcement, ManagedUser, Db}
use screenguard.Agent.Db.{
  get_cached_schedules, get_cached_daily_limits, get_cached_adjustment, get_cached_enforcement,
}
use screenguard.Agent.Config.{
  status_text, limit_row, insert_limits, insert_domains, sort_texts, without_user,
  get_cached_blocked_domains, get_cached_app_groups, get_cached_app_approval, schedule_row,
  insert_schedules, enforcement_row, adjusted, apply_user,
}
use screenguard.Agent.Rows.{add_distinct}

-- All that the agent reads of a user's configuration.
pub record View : Type 0 where
  pub managed : Option ManagedUser
  pub schedules : List CachedSchedule
  pub daily_limits : List CachedLimit
  pub adjustment : ℤ
  pub enforcement : CachedEnforcement
  pub app_groups : List AppGroupConfig
  pub app_approval : Option AppApprovalConfig
  pub blocked_domains : List String

abbrev pub view : String → Db → ℕ → View
view today db uid = record {
  managed = get db.managed_users uid;
  schedules = get_cached_schedules db uid;
  daily_limits = get_cached_daily_limits db uid;
  adjustment = get_cached_adjustment db uid today;
  enforcement = get_cached_enforcement db uid;
  app_groups = get_cached_app_groups db uid;
  app_approval = get_cached_app_approval db uid;
  blocked_domains = get_cached_blocked_domains db uid;
}

-- A user that the server does not push: nothing, and the default of `CachedEnforcement`.
abbrev pub blank : View
blank = record {
  managed = none;
  schedules = [];
  daily_limits = [];
  adjustment = pos 0;
  enforcement = record {
    lockout_grace_minutes = 5;
    warning_thresholds = 15 ∷ 5 ∷ 1 ∷ [];
    language = "en";
    preserve_tasks_on_lock = false;
  };
  app_groups = [];
  app_approval = none;
  blocked_domains = [];
}

pub zero_adjustment : (a : ℤ) → is_zero a ≡ true → a ≡ pos 0
zero_adjustment a h = ground arith

pub other_key :
    (u v : ℕ) (today : String) → u ≢ v → ◌==◌ {T = ℕ × String} (u, today) (v, today) ≡ false
other_key u v today n = ground (arith, ==_ne u v n)

module _ {T : Type 0} (format_hm : T → String) where
  -- What the server sent.
  abbrev pub pushed : UserConfig T → View
  pushed u = record {
    managed = some (record { profile_id = u.profile_id; status = status_text u.status });
    schedules = map (schedule_row format_hm) u.schedules;
    daily_limits = map limit_row u.daily_limits;
    adjustment = u.adjustments_today;
    enforcement = record {
      lockout_grace_minutes = u.lockout_grace_minutes;
      warning_thresholds = u.warning_thresholds_minutes;
      language = u.language;
      preserve_tasks_on_lock = u.preserve_tasks_on_lock;
    };
    app_groups = u.app_groups;
    app_approval = u.app_approval;
    blocked_domains = sort_texts (add_distinct [] u.blocked_domains);
  }

  -- The tables after one user's inserts.
  pub record Inserted (today : String) (db after : Db) (u : UserConfig T) : Type 0 where
    pub fresh : get db.managed_users u.local_uid ≡ none
    pub users :
        after.managed_users
        ≡ insert db.managed_users u.local_uid
            (record { profile_id = u.profile_id; status = status_text u.status })
    pub schedules :
        insert_schedules format_hm u.local_uid u.schedules db.cached_schedules
        ≡ some after.cached_schedules
    pub limits :
        insert_limits u.local_uid u.daily_limits db.cached_daily_limits
        ≡ some after.cached_daily_limits
    pub adjustments : after.cached_adjustments ≡ adjusted format_hm today u db.cached_adjustments
    pub enforcement :
        after.cached_enforcement
        ≡ insert db.cached_enforcement u.local_uid (enforcement_row format_hm u)
    pub groups :
        after.cached_app_groups
        ≡ insert db.cached_app_groups u.local_uid
            (record { groups = u.app_groups; approval = u.app_approval })
    pub domains :
        after.cached_blocked_domains
        ≡ insert_domains u.local_uid u.blocked_domains
            (without_user u.local_uid db.cached_blocked_domains)

  pub apply_user-Inserted :
      (today : String) (db after : Db) (u : UserConfig T)
      → apply_user format_hm today db u ≡ some after
      → Inserted today db after u
  unfolding apply_user
  apply_user-Inserted today db after u h = ground (arith, h)

  pub thresholds_read :
      (u : UserConfig T)
      → All (λ t. t < two32) u.warning_thresholds_minutes
      → (pushed u).enforcement ≡ record {
        lockout_grace_minutes = u.lockout_grace_minutes;
        warning_thresholds =
            filter_map
              (λ (s : String). parse_u32 (trim s))
              (split b',' (enforcement_row format_hm u).warning_thresholds);
        language = u.language;
        preserve_tasks_on_lock = u.preserve_tasks_on_lock;
      }
  thresholds_read u h = rw (filter_map-split-join u.warning_thresholds_minutes h) refl
