-- ===== src/Models.antt =====
-- crates/common/src/models.rs: what the server sends to the agent about a child.
use screenguard.Prelude.{ℕ, Bool, String, List, Option}
use screenguard.Prelude.Int.{ℤ}
use screenguard.Apps.Groups.{GroupRule}

pub record DailyLimit : Type 0 where
  pub day_of_week : ℕ
  pub allowed_minutes : ℕ

pub record AppApprovalConfig : Type 0 where
  pub approved : List String
  pub denied : List String

pub record AppGroupConfig : Type 0 where
  pub id : String
  pub name : String
  pub builtin : Option String
  pub rules : List GroupRule
  pub daily_limits : List DailyLimit
  pub adjustment_today : ℤ

pub data EnforceAction : Type 0 where
  allow warn lock : EnforceAction

pub record GroupUsage : Type 0 where
  pub group_id : String
  pub used_seconds : ℕ

-- The times of a schedule are `NaiveTime` of chrono, a parameter.
pub record Schedule (T : Type 0) : Type 0 where
  pub day_of_week : ℕ
  pub start_time : T
  pub end_time : T

pub data UserStatus : Type 0 where
  managed unmanaged : UserStatus

pub record UserConfig (T : Type 0) : Type 0 where
  pub local_uid : ℕ
  pub profile_id : String
  pub status : UserStatus
  pub schedules : List (Schedule T)
  pub daily_limits : List DailyLimit
  pub adjustments_today : ℤ
  pub adjustment_message : Option String
  pub lockout_grace_minutes : ℕ
  pub preserve_tasks_on_lock : Bool
  pub warning_thresholds_minutes : List ℕ
  pub language : String
  pub blocked_domains : List String
  pub app_groups : List AppGroupConfig
  pub app_approval : Option AppApprovalConfig
