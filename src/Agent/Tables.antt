-- ===== src/Agent/Tables.antt =====
-- The tables of the agent's database (crates/agent/src/db.rs). A table with a key is a map, one
-- without is a list of rows; of the time stamps, only the one that is read is kept. A value that is
-- stored as JSON is read back as it was written.
use screenguard.Prelude.{ℕ, Bool, Option, List, String}
use screenguard.Prelude.Dict.{Dict}
use screenguard.Prelude.Int.{ℤ}
use screenguard.Models.{AppGroupConfig, AppApprovalConfig}

pub record CachedSchedule : Type 0 where
  pub day_of_week : ℕ
  pub start_time : String
  pub end_time : String

pub record CachedLimit : Type 0 where
  pub day_of_week : ℕ
  pub allowed_minutes : ℕ

pub record CachedEnforcement : Type 0 where
  pub lockout_grace_minutes : ℕ
  pub warning_thresholds : List ℕ
  pub language : String
  pub preserve_tasks_on_lock : Bool

-- A row of `cached_enforcement`, with the thresholds as text.
pub record EnforcementRow : Type 0 where
  pub lockout_grace_minutes : ℕ
  pub warning_thresholds : String
  pub language : String
  pub preserve_tasks_on_lock : Bool

-- A row of `usage_log`.
pub record UsageRow : Type 0 where
  pub used_seconds : ℕ
  pub synced : Bool

pub record ServerConnection : Type 0 where
  pub server_url : String
  pub auth_token : String
  pub agent_id : String
  pub cloud_account : Option String

-- The row of `config_meta`.
pub record ConfigMeta : Type 0 where
  pub config_version : ℤ
  pub config_format : ℤ

-- A row of `managed_users`.
pub record ManagedUser : Type 0 where
  pub profile_id : String
  pub status : String

-- The columns of `app_usage_log` besides its key.
pub record AppUsage : Type 0 where
  pub display_name : String
  pub icon : Option String
  pub categories : String
  pub seconds : ℕ
  pub synced : Bool

-- The columns of `group_usage_log` besides its key.
pub record GroupSeconds : Type 0 where
  pub seconds : ℕ
  pub synced : Bool

-- The columns of `cached_group_elsewhere` besides its key.
pub record Elsewhere : Type 0 where
  pub date : String
  pub seconds : ℕ

-- The columns of `server_remaining` besides its key.
pub record ServerRemaining : Type 0 where
  pub remaining_minutes : ℤ
  pub enforce : String

-- The row of `agent_state`.
pub record AgentState : Type 0 where
  pub mode : String
  pub offline_since : Option ℤ

-- The columns of `cached_app_groups` besides its key.
pub record CachedGroups : Type 0 where
  pub groups : List AppGroupConfig
  pub approval : Option AppApprovalConfig

-- The user, the day, and the app or the group.
abbrev pub DayKey : Type 0
DayKey = (ℕ × String) × String

pub record Db : Type 0 where
  pub server_connection : Option ServerConnection
  pub config_meta : Option ConfigMeta
  pub managed_users : Dict ℕ ManagedUser
  pub cached_schedules : List (ℕ × CachedSchedule)
  pub cached_daily_limits : List (ℕ × CachedLimit)
  pub cached_adjustments : Dict (ℕ × String) ℤ
  pub cached_enforcement : Dict ℕ EnforcementRow
  pub usage_log : Dict (ℕ × String) UsageRow
  pub app_usage_log : Dict DayKey AppUsage
  pub group_usage_log : Dict DayKey GroupSeconds
  pub cached_app_groups : Dict ℕ CachedGroups
  pub cached_group_elsewhere : Dict (ℕ × String) Elsewhere
  pub server_remaining : Dict ℕ ServerRemaining
  pub active_sessions : Dict (ℕ × String) Bool
  pub agent_state : AgentState
  pub agent_capabilities : Dict String Bool
  pub cached_blocked_domains : List (ℕ × String)
