-- ===== src/Server/Push.antt =====
-- crates/server/src/remaining.rs, lines 146-230, with the queries of crates/server/src/db.rs that it
-- makes: the configuration that an agent is sent. The text of the server's local date is an argument, and
-- so are midnight and 23:59.
pub mod Tables
pub mod Sent
pub mod Offline
pub mod Users
pub mod Agreed
use screenguard.Prelude.Sort.{sort_by, leb_str}
use screenguard.Prelude.{
  eq_nat, eq_string, Bool, true, false, not, ◌&&◌, Option, none, some, List, [], ◌∷◌, map, String,
  ◌==◌, if◌then◌else◌, or_default, filter, leb, ◌>>=◌, ℕ,
}
use screenguard.Prelude.Dict.{Dict, get, get_or}
use screenguard.Prelude.Int.{ℤ, pos, leb_ℤ}
use screenguard.Times.{NaiveTime}
use screenguard.Models as Models
use screenguard.Models.{UserConfig, AppGroupConfig, managed}
use screenguard.Text.{filter_map}
use screenguard.Server.Db.{
  AgentUser, Adjustment, DailyLimit, Schedule, Db, get_schedules, get_daily_limits,
  sum_adjustments_for_date, get_enforcement_settings,
}
use screenguard.Server.Windows.{Zones, parse_time}
use screenguard.Server.Remaining.{as_u32}
use screenguard.Server.Groups.{Group, Listing, list_groups, rules_of}
use screenguard.Server.Groups.Limits.{GroupLimit, GroupAdjustment, limits, adjustments}
use screenguard.Server.Approvals.{Approvals, config}

-- A row of `blocked_domains`.
pub record BlockedDomain : Type 0 where
  pub profile_id : String
  pub domain : String
  pub enabled : Bool

-- The tables; `languages` is a column of `user_profiles`.
pub record Household : Type 0 where
  pub approvals : Approvals
  pub languages : Dict String String
  pub blocked_domains : List BlockedDomain
  pub group_limits : List GroupLimit
  pub group_adjustments : List GroupAdjustment

abbrev pub db_of : Household → Db
db_of h = h.approvals.tables.db

unfoldable pub list_agent_users : Db → String → List AgentUser
list_agent_users db agent =
    sort_by (λ (a b : AgentUser). leb a.local_uid b.local_uid)
      (filter (λ (u : AgentUser). u.agent_id == agent && not (u.status == "deleted"))
        db.agent_users)

abbrev pub reason_of : List Adjustment → Option String
reason_of [] = none
reason_of (a ∷ rows) = a.reason

unfoldable pub latest_adjustment_reason_for_date : Db → String → String → Option String
latest_adjustment_reason_for_date db profile date = reason_of (
    sort_by (λ (a b : Adjustment). leb_ℤ b.created_at a.created_at)
      (filter (λ (a : Adjustment). a.profile_id == profile && a.target_date == date)
        db.time_adjustments))

unfoldable pub get_enabled_blocked_domains : Household → String → List String
get_enabled_blocked_domains h profile = sort_by leb_str (
    map (λ (d : BlockedDomain). d.domain)
      (filter (λ (d : BlockedDomain). d.profile_id == profile && d.enabled) h.blocked_domains))

abbrev pub model_limit : ℕ × ℤ → Models.DailyLimit
model_limit l = record { day_of_week = l.0; allowed_minutes = as_u32 l.1 }

-- A group with its rules, its limits and the extra time of today.
abbrev pub group_config : Dict String (List (ℕ × ℤ)) → Dict String ℤ → Group → AppGroupConfig
group_config group_limits group_adjustments g = record {
  id = g.id;
  name = g.name;
  builtin = g.builtin;
  rules = rules_of g;
  daily_limits = map model_limit (get_or [] group_limits g.id);
  adjustment_today = get_or (pos 0) group_adjustments g.id;
}

module _ {T : Type 0} ⦃c : NaiveTime T⦄ ⦃z : Zones T⦄ ⦃w : Listing⦄ (first last : T) (h : Household)
    (today : String) where
  abbrev pub model_schedule : Schedule → Models.Schedule T
  model_schedule s = record {
    day_of_week = s.day_of_week;
    start_time = or_default first (parse_time s.start_time);
    end_time = or_default last (parse_time s.end_time);
  }

  abbrev pub model_daily_limit : DailyLimit → Models.DailyLimit
  model_daily_limit l = model_limit (l.day_of_week, l.allowed_minutes)

  unfoldable pub user_config : AgentUser → String → UserConfig T
  user_config u profile =
      let db = db_of h in
      let enforcement = get_enforcement_settings db profile in
      record {
        local_uid = u.local_uid;
        profile_id = profile;
        status = managed;
        schedules = map model_schedule (get_schedules db profile);
        daily_limits = map model_daily_limit (get_daily_limits db profile);
        adjustments_today = sum_adjustments_for_date db profile today;
        adjustment_message = latest_adjustment_reason_for_date db profile today;
        lockout_grace_minutes = as_u32 enforcement.lockout_grace_minutes;
        preserve_tasks_on_lock = enforcement.preserve_tasks_on_lock;
        warning_thresholds_minutes = map as_u32 enforcement.warning_thresholds;
        language = or_default "en" (get h.languages profile);
        blocked_domains = get_enabled_blocked_domains h profile;
        app_groups =
            map
              (group_config (limits h.group_limits profile)
                (adjustments h.group_adjustments profile today))
              (list_groups h.approvals.store profile);
        app_approval = config h.approvals profile;
      }

  -- Only managed users with a profile are sent.
  abbrev pub sent : AgentUser → Option (UserConfig T)
  sent u =
      if not (u.status == "managed")
      then none
      else u.profile_id >>= λ profile. some (user_config u profile)

  -- The users of the push; its version is the argument's.
  unfoldable pub build_config_push : String → List (UserConfig T)
  build_config_push agent = filter_map sent (list_agent_users (db_of h) agent)
