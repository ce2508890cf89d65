-- ===== src/Server/Db.antt =====
-- crates/server/src/db.rs: the tables that the time left is read from, and the queries on them. A
-- `Uuid` is its text. The queries succeed; a sum in SQL is exact.
use Prim.Native.Char.{code}
use screenguard.Prelude.{
  eq_nat, eq_string, eq_pair, ℕ, ◌+◌, Bool, false, not, ◌&&◌, Option, none, some, List, [], ◌∷◌,
  String, ◌==◌, filter, find, or_default, ltb, leb, if◌then◌else◌, ◌>>=◌,
}
use screenguard.Prelude.Sort.{sort_by, leb_str}
use screenguard.Prelude.Dict.{Dict, get, insert, get_or}
use screenguard.Prelude.Int.{ℤ, pos, ◌+ℤ◌, ◌-ℤ◌, wrap_i32, two31, is_zero, leb_ℤ}
use screenguard.Text.{split, trim, some_digits, filter_map}

-- Of the columns, those that the calculation reads.
pub record AgentUser : Type 0 where
  pub id : String
  pub agent_id : String
  pub profile_id : Option String
  pub local_uid : ℕ
  pub status : String

pub record Schedule : Type 0 where
  pub id : String
  pub profile_id : String
  pub day_of_week : ℕ
  pub start_time : String
  pub end_time : String

pub record DailyLimit : Type 0 where
  pub profile_id : String
  pub day_of_week : ℕ
  pub allowed_minutes : ℤ

-- A row of `time_adjustments`.
pub record Adjustment : Type 0 where
  pub profile_id : String
  pub target_date : String
  pub adjustment_minutes : ℤ
  pub reason : Option String
  pub created_at : ℤ

pub record EnforcementSettings : Type 0 where
  pub lockout_grace_minutes : ℤ
  pub preserve_tasks_on_lock : Bool
  pub warning_thresholds : List ℤ

-- A row of `enforcement_settings`.
pub record SettingsRow : Type 0 where
  pub lockout_grace_minutes : ℤ
  pub warning_thresholds : String
  pub preserve_tasks_on_lock : ℤ

pub record Db : Type 0 where
  pub agent_users : List AgentUser
  pub schedules : List Schedule
  pub daily_limits : List DailyLimit
  pub time_adjustments : List Adjustment
  pub enforcement_settings : Dict String SettingsRow
  pub daily_usage : Dict (String × String) ℤ

unfoldable pub get_agent_user : Db → String → ℕ → Option AgentUser
get_agent_user db agent uid =
    find (λ (u : AgentUser). u.agent_id == agent && u.local_uid == uid) db.agent_users

-- ORDER BY day_of_week, start_time
abbrev pub schedule_before : Schedule → Schedule → Bool
schedule_before a b =
    if a.day_of_week == b.day_of_week
    then leb_str a.start_time b.start_time
    else ltb a.day_of_week b.day_of_week

unfoldable pub get_schedules : Db → String → List Schedule
get_schedules db profile =
    sort_by schedule_before (filter (λ (s : Schedule). s.profile_id == profile) db.schedules)

-- ORDER BY day_of_week
abbrev pub limit_before : DailyLimit → DailyLimit → Bool
limit_before a b = leb a.day_of_week b.day_of_week

unfoldable pub get_daily_limits : Db → String → List DailyLimit
get_daily_limits db profile =
    sort_by limit_before (filter (λ (l : DailyLimit). l.profile_id == profile) db.daily_limits)

-- The sum as `i32`.
abbrev pub sum_rows : String → String → List Adjustment → ℤ
sum_rows profile date [] = pos 0
sum_rows profile date (a ∷ rows) =
    let rest = sum_rows profile date rows in
    if a.profile_id == profile && a.target_date == date then a.adjustment_minutes +ℤ rest else rest

unfoldable pub sum_adjustments_for_date : Db → String → String → ℤ
sum_adjustments_for_date db profile date = wrap_i32 (sum_rows profile date db.time_adjustments)

-- `parse::<i32>()`
abbrev pub below : ℕ → Option ℕ → Option ℕ
below bound o = o >>= λ n. if ltb n bound then some n else none

abbrev pub parse_i32 : String → Option ℤ
parse_i32 String.[] = none
parse_i32 (String.◌∷◌ c s) =
    if code c == b'-'
    then (below (two31 + 1) (some_digits s) >>= λ n. some (pos 0 -ℤ pos n))
    else if code c == b'+'
    then (below two31 (some_digits s) >>= λ n. some (pos n))
    else (below two31 (some_digits (String.◌∷◌ c s)) >>= λ n. some (pos n))

abbrev pub default_settings : SettingsRow
default_settings = record {
  lockout_grace_minutes = pos 5;
  warning_thresholds = "15,5,1";
  preserve_tasks_on_lock = pos 0;
}

unfoldable pub get_enforcement_settings : Db → String → EnforcementSettings
get_enforcement_settings db profile =
    let row = or_default default_settings (get db.enforcement_settings profile) in
    record {
      lockout_grace_minutes = row.lockout_grace_minutes;
      preserve_tasks_on_lock = not (is_zero row.preserve_tasks_on_lock);
      warning_thresholds =
          filter_map (λ (s : String). parse_i32 (trim s)) (split b',' row.warning_thresholds);
    }

unfoldable pub add_usage_seconds : Db → String → String → ℤ → Db
add_usage_seconds db user date seconds = record db {
  daily_usage =
      insert db.daily_usage (user, date) (get_or (pos 0) db.daily_usage (user, date) +ℤ seconds);
}

-- A total that the agent sends again only ever raises the stored one.
abbrev pub raise : ℤ → Option ℤ → ℤ
raise seconds none = seconds
raise seconds (some old) = if leb_ℤ seconds old then old else seconds

unfoldable pub reconcile_usage_seconds : Db → String → String → ℤ → Db
reconcile_usage_seconds db user date seconds = record db {
  daily_usage =
      insert db.daily_usage (user, date) (raise seconds (get db.daily_usage (user, date)));
}

-- The profile of a user of an agent, by the primary key of `agent_users`.
abbrev pub profile_of : List AgentUser → String → Option String
profile_of users id = find (λ (u : AgentUser). u.id == id) users >>= λ (u : AgentUser). u.profile_id

abbrev pub is_profile : String → Option String → Bool
is_profile profile none = false
is_profile profile (some p) = p == profile

abbrev pub belongs : List AgentUser → String → String → Bool
belongs users profile id = is_profile profile (profile_of users id)

-- The sum of the rows whose key passes the test.
abbrev pub sum_where {ℓ} : {K : Type ℓ} → (K → Bool) → Dict K ℤ → ℤ
sum_where p [] = pos 0
sum_where p ((key, seconds) ∷ rows) =
    let rest = sum_where p rows in if p key then seconds +ℤ rest else rest

abbrev pub counts_for : List AgentUser → String → String → String × String → Bool
counts_for users profile date key = belongs users profile key.0 && key.1 == date

unfoldable pub get_used_seconds_for_profile_today : Db → String → String → ℤ
get_used_seconds_for_profile_today db profile date =
    sum_where (counts_for db.agent_users profile date) db.daily_usage
