-- ===== src/Server/Remaining.antt =====
-- crates/server/src/remaining.rs, lines 12-144 and 234-246: the answer to a heartbeat. The text of
-- the local date, its weekday and the local time are arguments; so is the group time on other
-- computers, which the source queries by `group_usage_elsewhere`.
use Prim.Native.String.{◌++◌ as str_append}
use screenguard.Prelude.{
  is_empty_list, eq_nat, eq_string, ℕ, ◌-◌, ◌/◌, ◌%◌, not, ◌&&◌, Option, none, some, List, [], ◌∷◌,
  ◌++◌, String, ◌==◌, any, find, map, or_default, is_some, ltb, if◌then◌else◌,
}
use screenguard.Prelude.Int.{
  ℤ, pos, negsuc, ◌+ℤ◌, ◌-ℤ◌, leb_ℤ, min_ℤ, max_zero, as_i32, wrap_i32, div_ℤ, two32,
}
use screenguard.Times.{NaiveTime}
use screenguard.Models.{EnforceAction, allow, warn, lock, GroupUsage}
use screenguard.Server.Db.{
  AgentUser, Schedule, DailyLimit, Db, get_agent_user, get_schedules, get_daily_limits,
  sum_adjustments_for_date, get_enforcement_settings, add_usage_seconds,
  get_used_seconds_for_profile_today,
}
use screenguard.Server.Windows.{Zones, parse_time, check_schedule_windows}

pub record RemainingEntry (T : Type 0) : Type 0 where
  pub local_uid : ℕ
  pub remaining_minutes : ℤ
  pub limit_today_minutes : Option ℕ
  pub used_today_minutes : ℕ
  pub adjustments_today_minutes : ℤ
  pub current_window_ends_at : Option T
  pub next_window_starts_at : Option T
  pub enforce : EnforceAction
  pub group_usage_elsewhere : List GroupUsage

-- The local date, its weekday from Monday, and the local time of an agent.
pub record Moment (T : Type 0) : Type 0 where
  pub today : String
  pub weekday : ℕ
  pub now : T

-- An `i32` as `u32`.
abbrev pub as_u32 : ℤ → ℕ
as_u32 (pos n) = n % two32
as_u32 (negsuc n) = two32 - 1 - n % two32

-- An hour or a minute by the format {:02}.
abbrev pub digit : ℕ → String
digit n =
    if n == 0
    then "0"
    else if n == 1
    then "1"
    else if n == 2
    then "2"
    else if n == 3
    then "3"
    else if n == 4
    then "4"
    else if n == 5
    then "5"
    else if n == 6
    then "6"
    else if n == 7
    then "7"
    else if n == 8
    then "8"
    else "9"

abbrev pub two_digits : ℕ → String
two_digits n = str_append (digit (n / 10)) (digit (n % 10))

-- Minutes of today's limit, and the limit to show; a day without limit has 1440.
abbrev pub limit_or_day : Option DailyLimit → ℤ × Option ℕ
limit_or_day none = (pos 1440, none)
limit_or_day (some l) = (l.allowed_minutes, some (as_u32 l.allowed_minutes))

unfoldable pub limit_today : ℕ → List DailyLimit → ℤ × Option ℕ
limit_today weekday limits =
    limit_or_day (find (λ (l : DailyLimit). l.day_of_week == weekday) limits)

unfoldable pub used_minutes : ℤ → ℤ
used_minutes used = wrap_i32 (div_ℤ used 60)

-- `(limit + adjustments - used).max(0)`
unfoldable pub left_today : ℤ → ℤ → ℤ → ℤ
left_today limit adjustments used =
    pos (max_zero (wrap_i32 (wrap_i32 (limit +ℤ adjustments) -ℤ used)))

unfoldable pub action_for : ℤ → List ℤ → EnforceAction
action_for remaining thresholds =
    if leb_ℤ remaining (pos 0)
    then lock
    else if any (λ t. leb_ℤ remaining t) thresholds
    then warn
    else allow

unfoldable pub counted : String → Db → String → ℕ → Db
counted today db user secs = if ltb 0 secs then add_usage_seconds db user today (pos secs) else db

module _ {T : Type 0} ⦃c : NaiveTime T⦄ where
  -- The minutes up to the end of the open window cap those of the limit.
  abbrev pub cap : T → Option T → ℤ → ℤ
  cap now none remaining = remaining
  cap now (some end) remaining = min_ℤ remaining (as_i32 (max_zero (c.num_seconds end now) / 60))

module _ {T : Type 0} ⦃c : NaiveTime T⦄ ⦃z : Zones T⦄ where
  unfoldable pub schedule_time_in_agent_tz : T → String → String → T
  schedule_time_in_agent_tz naive admin agent =
      if admin == agent then naive else or_default naive (z.in_zone admin agent naive)

  unfoldable pub shown : T → String
  shown t = str_append (two_digits (z.hour t)) (str_append ":" (two_digits (z.minute t)))

  unfoldable pub convert : T → T → String → String → Schedule → Schedule
  convert first last admin agent s = record s {
    start_time =
        shown (schedule_time_in_agent_tz (or_default first (parse_time s.start_time)) admin agent);
    end_time =
        shown (schedule_time_in_agent_tz (or_default last (parse_time s.end_time)) admin agent);
  }

  -- The entry of a managed user, from what the queries return.
  unfoldable pub entry_of :
      ℕ
      → Moment T
      → List DailyLimit
      → ℤ
      → ℤ
      → List Schedule
      → List ℤ
      → List GroupUsage
      → RemainingEntry T
  entry_of uid at limits adjustments used schedules thresholds elsewhere =
      let limit = limit_today at.weekday limits in
      let window = check_schedule_windows schedules at.weekday at.now in
      let minutes = used_minutes used in
      let outside = not (is_some window.0) && not (is_empty_list schedules) in
      let remaining = cap at.now window.0 (left_today limit.0 adjustments minutes) in
      record {
        local_uid = uid;
        remaining_minutes = if outside then pos 0 else remaining;
        limit_today_minutes = limit.1;
        used_today_minutes = as_u32 minutes;
        adjustments_today_minutes = adjustments;
        current_window_ends_at = window.0;
        next_window_starts_at = window.1;
        enforce = if outside then lock else action_for remaining thresholds;
        group_usage_elsewhere = elsewhere;
      }

  unfoldable pub unmanaged : ℕ → RemainingEntry T
  unmanaged uid = record {
    local_uid = uid;
    remaining_minutes = pos 1440;
    limit_today_minutes = none;
    used_today_minutes = 0;
    adjustments_today_minutes = pos 0;
    current_window_ends_at = none;
    next_window_starts_at = none;
    enforce = allow;
    group_usage_elsewhere = [];
  }

  module _ (first last : T) (admin_tz agent_tz : String) (elsewhere : String → List GroupUsage)
      (agent : String) (at : Moment T) where
    -- The entry of a user of a profile, read after the new seconds are stored.
    unfoldable pub entry_in : Db → ℕ → String → RemainingEntry T
    entry_in db uid profile =
        entry_of uid at (get_daily_limits db profile) (sum_adjustments_for_date db profile at.today)
          (get_used_seconds_for_profile_today db profile at.today)
          (map (convert first last admin_tz agent_tz) (get_schedules db profile))
          (get_enforcement_settings db profile).warning_thresholds (elsewhere profile)

    abbrev pub answer_user : Db → ℕ → ℕ → AgentUser → Option String → Db × List (RemainingEntry T)
    answer_user db uid secs u none = (db, unmanaged uid ∷ [])
    answer_user db uid secs u (some profile) =
        let after = counted at.today db u.id secs in (after, entry_in after uid profile ∷ [])

    abbrev pub answer : Db → ℕ → ℕ → Option AgentUser → Db × List (RemainingEntry T)
    answer db uid secs none = (db, [])
    answer db uid secs (some u) = answer_user db uid secs u u.profile_id

    unfoldable pub calculate_remaining_for_agent : Db → List (ℕ × ℕ) → Db × List (RemainingEntry T)
    calculate_remaining_for_agent db [] = (db, [])
    calculate_remaining_for_agent db ((uid, secs) ∷ users) =
        let head = answer db uid secs (get_agent_user db agent uid) in
        let rest = calculate_remaining_for_agent head.0 users in (rest.0, head.1 ++ rest.1)
