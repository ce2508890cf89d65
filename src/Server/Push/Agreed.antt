-- ===== src/Server/Push/Agreed.antt =====
-- crates/server/src/remaining.rs and crates/agent/src/enforcement.rs: after a push, the agent decides
-- offline what the server answers online.
use screenguard.Prelude.{
  eq_nat, eq_string, ==_eq, ==_ne, ℕ, ◌≡◌, ◌≢◌, refl, sym, ap, or_default, ◌∙◌, some, List, [], ◌∷◌,
  map, String, ◌==◌, find, arith, All, Option-cases, inl, inr,
}
use screenguard.Prelude.Int.{ℤ, pos, IsI32}
use screenguard.Times.{NaiveTime}
use screenguard.Models.{GroupUsage}
use screenguard.Prelude.Dict.{get}
use screenguard.Text.{filter_map, split}
use screenguard.Agent.Tables as Tables
use screenguard.Agent.Db.{
  get_usage_seconds, get_cached_schedules, get_cached_adjustment, get_cached_enforcement,
}
use screenguard.Agent.Config.{apply_config_push, limit_row}
use screenguard.Agent.View.{View, view, pushed}
use screenguard.Agent.Reads.{expected}
use screenguard.Agent.Offline as Agent
use screenguard.Agent.Offline.{offline_evaluate}
use screenguard.Server.Db.{
  default_settings, AgentUser, DailyLimit, Db, get_agent_user, get_schedules, get_daily_limits,
  get_enforcement_settings, get_used_seconds_for_profile_today, sum_adjustments_for_date,
}
use screenguard.Server.Windows.{Zones, check_schedule_windows}
use screenguard.Server.Remaining as Server
use screenguard.Server.Remaining.{Moment, as_u32, entry_in, entry_of, limit_today}
use screenguard.Server.Groups.{Listing}
use screenguard.Server.Push.{
  Household, db_of, list_agent_users, model_daily_limit, user_config, sent, build_config_push,
}
use screenguard.Server.Push.Sent.{sent_uid, apply_config_push-build_config_push}
use screenguard.Server.Push.Offline.{
  min_max, action_lem, left_lem, time_remaining-IsI32, parsed-IsI32,
  get_usage_seconds-apply_config_push,
}
use screenguard.Server.Push.Tables.{IsDb, Apart, list_agent_users-Apart}
use screenguard.Server.Push.Users.{Has, Has-any, list_agent_users-Has}

module _ {T : Type 0} ⦃c : NaiveTime T⦄ ⦃z : Zones T⦄ ⦃w : Listing⦄ (first last : T) (h : Household)
    (today : String) (ok : IsDb (db_of h)) (format_hm : T → String) where
  sent_managed :
      (u : AgentUser) (profile : String)
      → u.status ≡ "managed"
      → u.profile_id ≡ some profile
      → sent first last h today u ≡ some (user_config first last h today u profile)
  sent_managed u profile m p = rw (m, p) refl

  -- What the agent is to read of a managed user is that user's configuration.
  Has-expected :
      (users : List AgentUser) (u : AgentUser) (profile : String)
      → Has u users
      → Apart users
      → u.status ≡ "managed"
      → u.profile_id ≡ some profile
      → expected format_hm today u.local_uid (filter_map (sent first last h today) users)
        ≡ pushed format_hm (user_config first last h today u profile)
  unfolding user_config
  Has-expected [] u profile k a m p = absurd k
  Has-expected (v ∷ users) u profile (inl same) a m p =
      let s : sent first last h today v ≡ some (user_config first last h today u profile) =
        ap (sent first last h today) same ∙ sent_managed u profile m p in
      rw (s, ==_eq u.local_uid u.local_uid refl) refl
  Has-expected (v ∷ users) u profile (inr k) a m p =
      let rest = Has-expected users u profile k a.1 m p in
      elim (Option-cases (sent first last h today v)) [
        | inl e ↦ rw e rest
        | inr (x, e) ↦
            let other : x.local_uid ≢ u.local_uid = λ q.
              Has-any users u v.local_uid k a.0 (sym (sent_uid first last h today ok v x e) ∙ q) in
            rw (e, ==_ne x.local_uid u.local_uid other) rest
      ]

  find_limit :
      (weekday : ℕ) (rows : List DailyLimit) (l : DailyLimit)
      → find (λ (r : DailyLimit). r.day_of_week == weekday) rows ≡ some l
      → find
          (λ (r : Tables.CachedLimit). r.day_of_week == weekday)
          (map limit_row (map (model_daily_limit first last h today) rows))
        ≡ some (limit_row (model_daily_limit first last h today l))
  find_limit weekday [] l e = cc
  find_limit weekday (r ∷ rows) l e = ground (arith, find_limit weekday rows l, e)

  module _ (agent admin_tz agent_tz : String) (elsewhere : String → List GroupUsage) (at : Moment T)
      (u : AgentUser) (profile : String) (l : DailyLimit) (db after : Tables.Db)
      (reads : view today after u.local_uid
        ≡ pushed format_hm (user_config first last h today u profile))
      (no_windows : get_schedules (db_of h) profile ≡ [])
      (limited : find
          (λ (r : DailyLimit). r.day_of_week == at.weekday)
          (get_daily_limits (db_of h) profile)
        ≡ some l)
      (small : IsI32 l.allowed_minutes) where
    limit_read :
        Agent.limit_for u.local_uid after at.weekday
        ≡ some (limit_row (model_daily_limit first last h today l))
    unfolding Agent.limit_for user_config
    limit_read =
        ap
          (λ (v : View).
            find (λ (r : Tables.CachedLimit). r.day_of_week == at.weekday) v.daily_limits)
          reads
        ∙ find_limit at.weekday (get_daily_limits (db_of h) profile) l limited

    adjustment_read :
        get_cached_adjustment after u.local_uid today
        ≡ sum_adjustments_for_date (db_of h) profile today
    unfolding user_config
    adjustment_read = ap (λ (v : View). v.adjustment) reads

    schedules_read : get_cached_schedules after u.local_uid ≡ []
    unfolding user_config
    schedules_read = ap (λ (v : View). v.schedules) reads ∙ rw no_windows refl

    thresholds_read :
        (get_cached_enforcement after u.local_uid).warning_thresholds
        ≡ map as_u32 (get_enforcement_settings (db_of h) profile).warning_thresholds
    unfolding user_config
    thresholds_read = ap (λ (v : View). v.enforcement.warning_thresholds) reads

    abbrev left : ℕ → ℤ
    left used =
        Agent.time_remaining (some (limit_row (model_daily_limit first last h today l)))
          (sum_adjustments_for_date (db_of h) profile today) used

    offline_read :
        offline_evaluate u.local_uid after today at.weekday at.now
        ≡ Agent.action_for
            (left (get_usage_seconds after u.local_uid today))
            (map as_u32 (get_enforcement_settings (db_of h) profile).warning_thresholds)
    unfolding offline_evaluate Agent.window_at
    offline_read =
        rw (schedules_read, limit_read, adjustment_read, thresholds_read)
          (ap
            (λ t.
              Agent.action_for t
                (map as_u32 (get_enforcement_settings (db_of h) profile).warning_thresholds))
            (min_max (left (get_usage_seconds after u.local_uid today))
              (time_remaining-IsI32 _ _ _)))

thresholds-IsI32 :
    (db : Db) (profile : String)
    → All IsI32 (get_enforcement_settings db profile).warning_thresholds
unfolding get_enforcement_settings
thresholds-IsI32 db profile = parsed-IsI32 (
    split b','
      (or_default default_settings (get db.enforcement_settings profile)).warning_thresholds)

-- The server's decision where no window is open or closed and the day has a limit.
entry_in_lem :
    {T : Type 0} ⦃c : NaiveTime T⦄ ⦃z : Zones T⦄ (first last : T) (admin_tz agent_tz : String)
    (elsewhere : String → List GroupUsage) (agent : String) (at : Moment T) (db : Db) (uid : ℕ)
    (profile : String) (l : DailyLimit) (used : ℤ)
    → get_schedules db profile ≡ []
    → find (λ (r : DailyLimit). r.day_of_week == at.weekday) (get_daily_limits db profile) ≡ some l
    → get_used_seconds_for_profile_today db profile at.today ≡ used
    → (entry_in first last admin_tz agent_tz elsewhere agent at db uid profile).enforce
      ≡ Server.action_for
          (Server.left_today l.allowed_minutes
            (sum_adjustments_for_date db profile at.today)
            (Server.used_minutes used))
          (get_enforcement_settings db profile).warning_thresholds
unfolding entry_in entry_of limit_today check_schedule_windows
entry_in_lem first last admin_tz agent_tz elsewhere agent at db uid profile l used s f n =
    rw (s, f, n) refl

-- After the agent has applied the configuration that the server builds on a date, its offline decision
-- on a managed user of a profile with no time windows is the decision of the server's answer, if the
-- profile has a limit of 32 bits for the day and agent and server have counted the same seconds: both
-- lock, warn or allow. The server's tables keep their constraints.
pub offline_evaluate-entry_in :
    {T : Type 0} ⦃c : NaiveTime T⦄ ⦃z : Zones T⦄ ⦃w : Listing⦄ (first last : T) (h : Household)
    (format_hm : T → String) (agent admin_tz agent_tz : String)
    (elsewhere : String → List GroupUsage) (at : Moment T) (u : AgentUser) (profile : String)
    (l : DailyLimit) (db after : Tables.Db)
    → IsDb (db_of h)
    → get_agent_user (db_of h) agent u.local_uid ≡ some u
    → u.status ≡ "managed"
    → u.profile_id ≡ some profile
    → get_schedules (db_of h) profile ≡ []
    → find (λ (r : DailyLimit). r.day_of_week == at.weekday) (get_daily_limits (db_of h) profile)
      ≡ some l
    → IsI32 l.allowed_minutes
    → get_used_seconds_for_profile_today (db_of h) profile at.today
      ≡ pos (get_usage_seconds db u.local_uid at.today)
    → apply_config_push format_hm at.today db (build_config_push first last h at.today agent)
      ≡ some after
    → offline_evaluate u.local_uid after at.today at.weekday at.now
      ≡ (entry_in first last admin_tz agent_tz elsewhere agent at
          (db_of h)
          u.local_uid
          profile).enforce
unfolding build_config_push
offline_evaluate-entry_in first last h format_hm agent admin_tz agent_tz elsewhere at u profile l db
      after ok found m p s f small used done =
    let users = build_config_push first last h at.today agent in
    let push = apply_config_push-build_config_push first last h at.today agent format_hm db ok in
    let same : some push.0 ≡ some after = sym push.1 ∙ done in
    let is_after : push.0 ≡ after = cc (same) in
    let reads =
      ap (λ d. view at.today d u.local_uid) (sym is_after)
      ∙ push.2 u.local_uid
      ∙ Has-expected first last h at.today ok format_hm (list_agent_users (db_of h) agent) u profile
          (list_agent_users-Has (db_of h) agent u.local_uid u found m).0
          (list_agent_users-Apart (db_of h) agent ok.users) m p in
    let counted =
      get_usage_seconds-apply_config_push format_hm at.today db after users u.local_uid at.today
        done in
    offline_read first last h at.today ok format_hm agent admin_tz agent_tz elsewhere at u profile l
      db after reads s f small
    ∙ action_lem _ _ (thresholds-IsI32 (db_of h) profile)
    ∙ rw (counted) (
        sym (
          entry_in_lem first last admin_tz agent_tz elsewhere agent at (db_of h) u.local_uid profile
            l _ s f used
          ∙ rw
              (left_lem l (sum_adjustments_for_date (db_of h) profile at.today)
                (get_usage_seconds db u.local_uid at.today) small)
              refl))
