-- ===== src/Server/Push/Sent.antt =====
-- crates/server/src/remaining.rs, build_config_push: what the server sends is a push that the agent
-- accepts, by the constraints of the server's tables.
use screenguard.Prelude.{
  eq_nat, eq_string, ℕ, ◌<◌, ◌≡◌, ◌≢◌, refl, sym, ap, ◌∙◌, true, false, ◌&&◌, some, List, [], ◌∷◌,
  map, String, ◌==◌, any, filter, leb, arith, All, Bool-cases, Option-cases, inl, inr,
}
use screenguard.Prelude.Int.{two32}
use screenguard.Times.{NaiveTime}
use screenguard.Models as Models
use screenguard.Models.{UserConfig}
use screenguard.Text.{filter_map}
use screenguard.Agent.Tables as Tables
use screenguard.Agent.Config.{is_day, apply_config_push}
use screenguard.Agent.Rows.{FreshDays}
use screenguard.Agent.View.{view}
use screenguard.Agent.Reads.{IsPush, Others, expected, apply_config_push-view}
use screenguard.Prelude.Sort
use screenguard.Prelude.Sort.{sort_by, All-sort_by, sort_by-Apart}
use screenguard.Server.Db.{
  limit_before, schedule_before, AgentUser, DailyLimit, Schedule, get_schedules, get_daily_limits,
}
use screenguard.Server.Windows.{Zones}
use screenguard.Server.Groups.{Listing}
use screenguard.Server.Push.{
  Household, db_of, list_agent_users, model_daily_limit, model_schedule, user_config, sent,
  build_config_push,
}
use screenguard.Server.Push.Tables.{
  IsDb, Once, Apart, list_agent_users-Apart, Days, Days-FreshDays, nothing_seen, thresholds_lt,
}

module _ {T : Type 0} ⦃c : NaiveTime T⦄ ⦃z : Zones T⦄ ⦃w : Listing⦄ (first last : T) (h : Household)
    (today : String) (ok : IsDb (db_of h)) where
  own_days :
      (profile : String) (rows : List Schedule)
      → All (λ (s : Schedule). leb s.day_of_week 6 ≡ true) rows
      → All
          (λ (s : Schedule). leb s.day_of_week 6 ≡ true)
          (filter (λ (s : Schedule). s.profile_id == profile) rows)
  own_days profile [] d = tt
  own_days profile (s ∷ rows) d = ground (arith, d.0, own_days profile rows d.1)

  sent_days :
      (rows : List Schedule)
      → All (λ (s : Schedule). leb s.day_of_week 6 ≡ true) rows
      → All
          (λ (s : Models.Schedule T). is_day s.day_of_week ≡ true)
          (map (model_schedule first last h today) rows)
  sent_days [] d = tt
  sent_days (s ∷ rows) d = (d.0, sent_days rows d.1)

  others_differ :
      (profile : String) (l : DailyLimit) (rows : List DailyLimit)
      → l.profile_id == profile ≡ true
      → any
          (λ (r : DailyLimit). r.profile_id == l.profile_id && r.day_of_week == l.day_of_week)
          rows
        ≡ false
      → any
          (λ (r : DailyLimit). r.day_of_week == l.day_of_week)
          (filter (λ (r : DailyLimit). r.profile_id == profile) rows)
        ≡ false
  others_differ profile l [] e n = refl
  others_differ profile l (r ∷ rows) e n = ground (
    arith,
    others_differ profile l rows e,
    eq_string.same_iff l.profile_id profile,
    eq_string.same_iff r.profile_id profile,
    eq_string.same_iff r.profile_id l.profile_id,
  )

  -- The limits of one profile: days of the week, each once.
  abbrev OwnDays : List DailyLimit → Type 0
  OwnDays rows =
      All (λ (l : DailyLimit). leb l.day_of_week 6 ≡ true) rows
      × Sort.Apart (λ (l : DailyLimit). l.day_of_week) rows

  own_limits :
      (profile : String) (rows : List DailyLimit)
      → Once rows
      → OwnDays (filter (λ (r : DailyLimit). r.profile_id == profile) rows)
  own_limits profile [] o = (tt, tt)
  own_limits profile (l ∷ rows) o =
      let rest = own_limits profile rows o.2 in
      elim (Bool-cases (l.profile_id == profile)) [
        | inl e ↦ rw e ((o.0, rest.0), (others_differ profile l rows e o.1, rest.1))
        | inr n ↦ rw n rest
      ]

  sorted_limits : (rows : List DailyLimit) → OwnDays rows → OwnDays (sort_by limit_before rows)
  sorted_limits rows o =
      (All-sort_by limit_before _ rows o.0, sort_by-Apart _ limit_before rows o.1)

  any_day :
      (d : ℕ) (rows : List DailyLimit)
      → any
          (λ (r : Models.DailyLimit). r.day_of_week == d)
          (map (model_daily_limit first last h today) rows)
        ≡ any (λ (r : DailyLimit). r.day_of_week == d) rows
  any_day d [] = refl
  any_day d (r ∷ rows) = ground (arith, any_day d rows)

  sent_limits :
      (rows : List DailyLimit)
      → OwnDays rows
      → Days (map (model_daily_limit first last h today) rows)
  sent_limits [] o = tt
  sent_limits (l ∷ rows) o =
      (o.0.0, any_day l.day_of_week rows ∙ o.1.0, sent_limits rows (o.0.1, o.1.1))

  pub sent_lem :
      (v : AgentUser) (u : UserConfig T)
      → sent first last h today v ≡ some u
      → (profile : String) × (u ≡ user_config first last h today v profile)
  sent_lem v u e = elim (Bool-cases (v.status == "managed")) [
    | inr n ↦ ground (arith, e, n)
    | inl y ↦ elim (Option-cases v.profile_id) [
      | inl none_given ↦ ground (arith, e, y, none_given)
      | inr (profile, p) ↦ (profile, ground (arith, e, y, p))
    ]
  ]

  pub sent_uid :
      (v : AgentUser) (u : UserConfig T)
      → sent first last h today v ≡ some u
      → u.local_uid ≡ v.local_uid
  unfolding user_config
  sent_uid v u e =
      let (profile, same) = sent_lem v u e in ap (λ (x : UserConfig T). x.local_uid) same

  -- The users that are sent have the uids of their rows.
  sent_others :
      (uid : ℕ) (users : List AgentUser)
      → any (λ (v : AgentUser). v.local_uid == uid) users ≡ false
      → All (λ (u : UserConfig T). u.local_uid ≢ uid) (filter_map (sent first last h today) users)
  sent_others uid [] n = tt
  sent_others uid (v ∷ users) n = elim (Option-cases (sent first last h today v)) [
    | inl e ↦ rw e (sent_others uid users (ground (arith, n)))
    | inr (u, e) ↦
        rw e (λ q. differs (sym (sent_uid v u e) ∙ q), sent_others uid users (ground (arith, n)))
  ]
    where
      differs : v.local_uid ≢ uid
      differs q = ground (arith, n, q)

  user_config_parts :
      (format_hm : T → String) (v : AgentUser) (profile : String)
      → let u = user_config first last h today v profile in
        All (λ t. t < two32) u.warning_thresholds_minutes
        × All (λ (s : Models.Schedule T). is_day s.day_of_week ≡ true) u.schedules
        × FreshDays [] u.daily_limits
  unfolding user_config get_schedules get_daily_limits
  user_config_parts format_hm v profile = (
    thresholds_lt _,
    sent_days _ (All-sort_by schedule_before _ _ (own_days profile (db_of h).schedules ok.days)),
    Days-FreshDays [] _
        (sent_limits _ (sorted_limits _ (own_limits profile (db_of h).daily_limits ok.limits)))
        (nothing_seen _),
  )

  sent-IsPush :
      (format_hm : T → String) (users : List AgentUser)
      → Apart users
      → IsPush format_hm today (filter_map (sent first last h today) users)
  sent-IsPush format_hm [] a = tt
  sent-IsPush format_hm (v ∷ users) a = elim (Option-cases (sent first last h today v)) [
    | inl e ↦ rw e (sent-IsPush format_hm users a.1)
    | inr (u, e) ↦
        let (profile, same) = sent_lem v u e in
        let parts = user_config_parts format_hm v profile in
        let apart : Others format_hm today u.local_uid
            (filter_map (sent first last h today) users) =
          rw (sent_uid v u e) (sent_others v.local_uid users a.0) in
        rw e (
          rw same parts.0,
          rw same parts.1,
          rw same parts.2,
          apart,
          sent-IsPush format_hm users a.1,
        )
  ]

  build_config_push-IsPush :
      (format_hm : T → String) (agent : String)
      → IsPush format_hm today (build_config_push first last h today agent)
  unfolding build_config_push
  build_config_push-IsPush format_hm agent =
      sent-IsPush format_hm (list_agent_users (db_of h) agent)
        (list_agent_users-Apart (db_of h) agent ok.users)

-- The agent accepts whatever the server builds from tables that keep their constraints (days of the
-- week, one daily limit for a profile and a day, one row for a user of an agent), and reads back for
-- each user of the push what was built for that user, and nothing for any other.
pub apply_config_push-build_config_push :
    {T : Type 0} ⦃c : NaiveTime T⦄ ⦃z : Zones T⦄ ⦃w : Listing⦄ (first last : T) (h : Household)
    (today agent : String) (format_hm : T → String) (db : Tables.Db)
    → IsDb (db_of h)
    → (after : Tables.Db) × (apply_config_push format_hm today db
          (build_config_push first last h today agent)
        ≡ some after)
      × ((v : ℕ)
          → view today after v
            ≡ expected format_hm today v (build_config_push first last h today agent))
apply_config_push-build_config_push first last h today agent format_hm db ok =
    apply_config_push-view format_hm today db (build_config_push first last h today agent)
      (build_config_push-IsPush first last h today ok format_hm agent)
