-- ===== src/Agent/Reads.antt =====
-- What the agent reads back after a push of the configuration.
use screenguard.Prelude.{
  eq_nat, eq_string, eq_pair, ==_ne, ==_eq, ==_cases, ℕ, ◌<◌, ◌≡◌, ◌≢◌, refl, ap, subst, sym, ◌∙◌,
  true, some, List, [], ◌∷◌, String, ◌==◌, if◌then◌else◌, inl, inr, All, All-zip,
}
use screenguard.Prelude.Dict.{get}
use screenguard.Prelude.Int.{two32}
use screenguard.Models.{Schedule, UserConfig}
use screenguard.Agent.Tables.{Db}
use screenguard.Agent.Db.{
  get_cached_schedules, get_cached_daily_limits, get_cached_adjustment, get_cached_enforcement,
}
use screenguard.Agent.Config.{
  is_day, get_cached_blocked_domains, get_cached_app_groups, get_cached_app_approval, apply_user,
  apply_users, cleared, apply_config_push,
}
use screenguard.Agent.Rows.{FreshDays, insert_schedules-total, insert_limits-total}
use screenguard.Agent.View.{View, view, blank, pushed, apply_user-Inserted}
use screenguard.Agent.Pushed.{view_self, view_other}

All_of :
    {T : Type 0} (users : List (UserConfig T)) (P : ℕ → Type 0)
    → ((v : ℕ) → P v)
    → All (λ (u : UserConfig T). P u.local_uid) users
All_of [] P f = tt
All_of (u ∷ users) P f = (f u.local_uid, All_of users P f)

module _ {T : Type 0} (format_hm : T → String) (today : String) where
  abbrev pub Others : ℕ → List (UserConfig T) → Type 0
  Others v users = All (λ (u : UserConfig T). u.local_uid ≢ v) users

  -- The server sends each user once, with days of the week, one limit a day at most, and thresholds
  -- of 32 bits.
  abbrev pub IsPush : List (UserConfig T) → Type 0
  IsPush [] = Unit
  IsPush (u ∷ users) =
      All (λ t. t < two32) u.warning_thresholds_minutes
      × All (λ (s : Schedule T). is_day s.day_of_week ≡ true) u.schedules
      × FreshDays [] u.daily_limits
      × Others u.local_uid users
      × IsPush users

  apply_user-total :
      (db : Db) (u : UserConfig T)
      → view today db u.local_uid ≡ blank
      → All (λ (s : Schedule T). is_day s.day_of_week ≡ true) u.schedules
      → FreshDays [] u.daily_limits
      → (after : Db) × (apply_user format_hm today db u ≡ some after)
  unfolding apply_user get_cached_daily_limits
  apply_user-total db u b s l =
      let new = ap (λ (w : View). w.managed) b in
      let schedules =
        insert_schedules-total format_hm u.local_uid u.schedules db.cached_schedules s in
      let limits =
        insert_limits-total u.local_uid u.daily_limits db.cached_daily_limits []
          (ap (λ (w : View). w.daily_limits) b) l in
      rw new (rw schedules.1 (rw limits.1 (_, refl)))

  -- What holds after the inserts of a push.
  abbrev pub Applied : Db → List (UserConfig T) → Db → Type 0
  Applied db users after =
      All (λ (u : UserConfig T). view today after u.local_uid ≡ pushed format_hm u) users
      × ((v : ℕ) → Others v users → view today after v ≡ view today db v)

  apply_users-Applied :
      (db : Db) (users : List (UserConfig T))
      → IsPush users
      → All (λ (u : UserConfig T). view today db u.local_uid ≡ blank) users
      → (after : Db) × (apply_users format_hm today db users ≡ some after) × Applied db users after
  unfolding apply_users
  apply_users-Applied db [] p b = (db, refl, (tt, λ v o. refl))
  apply_users-Applied db (u ∷ users) p b =
      let mid = apply_user-total db u b.0 p.1 p.2 in
      let i = apply_user-Inserted format_hm today db mid.0 u mid.1 in
      let blanks =
        All-zip (λ (w : UserConfig T). w.local_uid ≢ u.local_uid)
          (λ (w : UserConfig T). view today db w.local_uid ≡ blank)
          (λ (w : UserConfig T). view today mid.0 w.local_uid ≡ blank) users
          (λ w n e. view_other format_hm today db mid.0 u i w.local_uid (λ q. n (sym q)) ∙ e) p.3
          b.1 in
      let rest = apply_users-Applied mid.0 users p.4 blanks in
      (
        rest.0,
        rw mid.1 rest.1,
        (
          (rest.2.1 u.local_uid p.3 ∙ view_self format_hm today db mid.0 u i b.0 p.0, rest.2.0),
          λ v o. rest.2.1 v o.1 ∙ view_other format_hm today db mid.0 u i v o.0,
        ),
      )

  cleared-blank : (db : Db) (uid : ℕ) → view today (cleared format_hm db) uid ≡ blank
  unfolding cleared get get_cached_schedules get_cached_daily_limits get_cached_adjustment
      get_cached_enforcement get_cached_app_groups get_cached_app_approval
      get_cached_blocked_domains
  cleared-blank db uid = refl

  -- What the agent is to read of a user after a push.
  abbrev pub expected : ℕ → List (UserConfig T) → View
  expected v [] = blank
  expected v (u ∷ users) = if u.local_uid == v then pushed format_hm u else expected v users

  view-expected :
      (after : Db) (v : ℕ) (users : List (UserConfig T))
      → All (λ (u : UserConfig T). view today after u.local_uid ≡ pushed format_hm u) users
      → (Others v users → view today after v ≡ blank)
      → view today after v ≡ expected v users
  view-expected after v [] a h = h tt
  view-expected after v (u ∷ users) a h = elim (==_cases u.local_uid v) [
    | inl e ↦
        rw (==_eq u.local_uid v e) (subst (λ w. view today after w ≡ pushed format_hm u) e a.0)
    | inr n ↦ rw (==_ne u.local_uid v n) (view-expected after v users a.1 (λ o. h (n, o)))
  ]

  -- A push succeeds, and after it the agent reads for each user just what the server sent
  -- (schedules, limits, the day's adjustment, the settings of enforcement with the thresholds that
  -- were stored as text, app groups, approvals, and the blocked domains sorted and once each), and
  -- for any other user nothing and the default settings, whatever was stored before. The server
  -- sends each user once, days of the week, at most one limit a day, and thresholds of 32 bits.
  pub apply_config_push-view :
      (db : Db) (users : List (UserConfig T))
      → IsPush users
      → (after : Db) × (apply_config_push format_hm today db users ≡ some after)
        × ((v : ℕ) → view today after v ≡ expected v users)
  unfolding apply_config_push
  apply_config_push-view db users p =
      let start = cleared format_hm db in
      let blanks = All_of users (λ v. view today start v ≡ blank) (cleared-blank db) in
      let r = apply_users-Applied start users p blanks in
      (r.0, r.1, λ v. view-expected r.0 v users r.2.0 (λ o. r.2.1 v o ∙ cleared-blank db v))
