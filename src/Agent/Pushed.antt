-- ===== src/Agent/Pushed.antt =====
-- What one user's inserts of a push change.
use screenguard.Prelude.{
  eq_nat, eq_string, eq_pair, ==_refl, ==_ne, ℕ, ◌<◌, ◌≡◌, ◌≢◌, refl, ap, sym, ◌∙◌, some, List, [],
  ◌++◌, String, map, arith, Bool-cases, inl, inr, All,
}
use screenguard.Prelude.Dict.{get, get-insert}
use screenguard.Prelude.Int.{is_zero, two32}
use screenguard.Models.{UserConfig}
use screenguard.Agent.Tables.{CachedSchedule, CachedLimit, Db}
use screenguard.Agent.Db.{
  rows_of, get_cached_schedules, get_cached_daily_limits, get_cached_adjustment,
  get_cached_enforcement,
}
use screenguard.Agent.Config.{
  status_text, limit_row, sort_texts, without_user, get_cached_blocked_domains,
  get_cached_app_groups, get_cached_app_approval, schedule_row,
}
use screenguard.Agent.Rows.{
  rows_of-without_user, rows_of-without_other, insert_schedules_self, insert_schedules_other,
  insert_limits_self, insert_limits_other, add_distinct, insert_domains_self, insert_domains_other,
}
use screenguard.Agent.View.{
  View, view, blank, pushed, Inserted, thresholds_read, zero_adjustment, other_key,
}

module _ {T : Type 0} (format_hm : T → String) (today : String) (db after : Db) (u : UserConfig T)
    (i : Inserted format_hm today db after u) where
  managed_self :
      get after.managed_users u.local_uid
      ≡ some (record { profile_id = u.profile_id; status = status_text u.status })
  managed_self = rw i.users (rw get-insert (rw (==_refl u.local_uid) refl))

  enforcement_self :
      All (λ t. t < two32) u.warning_thresholds_minutes
      → get_cached_enforcement after u.local_uid ≡ (pushed format_hm u).enforcement
  unfolding get_cached_enforcement
  enforcement_self small =
      rw i.enforcement
        (rw get-insert (rw (==_refl u.local_uid) (sym (thresholds_read format_hm u small))))

  groups_self : get_cached_app_groups after u.local_uid ≡ u.app_groups
  unfolding get_cached_app_groups
  groups_self = rw i.groups (rw get-insert (rw (==_refl u.local_uid) refl))

  approval_self : get_cached_app_approval after u.local_uid ≡ u.app_approval
  unfolding get_cached_app_approval
  approval_self = rw i.groups (rw get-insert (rw (==_refl u.local_uid) refl))

  domains_self :
      get_cached_blocked_domains after u.local_uid ≡ sort_texts (add_distinct [] u.blocked_domains)
  unfolding get_cached_blocked_domains
  domains_self = rw i.domains (
      rw insert_domains_self (rw (rows_of-without_user u.local_uid db.cached_blocked_domains) refl))

  module _ (b : view today db u.local_uid ≡ blank) where
    schedules_self :
        get_cached_schedules after u.local_uid ≡ map (schedule_row format_hm) u.schedules
    unfolding get_cached_schedules
    schedules_self =
        insert_schedules_self format_hm u.local_uid u.schedules db.cached_schedules
          after.cached_schedules i.schedules
        ∙ ap (λ (rows : List CachedSchedule). rows ++ map (schedule_row format_hm) u.schedules)
            (ap (λ (v : View). v.schedules) b)

    limits_self : get_cached_daily_limits after u.local_uid ≡ map limit_row u.daily_limits
    unfolding get_cached_daily_limits
    limits_self =
        insert_limits_self u.local_uid u.daily_limits db.cached_daily_limits
          after.cached_daily_limits i.limits
        ∙ ap (λ (rows : List CachedLimit). rows ++ map limit_row u.daily_limits)
            (ap (λ (v : View). v.daily_limits) b)

    adjustment_self : get_cached_adjustment after u.local_uid today ≡ u.adjustments_today
    unfolding get_cached_adjustment
    adjustment_self = rw i.adjustments (elim (Bool-cases (is_zero u.adjustments_today)) [
      | inl e ↦
          rw e (ap (λ (v : View). v.adjustment) b ∙ sym (zero_adjustment u.adjustments_today e))
      | inr e ↦ rw e (rw get-insert (rw (==_refl {A = ℕ × String} (u.local_uid, today)) refl))
    ])

    -- What the user's rows say is what was sent.
    pub view_self :
        All (λ t. t < two32) u.warning_thresholds_minutes
        → view today after u.local_uid ≡ pushed format_hm u
    view_self small = ground (
      arith,
      managed_self,
      schedules_self,
      limits_self,
      adjustment_self,
      enforcement_self small,
      groups_self,
      approval_self,
      domains_self,
    )

  module _ (v : ℕ) (n : u.local_uid ≢ v) where
    managed_other : get after.managed_users v ≡ get db.managed_users v
    managed_other = rw i.users (rw get-insert (rw (==_ne u.local_uid v n) refl))

    enforcement_other : get_cached_enforcement after v ≡ get_cached_enforcement db v
    unfolding get_cached_enforcement
    enforcement_other = rw i.enforcement (rw get-insert (rw (==_ne u.local_uid v n) refl))

    groups_other : get_cached_app_groups after v ≡ get_cached_app_groups db v
    unfolding get_cached_app_groups
    groups_other = rw i.groups (rw get-insert (rw (==_ne u.local_uid v n) refl))

    approval_other : get_cached_app_approval after v ≡ get_cached_app_approval db v
    unfolding get_cached_app_approval
    approval_other = rw i.groups (rw get-insert (rw (==_ne u.local_uid v n) refl))

    domains_other : get_cached_blocked_domains after v ≡ get_cached_blocked_domains db v
    unfolding get_cached_blocked_domains
    domains_other = ap sort_texts (
        ap (rows_of v) i.domains
        ∙ insert_domains_other u.local_uid v u.blocked_domains
            (without_user u.local_uid db.cached_blocked_domains) n
        ∙ rows_of-without_other u.local_uid v db.cached_blocked_domains n)

    adjustment_other : get_cached_adjustment after v today ≡ get_cached_adjustment db v today
    unfolding get_cached_adjustment
    adjustment_other = rw i.adjustments (elim (Bool-cases (is_zero u.adjustments_today)) [
      | inl e ↦ rw e refl
      | inr e ↦ rw e (rw get-insert (rw (other_key u.local_uid v today n) refl))
    ])

    schedules_other : get_cached_schedules after v ≡ get_cached_schedules db v
    unfolding get_cached_schedules
    schedules_other =
        insert_schedules_other format_hm u.local_uid v u.schedules db.cached_schedules
          after.cached_schedules n i.schedules

    limits_other : get_cached_daily_limits after v ≡ get_cached_daily_limits db v
    unfolding get_cached_daily_limits
    limits_other =
        insert_limits_other u.local_uid v u.daily_limits db.cached_daily_limits
          after.cached_daily_limits n i.limits

    -- The rows of the other users stay.
    pub view_other : view today after v ≡ view today db v
    view_other = ground (
      arith, managed_other, schedules_other, limits_other, adjustment_other, enforcement_other,
      groups_other, approval_other, domains_other,
    )
