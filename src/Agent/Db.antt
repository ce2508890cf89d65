-- ===== src/Agent/Db.antt =====
-- crates/agent/src/db.rs: the queries of the decision to lock. The queries succeed.
use screenguard.Prelude.{
  eq_nat, eq_string, eq_pair, ℕ, ◌+◌, true, false, Option, none, some, List, [], ◌∷◌, String, ◌==◌,
  or_default,
}
use screenguard.Prelude.Dict.{get, insert}
use screenguard.Prelude.Int.{ℤ, pos}
use screenguard.Text.{split, trim, parse_u32, filter_map}
pub use screenguard.Agent.Tables.{
  CachedSchedule, CachedLimit, CachedEnforcement, EnforcementRow, UsageRow, Db,
}

-- The rows of a user.
abbrev pub rows_of {ℓ} : {A : Type ℓ} → ℕ → List (ℕ × A) → List A
rows_of uid [] = []
rows_of uid ((u, a) ∷ rows) =
    let rest = rows_of uid rows in elim (u == uid) [ true ↦ a ∷ rest | false ↦ rest ]

unfoldable pub get_cached_schedules : Db → ℕ → List CachedSchedule
get_cached_schedules db uid = rows_of uid db.cached_schedules

unfoldable pub get_cached_daily_limits : Db → ℕ → List CachedLimit
get_cached_daily_limits db uid = rows_of uid db.cached_daily_limits

unfoldable pub get_cached_adjustment : Db → ℕ → String → ℤ
get_cached_adjustment db uid date = or_default (pos 0) (get db.cached_adjustments (uid, date))

abbrev pub default_row : EnforcementRow
default_row = record {
  lockout_grace_minutes = 5;
  warning_thresholds = "15,5,1";
  language = "en";
  preserve_tasks_on_lock = false;
}

unfoldable pub get_cached_enforcement : Db → ℕ → CachedEnforcement
get_cached_enforcement db uid =
    let row = or_default default_row (get db.cached_enforcement uid) in
    record {
      lockout_grace_minutes = row.lockout_grace_minutes;
      warning_thresholds =
          filter_map (λ (s : String). parse_u32 (trim s)) (split b',' row.warning_thresholds);
      language = row.language;
      preserve_tasks_on_lock = row.preserve_tasks_on_lock;
    }

abbrev pub used_in : Option UsageRow → ℕ
used_in none = 0
used_in (some row) = row.used_seconds

unfoldable pub get_usage_seconds : Db → ℕ → String → ℕ
get_usage_seconds db uid date = used_in (get db.usage_log (uid, date))

-- A row that changes is to be sent again.
unfoldable pub add_usage_seconds : Db → ℕ → String → ℕ → Db
add_usage_seconds db uid date seconds =
    let used = used_in (get db.usage_log (uid, date)) in
    record db {
      usage_log =
          insert db.usage_log (uid, date)
            (record { used_seconds = used + seconds; synced = false });
    }

abbrev pub on_row : (UsageRow → UsageRow) → Db → ℕ × String → Option UsageRow → Db
on_row f db key none = db
on_row f db key (some row) = record db { usage_log = insert db.usage_log key (f row) }

unfoldable pub mark_usage_synced : Db → ℕ → String → Db
mark_usage_synced db uid date =
    on_row (λ row. record row { synced = true }) db (uid, date) (get db.usage_log (uid, date))

unfoldable pub reset_usage_for_date : Db → ℕ → String → Db
reset_usage_for_date db uid date =
    on_row (λ row. record { used_seconds = 0; synced = false }) db (uid, date)
      (get db.usage_log (uid, date))
