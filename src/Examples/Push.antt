-- ===== src/Examples/Push.antt =====
-- A push of the configuration of one child.
use screenguard.Prelude.{eq_nat, ℕ, ◌≡◌, refl, false, none, some, [], ◌∷◌, arith}
use screenguard.Prelude.Int.{pos}
use screenguard.Models.{UserConfig, managed}
use screenguard.Agent.Tables.{Db}
use screenguard.Agent.Config.{apply_config_push}
use screenguard.Agent.View.{view}
use screenguard.Agent.Reads.{IsPush, expected, apply_config_push-view}
use screenguard.Text.Decimal.{to_string}
use screenguard.Examples.Agent.{db}

abbrev pub child : UserConfig ℕ
child = record {
  local_uid = 1000;
  profile_id = "p";
  status = managed;
  schedules = record { day_of_week = 0; start_time = 480; end_time = 1200 } ∷ [];
  daily_limits =
      record { day_of_week = 0; allowed_minutes = 60 }
      ∷ record { day_of_week = 6; allowed_minutes = 90 }
      ∷ [];
  adjustments_today = pos 10;
  adjustment_message = none;
  lockout_grace_minutes = 5;
  preserve_tasks_on_lock = false;
  warning_thresholds_minutes = 15 ∷ 5 ∷ [];
  language = "en";
  blocked_domains = "b.example" ∷ "a.example" ∷ "b.example" ∷ [];
  app_groups = [];
  app_approval = none;
}

child-IsPush : IsPush to_string "2026-01-05" (child ∷ [])
child-IsPush =
    ((omega arith, (omega arith, tt)), (refl, tt), (refl, refl, (refl, refl, tt)), tt, tt)

apply_config_push-view_example :
    (after : Db) × (apply_config_push to_string "2026-01-05" db (child ∷ []) ≡ some after)
    × ((v : ℕ) → view "2026-01-05" after v ≡ expected to_string "2026-01-05" v (child ∷ []))
apply_config_push-view_example =
    apply_config_push-view to_string "2026-01-05" db (child ∷ []) child-IsPush
