-- ===== src/Examples/Armed.antt =====
-- An answer of the server that locks one child and warns another.
use screenguard.Prelude.{eq_nat, ℕ, ◌≡◌, refl, none, List, [], ◌∷◌}
use screenguard.Prelude.Dict.{get}
use screenguard.Prelude.Int.{pos, as_i32}
use screenguard.Models.{EnforceAction, warn, lock}
use screenguard.Agent.Armed.{
  Armed, arm, disarm, obey, obey_all, store_answers, remaining_update, start_lock, unlock,
  fire_threshold_notifications, warn_user,
}
use screenguard.Agent.Db.{get_cached_enforcement}
use screenguard.Agent.State.{upsert_server_remaining}
use screenguard.Agent.AppUsage.{save_group_elsewhere}
use screenguard.Agent.Obeys.{Obeyed, SameElse, last_answer, remaining_update-Obeyed}
use screenguard.Server.Remaining.{RemainingEntry}
use screenguard.Examples.Agent.{empty}
use screenguard.Examples.Times.{minutes}

abbrev entry : ℕ → EnforceAction → ℕ → RemainingEntry ℕ
entry uid action left = record {
  local_uid = uid;
  remaining_minutes = pos left;
  limit_today_minutes = none;
  used_today_minutes = 0;
  adjustments_today_minutes = pos 0;
  current_window_ends_at = none;
  next_window_starts_at = none;
  enforce = action;
  group_usage_elsewhere = [];
}

abbrev before : Armed
before = record { db = empty; locked_uids = 1001 ∷ []; notified_thresholds = [] }

abbrev answers : List (RemainingEntry ℕ)
answers = entry 1000 lock 0 ∷ entry 1001 warn 4 ∷ []

actions :
    (remaining_update "2026-01-05" before answers).1
    ≡ start_lock 1000
      ∷ unlock 1001
      ∷ warn_user 1001 (pos 15) (pos 4)
      ∷ warn_user 1001 (pos 5) (pos 4)
      ∷ []
unfolding remaining_update obey_all obey arm disarm fire_threshold_notifications
    get_cached_enforcement get store_answers upsert_server_remaining save_group_elsewhere as_i32
actions = refl

remaining_update-Obeyed_example :
    Obeyed {C = ℕ} "2026-01-05" 0 540 1000 before
      (remaining_update "2026-01-05" before answers).0
      (last_answer 1000 none answers)
    × SameElse before.db (remaining_update "2026-01-05" before answers).0.db
remaining_update-Obeyed_example =
    remaining_update-Obeyed {C = ℕ} "2026-01-05" 0 540 before answers 1000
