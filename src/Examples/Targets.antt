-- ===== src/Examples/Targets.antt =====
-- The choice of targets, from the tests of crates/agent/src/app_enforce.rs.
use screenguard.Prelude.{
  eq_nat, eq_string, eq_pair, ℕ, ◌≡◌, refl, List, [], ◌∷◌, none, some, Bool, true, false, arith,
  All, Any, here, map,
}
use screenguard.Prelude.Dict.{Dict, get, insert}
use screenguard.Prelude.Int.{pos}
use screenguard.Apps.Id.{AppId, desktop, display, prefix, eq_app_id}
use screenguard.Apps.Groups.{category, assign_group, explicit, group_matches, hits}
use screenguard.Models.{AppApprovalConfig, AppGroupConfig}
use screenguard.Limits.Status.{GroupStatus, exhausted, blocked}
use screenguard.Closing.Targets.{
  RunningProc, Reason, limit, Target, Shown, chosen_targets, targets, target_of, skipped,
  unapproved, limited, hit, group_of, limit_target, shown_of, app_name_of, categories_of, mark_top,
  parents, of_app, targeted, by_pid_from,
}
use screenguard.Closing.Chosen.{IsTargetOf, targets-IsTargetOf}
use screenguard.Closing.Unapproved.{ClosesAtOnce, unapproved_closed}

abbrev supertux : AppId
supertux = record { kind = desktop; name = "supertux" }

abbrev game : RunningProc
game = record {
  pid = 10;
  ppid = 900;
  autostart = false;
  start_ticks = 110;
  uid = 1001;
  app_id = supertux;
  comm = "supertux2";
  exe = some "/usr/bin/supertux2";
}

abbrev helper : RunningProc
helper = record game { pid = 11; ppid = 10; start_ticks = 111 }

abbrev parents_game : RunningProc
parents_game = record game { pid = 13; uid = 1000 }

abbrev tray : RunningProc
tray = record game { pid = 15; comm = "screenguard-tray" }

abbrev procs : List RunningProc
procs = game ∷ helper ∷ parents_game ∷ tray ∷ []

abbrev names : Dict (ℕ × AppId) Shown
names = ((1001, supertux), record { name = "SuperTux"; icon = none; categories = "Game" ∷ [] }) ∷ []

abbrev games_config : AppGroupConfig
games_config = record {
  id = "games";
  name = "Games";
  builtin = some "games";
  rules = record { kind = category; value = "Game"; exclude = false } ∷ [];
  daily_limits = [];
  adjustment_today = pos 0;
}

abbrev used_up : GroupStatus
used_up = record {
  group_id = "games";
  name = "Games";
  limit_minutes = 60;
  used_seconds = 3600;
  remaining_seconds = pos 0;
}

abbrev status : Dict ℕ (List GroupStatus)
status = (1001, used_up ∷ []) ∷ []

abbrev groups : Dict ℕ (List AppGroupConfig)
groups = (1001, games_config ∷ []) ∷ []

abbrev approval : Dict ℕ AppApprovalConfig
approval = (1001, record { approved = []; denied = [] }) ∷ []

-- The process id, the top mark and the reason of each target.
abbrev summary : List Target → List (ℕ × Bool × Reason)
summary ts = map (λ (t : Target). (t.pid, t.top, t.reason)) ts

over_limit :
    summary (targets procs status groups [] names (1001 ∷ []))
    ≡ (10, true, limit) ∷ (11, false, limit) ∷ []
unfolding targets chosen_targets target_of skipped unapproved limited hit group_of limit_target
    shown_of app_name_of categories_of mark_top parents of_app targeted by_pid_from get insert
    display prefix assign_group explicit group_matches hits exhausted blocked
over_limit = refl

targets-IsTargetOf_example :
    All
      (λ (t : Target). Any (IsTargetOf status groups [] names (1001 ∷ []) t) procs)
      (targets procs status groups [] names (1001 ∷ []))
targets-IsTargetOf_example = targets-IsTargetOf status groups [] names (1001 ∷ []) procs

unapproved_closed_example :
    Any (ClosesAtOnce game) (targets procs status groups approval names (1001 ∷ []))
unfolding get
unapproved_closed_example =
    unapproved_closed status groups approval names (1001 ∷ []) procs game
      (record { approved = []; denied = [] }) (here refl) (omega arith) refl refl refl refl refl
      refl
