-- ===== src/Examples/Limits.antt =====
-- Group limits and warnings at concrete inputs, some from the tests of crates/agent/src/app_limits.rs.
use mathlib.Core.Bool.{false≢true}
use screenguard.Prelude.{
  ℕ, ◌≡◌, ◌≢◌, refl, ◌↔◌, String, List, [], ◌∷◌, none, some, true, false, arith, contains,
  eq_string, eq_iff,
}
use screenguard.Prelude.Dict.{Dict, get, insert}
use screenguard.Prelude.Int.{ℤ, pos, ◌+ℤ◌, ◌-ℤ◌, wrap_i32, wrap_i64, as_i32, as_i64, div_ℤ}
use screenguard.Models.{DailyLimit, AppGroupConfig}
use screenguard.Limits.Names.{group_name}
use screenguard.Limits.Status.{
  GroupStatus, blocked, exhausted, limit_on, status_of, group_status, InRange,
}
use screenguard.Limits.Warnings.{
  minutes_left, reached, set_extend, still_fired, silent, crossed, warn_group, due_warnings,
}
use screenguard.Limits.Once.{due_warnings_once, IsFresh, warn_group_iff}

abbrev games : AppGroupConfig
games = record {
  id = "games";
  name = "Games";
  builtin = some "games";
  rules = [];
  daily_limits =
      record { day_of_week = 0; allowed_minutes = 60 }
      ∷ record { day_of_week = 6; allowed_minutes = 0 }
      ∷ [];
  adjustment_today = pos 0;
}

abbrev web : AppGroupConfig
web = record {
  id = "web";
  name = "web";
  builtin = none;
  rules = [];
  daily_limits = record { day_of_week = 1; allowed_minutes = 30 } ∷ [];
  adjustment_today = pos 0;
}

abbrev monday : DailyLimit
monday = record { day_of_week = 0; allowed_minutes = 60 }

abbrev local_time : Dict String ℕ
local_time = ("games", 1200) ∷ []

abbrev other_time : Dict String ℕ
other_time = ("games", 600) ∷ []

abbrev extra : Dict String ℤ
extra = ("games", pos 30) ∷ []

combines :
    group_status 0 local_time other_time [] "pl" (games ∷ web ∷ [])
    ≡ record {
      group_id = "games";
      name = "Gry";
      limit_minutes = 60;
      used_seconds = 1800;
      remaining_seconds = pos 1800;
    }
      ∷ []
unfolding group_status status_of limit_on group_name get wrap_i64 as_i64 ◌-ℤ◌ ◌+ℤ◌
combines = refl

abbrev games_InRange : InRange 0 local_time other_time extra "en" games monday
games_InRange = record {
  minutes = omega arith;
  adjustment = unfold get in omega arith;
  seconds = unfold get in omega arith;
}

abbrev low : GroupStatus
low = record {
  group_id = "games";
  name = "Games";
  limit_minutes = 60;
  used_seconds = 3360;
  remaining_seconds = pos 240;
}

abbrev plenty : GroupStatus
plenty = record {
  group_id = "web";
  name = "web";
  limit_minutes = 60;
  used_seconds = 60;
  remaining_seconds = pos 3540;
}

abbrev used_now : List String
used_now = "games" ∷ "web" ∷ []

abbrev thresholds : List ℕ
thresholds = 15 ∷ 5 ∷ 1 ∷ []

warns_once : (due_warnings used_now thresholds (low ∷ plenty ∷ []) []).1 ≡ ("games", pos 4) ∷ []
unfolding due_warnings warn_group silent crossed still_fired set_extend minutes_left reached
    exhausted blocked get insert wrap_i32 wrap_i64 as_i32 as_i64 div_ℤ
warns_once = refl

games-ne-web : ◌≢◌ {A = String} "games" "web"
games-ne-web p = false≢true ((eq_iff "games" "web").1 p)

due_warnings_once_example :
    (due_warnings used_now thresholds
      (low ∷ plenty ∷ [])
      (due_warnings used_now thresholds (low ∷ plenty ∷ []) []).0).1
    ≡ []
due_warnings_once_example =
    due_warnings_once used_now thresholds (low ∷ plenty ∷ []) [] ((games-ne-web, tt), (tt, tt))

warn_group_iff_example : ((warn_group used_now thresholds low []).1 ≡ some ("games", pos 4)) ↔ (
    (◌≡◌ {A = String × ℤ} ("games", pos 4) (low.group_id, minutes_left low))
    × (exhausted low ≡ false)
    × (blocked low ≡ false)
    × (contains used_now low.group_id ≡ true)
    × ((t : ℕ) × IsFresh used_now thresholds low [] t))
warn_group_iff_example = warn_group_iff used_now thresholds low [] ("games", pos 4)
