-- ===== src/Examples/Ingest.antt =====
-- A sync of app totals that is sent twice.
use screenguard.Prelude.{eq_nat, eq_string, eq_pair, ℕ, ◌≡◌, none, some, [], ◌∷◌, ltb, ◌+◌}
use screenguard.Prelude.Dict.{get}
use screenguard.Server.AppUsage.{Calendar, AppUsageEntry, AppUsageSync, Tables, ingest}
use screenguard.Server.Resend.{ingest_all, ingest_again}
use screenguard.Text.Decimal.{to_string}
use screenguard.Examples.Server.{db}

-- Days by number.
instance abbrev days : Calendar ℕ
days = record { print = to_string; succ_opt = λ d. some (d + 1); later = λ a b. ltb b a }

abbrev game : ℕ → AppUsageEntry ℕ
game seconds = record {
  local_uid = 1000;
  date = 5;
  app_id = "desktop:game";
  display_name = "Game";
  icon = none;
  categories = "Game" ∷ [];
  seconds_total = seconds;
}

abbrev sync : ℕ → AppUsageSync ℕ
sync seconds = record { entries = game seconds ∷ []; groups = [] }

abbrev pub tables : Tables
tables = record { db = db; app_groups = []; app_usage = []; app_catalog = []; app_group_usage = [] }

ingest_again_example :
    (get
        (ingest "x" 5 (ingest_all "x" 5 tables (sync 60 ∷ sync 120 ∷ [])) (sync 60)).0.app_usage
        (("u1", "5"), "desktop:game")
      ≡ get
          (ingest_all "x" 5 tables (sync 60 ∷ sync 120 ∷ [])).app_usage
          (("u1", "5"), "desktop:game"))
    × (get
          (ingest "x" 5
            (ingest_all "x" 5 tables (sync 60 ∷ sync 120 ∷ []))
            (sync 60)).0.app_group_usage
          (("u1", "5"), "desktop:game")
        ≡ get
            (ingest_all "x" 5 tables (sync 60 ∷ sync 120 ∷ [])).app_group_usage
            (("u1", "5"), "desktop:game"))
ingest_again_example =
    ingest_again "x" 5 tables (sync 60) (sync 120 ∷ []) (("u1", "5"), "desktop:game")
