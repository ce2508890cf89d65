-- ===== src/Examples/Settings.antt =====
-- A replacement of limits whose second row repeats a day.
use screenguard.Prelude.{eq_nat, eq_string, ℕ, ◌≡◌, refl, false, List, [], ◌∷◌}
use screenguard.Prelude.Int.{ℤ, pos}
use screenguard.Prelude.Sort.{sort_by}
use screenguard.Server.Db.{get_daily_limits}
use screenguard.Server.Settings.Kept.{Replaced, replace_daily_limits-Replaced}
use screenguard.Server.Settings.{new_limit, add_limits, replace_daily_limits}
use screenguard.Examples.Server.{db}

abbrev limits : List (ℕ × ℤ)
limits = (1, pos 30) ∷ (1, pos 60) ∷ (0, pos 90) ∷ []

-- The call fails, and the limit of Monday that was there is gone.
failed :
    ((replace_daily_limits db "p" limits).1 ≡ false)
    × (get_daily_limits (replace_daily_limits db "p" limits).0 "p" ≡ new_limit "p" (1, pos 30) ∷ [])
unfolding replace_daily_limits add_limits get_daily_limits sort_by
failed = (refl, refl)

-- The rows are read by day.
ordered :
    get_daily_limits (replace_daily_limits db "p" ((3, pos 30) ∷ (1, pos 60) ∷ [])).0 "p"
    ≡ new_limit "p" (1, pos 60) ∷ new_limit "p" (3, pos 30) ∷ []
unfolding replace_daily_limits add_limits get_daily_limits sort_by
ordered = refl

replace_daily_limits-Replaced_example :
    Replaced db "p" limits (replace_daily_limits db "p" limits) "p"
replace_daily_limits-Replaced_example = replace_daily_limits-Replaced db "p" limits "p"
