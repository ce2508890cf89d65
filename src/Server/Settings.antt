-- ===== src/Server/Settings.antt =====
-- crates/server/src/db.rs, lines 1457-1477: the replacement of a profile's daily limits. There is no
-- transaction: a row that breaks a constraint ends it, and what was done before it stays. The profile
-- exists, as the API makes sure.
use screenguard.Prelude.{
  eq_nat, eq_string, ==_refl, ==_ne, ==_eq, ==_cases, ℕ, ◌≤◌, ◌<◌, ◌≡◌, ◌≢◌, ◌⊎◌, refl, sym, ◌∙◌,
  ap, subst, Bool, true, false, not, ◌&&◌, List, [], ◌∷◌, ◌++◌, String, ◌==◌, any, any_iff,
  any-append, filter, map, leb, if◌then◌else◌, arith, All, Any, Bool-cases, inl, inr,
}
use screenguard.Prelude.Int.{ℤ, pos, negsuc, leb_ℤ, ◌≤ℤ◌}
use screenguard.Prelude.Sort.{sort_by, Apart}
use screenguard.Server.Db.{DailyLimit, Db, limit_before, get_daily_limits}
pub mod Kept

abbrev pub new_limit : String → ℕ × ℤ → DailyLimit
new_limit profile l = record { profile_id = profile; day_of_week = l.0; allowed_minutes = l.1 }

abbrev pub own_rows : Db → String → List DailyLimit
own_rows db profile = filter (λ (l : DailyLimit). l.profile_id == profile) db.daily_limits

-- The constraints of the table: a day of the week, minutes from 0, one row for a profile and a day.
abbrev pub fits : List DailyLimit → ℕ × ℤ → Bool
fits own l =
    leb l.0 6 && leb_ℤ (pos 0) l.1 && not (any (λ (r : DailyLimit). r.day_of_week == l.0) own)

abbrev pub with_limit : Db → String → ℕ × ℤ → Db
with_limit db profile l = record db { daily_limits = db.daily_limits ++ (new_limit profile l ∷ []) }

-- The database, and whether all inserts succeeded.
unfoldable pub add_limits : Db → String → List (ℕ × ℤ) → Db × Bool
add_limits db profile [] = (db, true)
add_limits db profile (l ∷ limits) =
    let rest = add_limits (with_limit db profile l) profile limits in
    if fits (own_rows db profile) l then rest else (db, false)

abbrev pub without_limits : Db → String → Db
without_limits db profile = record db {
  daily_limits = filter (λ (l : DailyLimit). not (l.profile_id == profile)) db.daily_limits;
}

unfoldable pub replace_daily_limits : Db → String → List (ℕ × ℤ) → Db × Bool
replace_daily_limits db profile limits = add_limits (without_limits db profile) profile limits
