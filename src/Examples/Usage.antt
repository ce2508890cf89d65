-- ===== src/Examples/Usage.antt =====
-- The accounting at concrete ticks.
use screenguard.Prelude.{eq_nat, ℕ, ◌+◌, ◌*◌, ◌/◌, ◌≡◌, refl, List, [], ◌∷◌, some, arith}
use screenguard.Prelude.Dict.{get, get_or, insert, retain}
use screenguard.Usage.Accounting.{
  AppAccounting, scan_interval, milli, elapsed_millis, account_user, account_users, seconds,
}
use screenguard.Usage.Carry.{IsValid}
use screenguard.Usage.Runs.{IsUsing, Tick, given, counted, run_exact}

abbrev started : AppAccounting
started = record { interval = scan_interval; last_tick = some 0; carry_ms = (1000, 300) ∷ [] }

started-IsValid : IsValid started
unfolding get
started-IsValid = record {
  dict = (refl, tt);
  carries = λ u. ground arith;
  interval_fits = omega arith;
}

abbrev kids : List ℕ
kids = 1000 ∷ []

later : (seconds started (5300 * milli) kids kids).1 ≡ (1000, 5) ∷ []
unfolding seconds elapsed_millis account_users account_user retain get insert
later = refl

abbrev tick_at : ℕ → Tick
tick_at now = record { now = now; counting = kids; active = kids }

abbrev three_ticks : List Tick
three_ticks = tick_at (5300 * milli) ∷ tick_at (10600 * milli) ∷ tick_at (15900 * milli) ∷ []

nothing_lost : given 1000 started three_ticks ≡ 16
unfolding given seconds elapsed_millis account_users account_user retain get insert
nothing_lost = refl

using : (now : ℕ) → IsUsing 1000 (tick_at now)
using now = record { set = (refl, tt); running = refl; counts = refl }

run_exact_example :
    given 1000 started three_ticks
    ≡ (get_or 0 started.carry_ms 1000 + counted started three_ticks) / 1000
run_exact_example =
    run_exact 1000 started three_ticks started-IsValid
      (using 5300000000, (using 10600000000, (using 15900000000, tt)))
