-- ===== src/Usage/Runs.antt =====
-- A run of ticks: what a user is given over the day is the time that was counted.
use screenguard.Prelude.{eq_nat, ℕ, ◌+◌, ◌*◌, ◌/◌, ◌≡◌, List, [], ◌∷◌, true, contains, arith, All}
use screenguard.Prelude.Dict.{get_or}
use screenguard.Usage.Accounting.{Instant, AppAccounting, seconds}
use screenguard.Usage.Users.{IsSetOf}
use screenguard.Usage.Carry.{IsValid, counted_millis, seconds-carry, seconds-IsValid}

-- One call of `seconds`.
pub record Tick : Type 0 where
  pub now : Instant
  pub counting : List ℕ
  pub active : List ℕ

unfoldable pub after : AppAccounting → List Tick → AppAccounting
after a [] = a
after a (t ∷ ts) = after (seconds a t.now t.counting t.active).0 ts

-- The seconds given to a user, and the milliseconds counted, over all the ticks.
unfoldable pub given : ℕ → AppAccounting → List Tick → ℕ
given u a [] = 0
given u a (t ∷ ts) =
    get_or 0 (seconds a t.now t.counting t.active).1 u
    + given u (seconds a t.now t.counting t.active).0 ts

unfoldable pub counted : AppAccounting → List Tick → ℕ
counted a [] = 0
counted a (t ∷ ts) = counted_millis a t.now + counted (seconds a t.now t.counting t.active).0 ts

-- The user counts and runs something at the tick.
pub record IsUsing (u : ℕ) (t : Tick) : Type 0 where
  pub set : IsSetOf t.active
  pub running : contains t.active u ≡ true
  pub counts : contains t.counting u ≡ true

run_balance :
    (u : ℕ) (a : AppAccounting) (ts : List Tick)
    → IsValid a
    → All (IsUsing u) ts
    → (given u a ts * 1000 + get_or 0 (after a ts).carry_ms u
        ≡ get_or 0 a.carry_ms u + counted a ts)
      × IsValid (after a ts)
unfolding given counted after
run_balance u a [] v h = (omega arith, v)
run_balance u a (t ∷ ts) v h =
    let a' = (seconds a t.now t.counting t.active).0 in
    let v' = seconds-IsValid a t.now t.counting t.active h.0.set v in
    let (one, small) =
      seconds-carry a t.now t.counting t.active u v h.0.set h.0.running h.0.counts in
    let (rest, valid) = run_balance u a' ts v' h.1 in (omega (arith, one, rest), valid)

-- Over any number of ticks at which the user's session counts and an app runs: the seconds given
-- are all the counted milliseconds and the first carry, less a rest below one second, so rounding
-- never adds up.
pub run_exact :
    (u : ℕ) (a : AppAccounting) (ts : List Tick)
    → IsValid a
    → All (IsUsing u) ts
    → given u a ts ≡ (get_or 0 a.carry_ms u + counted a ts) / 1000
run_exact u a ts v h =
    let (balance, valid) = run_balance u a ts v h in omega (arith, balance, valid.carries u)
