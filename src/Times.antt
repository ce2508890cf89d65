-- ===== src/Times.antt =====
-- The times of day of the crate chrono, which agent and server share: a parameter of the model.
use screenguard.Prelude.{ℕ, ◌-◌, ◌/◌, ◌*◌, ◌<◌, ◌≡◌, Option}
use screenguard.Prelude.Int.{ℤ, max_zero}

abbrev pub billion : ℕ
billion = 1000000000

-- What the code uses of `NaiveTime`. A time is told by its nanoseconds since midnight, by which
-- times are ordered, less than a day and a leap second; `num_seconds` of a difference is rounded towards zero.
pub record NaiveTime (T : Type 0) : Type 0 where
  pub nanos : T → ℕ
  pub nanos_lt : (a : T) → nanos a < 86401 * billion
  pub from_hms_opt : ℕ → ℕ → ℕ → Option T
  pub num_seconds : T → T → ℤ
  pub num_seconds_lem : (a b : T) → max_zero (num_seconds a b) ≡ (nanos a - nanos b) / billion
