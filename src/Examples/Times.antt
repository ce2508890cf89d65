-- ===== src/Examples/Times.antt =====
-- The time left at concrete inputs, on a clock that tells minutes.
use screenguard.Prelude.{
  eq_nat, eq_string, eq_pair, ℕ, ◌+◌, ◌-◌, ◌*◌, ◌/◌, ◌%◌, ◌≡◌, ◌&&◌, Option, none, some, ltb,
  if◌then◌else◌, arith,
}
use screenguard.Prelude.Int.{pos, ◌-ℤ◌, max_zero, div_ℤ}
use screenguard.Times.{NaiveTime, billion}

abbrev pub minute_nanos : ℕ → ℕ
minute_nanos n = (n % 1440) * 60 * billion

abbrev pub from_hms : ℕ → ℕ → ℕ → Option ℕ
from_hms h m s = if ltb h 24 && ltb m 60 then some (h * 60 + m) else none

pub minute_difference :
    (a b : ℕ)
    → max_zero (div_ℤ (pos (minute_nanos a) -ℤ pos (minute_nanos b)) billion)
      ≡ (minute_nanos a - minute_nanos b) / billion
unfolding ◌-ℤ◌ div_ℤ
minute_difference a b = ground arith

instance abbrev pub minutes : NaiveTime ℕ
minutes = record {
  nanos = minute_nanos;
  nanos_lt = λ a. omega arith;
  from_hms_opt = from_hms;
  num_seconds = λ a b. div_ℤ (pos (minute_nanos a) -ℤ pos (minute_nanos b)) billion;
  num_seconds_lem = minute_difference;
}
