-- ===== src/Usage/Carry.antt =====
-- One tick of the accounting: no millisecond of an active user is lost or counted twice.
use screenguard.Prelude.{
  eq_nat, ℕ, ◌+◌, ◌*◌, ◌/◌, ◌≤◌, ◌<◌, ◌≡◌, refl, List, [], Option, none, some, true, contains,
  arith,
}
use screenguard.Prelude.Dict.{get, get_or, retain, get-retain, IsDict, retain-IsDict}
use screenguard.Prelude.Int.{two63}
use screenguard.Usage.Accounting.{
  seconds_since, Duration, Instant, AppAccounting, Counted, elapsed_millis, milli, seconds,
}
use screenguard.Usage.Users.{
  IsSetOf, account_users_lem, account_users_idle, account_users_other, account_users-IsDict,
}

-- The state between ticks: carries below a second, and an interval whose double fits `u64`
-- milliseconds.
pub record IsValid (a : AppAccounting) : Type 0 where
  pub dict : IsDict a.carry_ms
  pub carries : (u : ℕ) → get_or 0 a.carry_ms u < 1000
  pub interval_fits : a.interval * 2 / milli < two63

-- The milliseconds that a tick counts: none at the first tick, and at most two intervals.
abbrev millis_since : AppAccounting → Option Instant → Instant → ℕ
millis_since a none now = 0
millis_since a (some last) now = elapsed_millis a.interval last now

abbrev pub counted_millis : AppAccounting → Instant → ℕ
counted_millis a now = millis_since a a.last_tick now

pub elapsed_millis-le :
    (interval : Duration) (last now : Instant)
    → elapsed_millis interval last now ≤ interval * 2 / milli
unfolding elapsed_millis
elapsed_millis-le interval last now = omega arith

module _ (a : AppAccounting) (now : Instant) (counting active : List ℕ) where
  abbrev retained : Counted
  retained = record { carry = retain (λ uid ms. contains counting uid) a.carry_ms; out = [] }

  retained_lem :
      (u : ℕ)
      → IsValid a
      → (get_or 0 retained.carry u < 1000)
        × (contains counting u ≡ true → get_or 0 retained.carry u ≡ get_or 0 a.carry_ms u)
  retained_lem u v =
      ground (arith, get-retain (λ uid ms. contains counting uid) a.carry_ms u v.dict, v.carries u)

  since-carry :
      (u : ℕ) (o : Option Instant)
      → IsValid a
      → IsSetOf active
      → contains active u ≡ true
      → contains counting u ≡ true
      → let (a', out) = seconds_since a o now counting active in
        (get_or 0 out u * 1000 + get_or 0 a'.carry_ms u
          ≡ get_or 0 a.carry_ms u + millis_since a o now)
        × (get_or 0 a'.carry_ms u < 1000)
  unfolding seconds_since get
  since-carry u none v set active_u counting_u = (omega arith, v.carries u)
  since-carry u (some last) v set active_u counting_u =
      let (small, same) = retained_lem u v in
      rw (← same counting_u) (
        account_users_lem (elapsed_millis a.interval last now) counting active u retained set
          active_u counting_u small
          (omega (arith, elapsed_millis-le a.interval last now, v.interval_fits)) refl)

  since_carries :
      (u : ℕ) (o : Option Instant)
      → IsValid a
      → IsSetOf active
      → get_or 0 (seconds_since a o now counting active).0.carry_ms u < 1000
  unfolding seconds_since
  since_carries u none v set = v.carries u
  since_carries u (some last) v set =
      let elapsed = elapsed_millis a.interval last now in
      ground (
        arith,
        account_users_other elapsed counting active u retained,
        account_users_idle elapsed counting active u retained,
        since-carry u (some last) v set,
        (retained_lem u v).0,
      )

  since-IsDict :
      (o : Option Instant)
      → IsDict a.carry_ms
      → IsDict (seconds_since a o now counting active).0.carry_ms
  unfolding seconds_since
  since-IsDict none d = d
  since-IsDict (some last) d =
      account_users-IsDict (elapsed_millis a.interval last now) counting active retained
        (retain-IsDict (λ uid ms. contains counting uid) a.carry_ms d)

  since-interval :
      (o : Option Instant) → (seconds_since a o now counting active).0.interval ≡ a.interval
  unfolding seconds_since
  since-interval none = refl
  since-interval (some last) = refl

  pub seconds-interval : (seconds a now counting active).0.interval ≡ a.interval
  unfolding seconds
  seconds-interval = since-interval a.last_tick

  -- For an active user whose session counts: the seconds given out and the new carry make up the
  -- old carry and the milliseconds since the last tick, and the carry stays below a second.
  pub seconds-carry :
      (u : ℕ)
      → IsValid a
      → IsSetOf active
      → contains active u ≡ true
      → contains counting u ≡ true
      → let (a', out) = seconds a now counting active in
        (get_or 0 out u * 1000 + get_or 0 a'.carry_ms u
          ≡ get_or 0 a.carry_ms u + counted_millis a now)
        × (get_or 0 a'.carry_ms u < 1000)
  unfolding seconds
  seconds-carry u = since-carry u a.last_tick

  -- Every tick keeps the state well-formed.
  pub seconds-IsValid : IsSetOf active → IsValid a → IsValid (seconds a now counting active).0
  seconds-IsValid set v = record {
    dict = unfold seconds in since-IsDict a.last_tick v.dict;
    carries = λ u. unfold seconds in since_carries u a.last_tick v set;
    interval_fits = rw seconds-interval v.interval_fits;
  }
