-- ===== src/Usage/Accounting.antt =====
-- crates/agent/src/app_usage.rs, lines 18-58: `AppAccounting`. An `Instant` and a `Duration` are
-- numbers of nanoseconds.
use screenguard.Prelude.{
  eq_nat, ℕ, ◌+◌, ◌-◌, ◌*◌, ◌/◌, ◌%◌, min, List, [], ◌∷◌, Option, none, some, contains,
  if◌then◌else◌, leb,
}
use screenguard.Prelude.Dict.{Dict, get_or, insert, retain}
use screenguard.Prelude.Int.{two64}

abbrev pub Duration : Type 0
Duration = ℕ

abbrev pub Instant : Type 0
Instant = ℕ

abbrev pub second : Duration
second = 1000000000

abbrev pub milli : Duration
milli = 1000000

abbrev pub scan_interval : Duration
scan_interval = 5 * second

pub record AppAccounting : Type 0 where
  pub interval : Duration
  pub last_tick : Option Instant
  pub carry_ms : Dict ℕ ℕ

unfoldable pub new : Duration → AppAccounting
new interval = record { interval = interval; last_tick = none; carry_ms = [] }

-- The two maps that the loop of `seconds` writes.
pub record Counted : Type 0 where
  pub carry : Dict ℕ ℕ
  pub out : Dict ℕ ℕ

-- One round of the loop of `seconds`.
unfoldable pub account_user : ℕ → List ℕ → ℕ → Counted → Counted
account_user elapsed_ms counting uid c =
    let total = (get_or 0 c.carry uid + elapsed_ms) % two64 in
    if contains counting uid
    then record {
      carry = insert c.carry uid (total % 1000);
      out = if leb 1000 total then insert c.out uid (total / 1000) else c.out;
    }
    else c

unfoldable pub account_users : ℕ → List ℕ → List ℕ → Counted → Counted
account_users elapsed_ms counting [] c = c
account_users elapsed_ms counting (uid ∷ uids) c =
    account_users elapsed_ms counting uids (account_user elapsed_ms counting uid c)

-- `now.saturating_duration_since(last).min(interval * 2).as_millis() as u64`
unfoldable pub elapsed_millis : Duration → Instant → Instant → ℕ
elapsed_millis interval last now = (min (now - last) (interval * 2) / milli) % two64

unfoldable pub seconds_since :
    AppAccounting → Option Instant → Instant → List ℕ → List ℕ → AppAccounting × Dict ℕ ℕ
seconds_since a none now counting active = (record a { last_tick = some now }, [])
seconds_since a (some last) now counting active =
    let kept = retain (λ uid ms. contains counting uid) a.carry_ms in
    let c =
      account_users (elapsed_millis a.interval last now) counting active
        (record { carry = kept; out = [] }) in
    (record a { last_tick = some now; carry_ms = c.carry }, c.out)

-- The seconds of each user for this tick, and the state after it. `active` is a set: its elements
-- stand once, in any order.
unfoldable pub seconds : AppAccounting → Instant → List ℕ → List ℕ → AppAccounting × Dict ℕ ℕ
unfolding seconds_since
seconds a now counting active = seconds_since a a.last_tick now counting active
