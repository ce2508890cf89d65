-- ===== src/Agent/Timer.antt =====
-- crates/agent/src/heartbeat.rs, lines 40-72 and 991-1004: the timer of a user's screen time. An
-- instant is a number of nanoseconds; a timer that is not counting is `none`.
use screenguard.Prelude.{
  eq_nat, ℕ, ◌+◌, ◌-◌, ◌*◌, ◌/◌, ◌%◌, ◌≤◌, ◌≡◌, Bool, true, false, Option, none, some, List, [],
  ◌∷◌, min, ltb, if◌then◌else◌, arith,
}
use screenguard.Prelude.Dict.{Dict, insert, get}
use screenguard.Prelude.Int.{two32}
use screenguard.Times.{billion}

abbrev pub or_insert : Dict ℕ (Option ℕ) → ℕ → Option (Option ℕ) → Dict ℕ (Option ℕ)
or_insert active_since uid none = insert active_since uid none
or_insert active_since uid (some timer) = active_since

unfoldable pub update_usage_timer : ℕ → ℕ → Bool → Bool → Dict ℕ (Option ℕ) → Dict ℕ (Option ℕ)
update_usage_timer now uid false true active_since = insert active_since uid (some now)
update_usage_timer now uid true false active_since = insert active_since uid none
update_usage_timer now uid false false active_since =
    or_insert active_since uid (get active_since uid)
update_usage_timer now uid true true active_since = active_since

unfoldable pub advance_usage_timer : ℕ → ℕ → ℕ → ℕ → ℕ
advance_usage_timer since counted_secs interval now =
    if ltb (interval * 2) (now - since) then now else since + counted_secs * billion

-- The seconds that a heartbeat counts for a timer that runs since `since`.
unfoldable pub active_secs : ℕ → ℕ → ℕ → ℕ
active_secs interval since now = min ((now - since) / billion) (interval / billion) % two32

-- The heartbeats of one user whose timer counts all the time: each reads the clock for the elapsed
-- time, and again to move the timer. The timer after them, and the seconds counted.
unfoldable pub beats : ℕ → ℕ → List (ℕ × ℕ) → ℕ × ℕ
beats interval since [] = (since, 0)
beats interval since ((now, later) ∷ rest) =
    let secs = active_secs interval since now in
    let end = beats interval (advance_usage_timer since secs interval later) rest in
    (end.0, secs + end.1)

-- The clock does not run backwards, and no heartbeat is more than two intervals late.
abbrev pub IsSteady : ℕ → ℕ → List (ℕ × ℕ) → Type 0
IsSteady interval since [] = Unit
IsSteady interval since ((now, later) ∷ rest) =
    (since ≤ now)
    × (now ≤ later)
    × (later - since ≤ interval * 2)
    × IsSteady interval (since + active_secs interval since now * billion) rest

abbrev pub last_read : ℕ → List (ℕ × ℕ) → ℕ
last_read since [] = since
last_read since ((now, later) ∷ rest) = last_read now rest

active_secs-le :
    (interval since now : ℕ) → since ≤ now → since + active_secs interval since now * billion ≤ now
unfolding active_secs
active_secs-le interval since now h = ground arith

advance_usage_timer-steady :
    (since secs interval now : ℕ)
    → now - since ≤ interval * 2
    → advance_usage_timer since secs interval now ≡ since + secs * billion
unfolding advance_usage_timer
advance_usage_timer-steady since secs interval now h = ground arith

last_read-le : (a b : ℕ) (rest : List (ℕ × ℕ)) → a ≤ b → last_read a rest ≤ last_read b rest
last_read-le a b [] h = h
last_read-le a b (r ∷ rest) h = ground arith

-- In a run of heartbeats none of which is more than two intervals late, by a clock that does not
-- run backwards, the timer has moved by exactly the seconds counted, so that no fraction of a second
-- is dropped or counted twice, and it is not past the last reading of the clock.
pub beats_exact :
    (interval since : ℕ) (run : List (ℕ × ℕ))
    → IsSteady interval since run
    → ((beats interval since run).0 ≡ since + (beats interval since run).1 * billion)
      × ((beats interval since run).0 ≤ last_read since run)
unfolding beats
beats_exact interval since [] h = (omega arith, omega arith)
beats_exact interval since ((now, later) ∷ rest) h =
    let secs = active_secs interval since now in
    rw (advance_usage_timer-steady since secs interval later h.2) (
      ground (
        arith,
        beats_exact interval (since + secs * billion) rest h.3,
        last_read-le (since + secs * billion) now rest (active_secs-le interval since now h.0),
      ))
