-- ===== src/Server/Windows.antt =====
-- crates/server/src/remaining.rs, lines 258-286, and `parse_time` of crates/server/src/db.rs: the
-- window that is open, and the next to open.
use screenguard.Prelude.{
  eq_nat, ℕ, ◌&&◌, Option, none, some, List, [], ◌∷◌, String, ◌==◌, filter, leb, ltb, if◌then◌else◌,
  ◌>>=◌,
}
use screenguard.Times.{NaiveTime}
use screenguard.Text.{filter_map}
use screenguard.Server.Db.{Schedule}

-- What else the server uses of chrono and chrono_tz: reading a time by the format %H:%M, its hour
-- and minute, and a time of one zone in another, which is missing where the local time is not single.
pub record Zones (T : Type 0) : Type 0 where
  pub parse_from_str : String → Option T
  pub hour : T → ℕ
  pub minute : T → ℕ
  pub in_zone : String → String → T → Option T

module _ {T : Type 0} ⦃c : NaiveTime T⦄ where
  -- `min()`: the first of the least
  abbrev pub sooner : T → Option T → T
  sooner t none = t
  sooner t (some u) = if leb (c.nanos t) (c.nanos u) then t else u

  abbrev pub min_time : List T → Option T
  min_time [] = none
  min_time (t ∷ ts) = some (sooner t (min_time ts))

module _ {T : Type 0} ⦃c : NaiveTime T⦄ ⦃z : Zones T⦄ where
  unfoldable pub parse_time : String → Option T
  parse_time s = z.parse_from_str s

  unfoldable pub active_end : T → Schedule → Option T
  active_end now s = parse_time s.start_time >>= λ start. parse_time s.end_time >>= λ end.
      if leb (c.nanos start) (c.nanos now) && ltb (c.nanos now) (c.nanos end)
      then some end
      else none

  unfoldable pub next_start : ℕ → T → Schedule → Option T
  next_start weekday now s = parse_time s.start_time >>= λ start.
      if s.day_of_week == weekday && ltb (c.nanos now) (c.nanos start) then some start else none

  unfoldable pub check_schedule_windows : List Schedule → ℕ → T → Option T × Option T
  check_schedule_windows schedules weekday now =
      let today = filter (λ (s : Schedule). s.day_of_week == weekday) schedules in
      (
        min_time (filter_map (active_end now) today),
        min_time (filter_map (next_start weekday now) schedules),
      )
