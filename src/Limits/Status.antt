-- ===== src/Limits/Status.antt =====
-- crates/agent/src/app_limits.rs, lines 10-56: the status of every group with a limit on a day.
use screenguard.Prelude.{
  eq_nat, eq_string, ℕ, ◌+◌, ◌*◌, ◌%◌, ◌<◌, ◌≡◌, String, List, [], ◌∷◌, Option, none, some, Bool,
  ◌==◌, find, arith, if◌then◌else◌, or_default, filter, is_some,
}
use screenguard.Prelude.Dict.{Dict, get}
use screenguard.Prelude.Int.{
  ℤ, pos, pos_part, ◌+ℤ◌, ◌-ℤ◌, leb_ℤ, max_zero, as_i64, wrap_i64, two63, two64, two31, two32,
}
use screenguard.Models.{DailyLimit, AppGroupConfig}
use screenguard.Limits.Names.{group_name}

pub record GroupStatus : Type 0 where
  pub group_id : String
  pub name : String
  pub limit_minutes : ℕ
  pub used_seconds : ℕ
  pub remaining_seconds : ℤ

unfoldable pub blocked : GroupStatus → Bool
blocked s = s.limit_minutes == 0

unfoldable pub exhausted : GroupStatus → Bool
exhausted s = leb_ℤ s.remaining_seconds (pos 0)

-- A blocked day stays blocked: extra time is for groups with time.
unfoldable pub allowed_minutes : ℕ → ℤ → ℕ
allowed_minutes limit adjustment = if limit == 0 then 0 else max_zero (pos limit +ℤ adjustment)

unfoldable pub limit_on : ℕ → AppGroupConfig → Option DailyLimit
limit_on weekday g = find (λ (l : DailyLimit). l.day_of_week == weekday) g.daily_limits

-- The groups that have a limit on the day.
abbrev pub limited : ℕ → List AppGroupConfig → List AppGroupConfig
limited weekday groups = filter (λ g. is_some (limit_on weekday g)) groups

module _ (weekday : ℕ) (local_used elsewhere : Dict String ℕ) (adjustments : Dict String ℤ)
    (lang : String) where
  unfoldable pub status_of : AppGroupConfig → DailyLimit → GroupStatus
  unfolding allowed_minutes
  status_of g limit =
      let used = (or_default 0 (get local_used g.id) + or_default 0 (get elsewhere g.id)) % two64 in
      let allowed =
        allowed_minutes limit.allowed_minutes (or_default (pos 0) (get adjustments g.id)) in
      record {
        group_id = g.id;
        name = group_name g.builtin g.name lang;
        limit_minutes = limit.allowed_minutes;
        used_seconds = used;
        remaining_seconds = wrap_i64 (pos (allowed * 60) -ℤ as_i64 used);
      }

  -- The `filter_map`: a group with no limit that day is left out.
  add_status : AppGroupConfig → Option DailyLimit → List GroupStatus → List GroupStatus
  add_status g none rest = rest
  add_status g (some limit) rest = status_of g limit ∷ rest

  unfoldable pub group_status : List AppGroupConfig → List GroupStatus
  unfolding add_status
  group_status [] = []
  group_status (g ∷ groups) = add_status g (limit_on weekday g) (group_status groups)

  abbrev pub used_of : AppGroupConfig → ℕ
  used_of g = or_default 0 (get local_used g.id) + or_default 0 (get elsewhere g.id)

  -- The ranges of the inputs: `u32` minutes, an `i32` adjustment, seconds below 2^63.
  pub record InRange (g : AppGroupConfig) (limit : DailyLimit) : Type 0 where
    pub minutes : limit.allowed_minutes < two32
    pub adjustment : pos_part (or_default (pos 0) (get adjustments g.id)) < two31
    pub seconds : used_of g < two63

  used_lem :
      (g : AppGroupConfig) (limit : DailyLimit)
      → InRange g limit
      → (status_of g limit).used_seconds ≡ used_of g
  unfolding status_of
  used_lem g limit r = omega (arith, r.seconds)
