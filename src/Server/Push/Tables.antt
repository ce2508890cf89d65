-- ===== src/Server/Push/Tables.antt =====
-- crates/server/src/db.rs: the constraints of the tables that a push is built from, and what they say
-- of the users and the limits of a push.
use screenguard.Prelude.Sort
use screenguard.Prelude.Sort.{sort_by-Apart}
use screenguard.Prelude.{
  eq_nat, eq_string, ◌<◌, ◌≡◌, refl, Bool, true, false, not, ◌&&◌, List, [], ◌∷◌, ◌++◌, map, String,
  ◌==◌, any, filter, leb, arith, All, Bool-cases, inl, inr,
}
use screenguard.Prelude.Int.{ℤ, pos, negsuc, two32}
use screenguard.Models as Models
use screenguard.Models.{UserConfig}
use screenguard.Agent.Tables as Tables
use screenguard.Agent.Config.{is_day, has_day, limit_row}
use screenguard.Agent.Rows.{FreshDays}
use screenguard.Server.Db.{AgentUser, DailyLimit, Schedule, Db}
use screenguard.Server.Remaining.{as_u32}
use screenguard.Server.Push.{list_agent_users}

as_u32_lt : (a : ℤ) → as_u32 a < two32
as_u32_lt (pos n) = omega arith
as_u32_lt (negsuc n) = omega arith

pub thresholds_lt : (ts : List ℤ) → All (λ t. t < two32) (map as_u32 ts)
thresholds_lt [] = tt
thresholds_lt (t ∷ ts) = (as_u32_lt t, thresholds_lt ts)

-- The constraints of the tables: days of the week, one limit for a profile and a day, one row for a
-- user of an agent.
abbrev pub Once : List DailyLimit → Type 0
Once [] = Unit
Once (l ∷ rows) =
    (leb l.day_of_week 6 ≡ true)
    × (any (λ (r : DailyLimit). r.profile_id == l.profile_id && r.day_of_week == l.day_of_week) rows
        ≡ false)
    × Once rows

abbrev pub Single : List AgentUser → Type 0
Single [] = Unit
Single (u ∷ users) =
    (any (λ (v : AgentUser). v.agent_id == u.agent_id && v.local_uid == u.local_uid) users ≡ false)
    × Single users

pub record IsDb (db : Db) : Type 0 where
  pub days : All (λ (s : Schedule). leb s.day_of_week 6 ≡ true) db.schedules
  pub limits : Once db.daily_limits
  pub users : Single db.agent_users

-- No two users have the same local uid.
abbrev pub Apart : List AgentUser → Type 0
Apart users = Sort.Apart (λ (u : AgentUser). u.local_uid) users

abbrev of_agent : String → AgentUser → Bool
of_agent agent u = u.agent_id == agent && not (u.status == "deleted")

same_agent :
    (agent : String) (u : AgentUser) (users : List AgentUser)
    → of_agent agent u ≡ true
    → any (λ (v : AgentUser). v.agent_id == u.agent_id && v.local_uid == u.local_uid) users ≡ false
    → any (λ (v : AgentUser). v.local_uid == u.local_uid) (filter (of_agent agent) users) ≡ false
same_agent agent u [] h k = refl
same_agent agent u (v ∷ users) h k = ground (
  arith,
  same_agent agent u users h,
  eq_string.same_iff u.agent_id agent,
  eq_string.same_iff v.agent_id agent,
  eq_string.same_iff v.agent_id u.agent_id,
)

filter-Apart :
    (agent : String) (users : List AgentUser) → Single users → Apart (filter (of_agent agent) users)
filter-Apart agent [] h = tt
filter-Apart agent (u ∷ users) h = elim (Bool-cases (of_agent agent u)) [
  | inl y ↦ rw y (same_agent agent u users y h.0, filter-Apart agent users h.1)
  | inr n ↦ rw n (filter-Apart agent users h.1)
]

pub list_agent_users-Apart :
    (db : Db) (agent : String) → Single db.agent_users → Apart (list_agent_users db agent)
unfolding list_agent_users
list_agent_users-Apart db agent h = sort_by-Apart _ _ _ (filter-Apart agent db.agent_users h)

-- The limits of a profile are for different days.
abbrev pub Days : List Models.DailyLimit → Type 0
Days [] = Unit
Days (l ∷ ls) =
    (is_day l.day_of_week ≡ true)
    × (any (λ (r : Models.DailyLimit). r.day_of_week == l.day_of_week) ls ≡ false)
    × Days ls

abbrev ClearOf : List Tables.CachedLimit → List Models.DailyLimit → Type 0
ClearOf rows ls = All (λ (l : Models.DailyLimit). has_day rows l.day_of_week ≡ false) ls

still_clear :
    (rows : List Tables.CachedLimit) (l : Models.DailyLimit) (ls : List Models.DailyLimit)
    → any (λ (r : Models.DailyLimit). r.day_of_week == l.day_of_week) ls ≡ false
    → ClearOf rows ls
    → ClearOf (rows ++ (limit_row l ∷ [])) ls
still_clear rows l [] n h = tt
still_clear rows l (k ∷ ls) n h = (go rows h.0, still_clear rows l ls (ground (arith, n)) h.1)
  where
    go :
        (rows' : List Tables.CachedLimit)
        → has_day rows' k.day_of_week ≡ false
        → has_day (rows' ++ (limit_row l ∷ [])) k.day_of_week ≡ false
    go [] e = ground (arith, n)
    go (r ∷ rows') e = ground (arith, go rows')

pub Days-FreshDays :
    (rows : List Tables.CachedLimit) (ls : List Models.DailyLimit)
    → Days ls
    → ClearOf rows ls
    → FreshDays rows ls
Days-FreshDays rows [] d h = tt
Days-FreshDays rows (l ∷ ls) d h =
    (d.0, h.0, Days-FreshDays (rows ++ (limit_row l ∷ [])) ls d.2 (still_clear rows l ls d.1 h.1))

pub nothing_seen : (ls : List Models.DailyLimit) → ClearOf [] ls
nothing_seen [] = tt
nothing_seen (l ∷ ls) = (refl, nothing_seen ls)
