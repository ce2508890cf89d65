-- ===== src/Server/Push/Offline.antt =====
-- crates/server/src/remaining.rs and crates/agent/src/enforcement.rs: the agent decides offline, by the
-- pushed configuration, as the server would.
use Prim.Native.Char.{code}
use screenguard.Prelude.{
  eq_nat, eq_string, ℕ, ◌<◌, ◌/◌, ◌+◌, ◌≡◌, refl, sym, ap, subst, ◌∙◌, Option, none, some, List, [],
  ◌∷◌, map, String, ◌==◌, any, arith, All, Bool-cases, Option-cases, inl, inr, ◌>>=◌,
}
use screenguard.Prelude.Int.{
  ℤ, pos, negsuc, two31, as_i32, wrap_i32, min_ℤ, leb_ℤ, max_zero, ◌-ℤ◌, IsI32, wrap_i32-IsI32,
  div_ℤ,
}
use screenguard.Models.{UserConfig}
use screenguard.Text.{filter_map, some_digits, trim}
use screenguard.Agent.Tables as Tables
use screenguard.Agent.Db.{get_usage_seconds}
use screenguard.Agent.Config.{apply_user, apply_users, apply_config_push, cleared}
use screenguard.Agent.Offline as Agent
use screenguard.Server.Db.{DailyLimit, parse_i32, below}
use screenguard.Server.Remaining as Server
use screenguard.Server.Remaining.{as_u32, left_today, used_minutes}

-- An `i32` that goes over the wire as `u32` comes back.
pub as_i32-as_u32 : (a : ℤ) → IsI32 a → as_i32 (as_u32 a) ≡ a
unfolding as_i32
as_i32-as_u32 (pos n) h = ground (arith, h.below)
as_i32-as_u32 (negsuc n) h = ground (arith, h.above)

pub min_max : (a : ℤ) → IsI32 a → min_ℤ a Agent.i32_max ≡ a
unfolding min_ℤ
min_max (pos n) h = ground (arith, h.below)
min_max (negsuc n) h = ground arith

warns :
    (n : ℕ) (ts : List ℤ)
    → All IsI32 ts
    → any (λ t. leb_ℤ (pos n) (as_i32 t)) (map as_u32 ts) ≡ any (λ t. leb_ℤ (pos n) t) ts
warns n [] h = refl
warns n (t ∷ ts) h = rw (as_i32-as_u32 t h.0, warns n ts h.1) refl

-- The two decisions on the minutes left agree.
pub action_lem :
    (a : ℤ) (ts : List ℤ)
    → All IsI32 ts
    → Agent.action_for a (map as_u32 ts) ≡ Server.action_for (pos (max_zero a)) ts
unfolding Agent.action_for Server.action_for
action_lem (pos n) ts h = rw (warns n ts h) refl
action_lem (negsuc n) ts h = ground arith

used_lem : (n : ℕ) → used_minutes (pos n) ≡ as_i32 (n / 60)
unfolding used_minutes div_ℤ wrap_i32
used_lem n = refl

-- The minutes that a limit leaves, offline and in the server's answer.
pub left_lem :
    (l : DailyLimit) (extra : ℤ) (used : ℕ)
    → IsI32 l.allowed_minutes
    → left_today l.allowed_minutes extra (used_minutes (pos used))
      ≡ pos (
          max_zero (
            Agent.time_remaining
              (some (record {
                day_of_week = l.day_of_week;
                allowed_minutes = as_u32 l.allowed_minutes;
              }))
              extra
              used))
unfolding left_today Agent.time_remaining
left_lem l extra used h = rw (used_lem used, as_i32-as_u32 l.allowed_minutes h) refl

pub time_remaining-IsI32 :
    (l : Tables.CachedLimit) (extra : ℤ) (used : ℕ)
    → IsI32 (Agent.time_remaining (some l) extra used)
unfolding Agent.time_remaining
time_remaining-IsI32 l extra used = wrap_i32-IsI32 _

below_lt : (b : ℕ) (o : Option ℕ) (n : ℕ) → below b o ≡ some n → n < b
below_lt b none n h = cc
below_lt b (some m) n h = ground (arith, h)

small_neg : (n : ℕ) → n < two31 + 1 → IsI32 (pos 0 -ℤ pos n)
unfolding ◌-ℤ◌
small_neg n h = ground arith

small_pos : (n : ℕ) → n < two31 → IsI32 (pos n)
small_pos n h = ground arith

bound_IsI32 :
    (b : ℕ) (o : Option ℕ) (f : ℕ → ℤ) (a : ℤ)
    → ((n : ℕ) → n < b → IsI32 (f n))
    → (below b o >>= λ n. some (f n)) ≡ some a
    → IsI32 a
bound_IsI32 b o f a k h = elim (Option-cases (below b o)) [
  | inl n ↦ ground (arith, n, h)
  | inr (n, e) ↦
      let s : some (f n) ≡ some a = rw e at h in
      let same : f n ≡ a = cc (s) in subst IsI32 same (k n (below_lt b o n e))
]

parse_i32-IsI32 : (s : String) (a : ℤ) → parse_i32 s ≡ some a → IsI32 a
parse_i32-IsI32 String.[] a h = cc
parse_i32-IsI32 (String.◌∷◌ c s) a h = elim (Bool-cases (code c == b'-')) [
  | inl minus ↦ bound_IsI32 (two31 + 1) (some_digits s) _ a small_neg (rw minus at h)
  | inr other ↦ elim (Bool-cases (code c == b'+')) [
    | inl plus ↦ bound_IsI32 two31 (some_digits s) _ a small_pos (rw (other, plus) at h)
    | inr digit ↦
        bound_IsI32 two31 (some_digits (String.◌∷◌ c s)) _ a small_pos (rw (other, digit) at h)
  ]
]

pub parsed-IsI32 :
    (texts : List String) → All IsI32 (filter_map (λ (s : String). parse_i32 (trim s)) texts)
parsed-IsI32 [] = tt
parsed-IsI32 (s ∷ texts) = elim (Option-cases (parse_i32 (trim s))) [
  | inl n ↦ rw n (parsed-IsI32 texts)
  | inr (a, e) ↦ rw e (parse_i32-IsI32 (trim s) a e, parsed-IsI32 texts)
]

-- A push leaves the agent's own counts alone.
module _ {T : Type 0} (format_hm : T → String) (today : String) where
  apply_user_counts :
      (db after : Tables.Db) (u : UserConfig T)
      → apply_user format_hm today db u ≡ some after
      → after.usage_log ≡ db.usage_log
  unfolding apply_user
  apply_user_counts db after u h = ground (arith, h)

  apply_users_counts :
      (db after : Tables.Db) (users : List (UserConfig T))
      → apply_users format_hm today db users ≡ some after
      → after.usage_log ≡ db.usage_log
  unfolding apply_users
  apply_users_counts db after [] h =
      let same : db ≡ after = cc (h) in ap (λ (x : Tables.Db). x.usage_log) (sym same)
  apply_users_counts db after (u ∷ users) h =
      elim (Option-cases (apply_user format_hm today db u)) [
        | inl n ↦ ground (arith, n, h)
        | inr (mid, e) ↦
            apply_users_counts mid after users (rw e at h) ∙ apply_user_counts db mid u e
      ]

  pub get_usage_seconds-apply_config_push :
      (db after : Tables.Db) (users : List (UserConfig T)) (uid : ℕ) (date : String)
      → apply_config_push format_hm today db users ≡ some after
      → get_usage_seconds after uid date ≡ get_usage_seconds db uid date
  unfolding apply_config_push cleared get_usage_seconds
  get_usage_seconds-apply_config_push db after users uid date h =
      rw (apply_users_counts (cleared format_hm db) after users h) refl
