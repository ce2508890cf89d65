-- ===== src/Server/Usage.antt =====
-- What a heartbeat does to the stored seconds.
use screenguard.Prelude.{
  eq_nat, eq_string, eq_pair, ==_refl, ℕ, ◌+◌, ◌≡◌, refl, Option, none, some, List, [], ◌∷◌, String,
  ◌==◌, All, ltb, if◌then◌else◌, arith, Option-cases, Bool-cases, inl, inr, ap, sym, subst, ◌∙◌,
}
use screenguard.Prelude.Dict.{get_or}
use screenguard.Prelude.Int.{ℤ, pos, ◌+ℤ◌, +ℤ_parts, eq_of_parts}
use screenguard.Times.{NaiveTime}
use screenguard.Models.{GroupUsage}
use screenguard.Server.Db.{
  AgentUser, Db, get_agent_user, add_usage_seconds, profile_of, is_profile, belongs, counts_for,
  get_used_seconds_for_profile_today,
}
use screenguard.Server.Windows.{Zones}
use screenguard.Server.Remaining.{Moment, counted, answer, calculate_remaining_for_agent}
use screenguard.Server.Totals.{add_zero, sum_where-insert, find-All}

abbrev pub credit_of : String → ℕ → Option String → ℕ
credit_of profile secs none = 0
credit_of profile secs (some p) = if p == profile then secs else 0

-- The seconds that a heartbeat reports for a user count for the profile of the user.
abbrev pub credit : String → ℕ → Option AgentUser → ℕ
credit profile secs none = 0
credit profile secs (some u) = credit_of profile secs u.profile_id

abbrev pub credits : Db → String → String → List (ℕ × ℕ) → ℕ
credits db agent profile [] = 0
credits db agent profile ((uid, secs) ∷ users) =
    credit profile secs (get_agent_user db agent uid) + credits db agent profile users

-- The ids of the rows of `agent_users` tell them apart.
abbrev pub IsKeyed : List AgentUser → Type 0
IsKeyed users = All (λ (u : AgentUser). profile_of users u.id ≡ u.profile_id) users

-- The credit of one user, told from the owner of the row.
abbrev owned : List AgentUser → String → String → ℕ → ℕ
owned users profile user secs = if belongs users profile user then secs else 0

used-add :
    (today : String) (db : Db) (user profile : String) (s : ℤ)
    → get_used_seconds_for_profile_today (add_usage_seconds db user today s) profile today ≡ (
        if belongs db.agent_users profile user
        then get_used_seconds_for_profile_today db profile today +ℤ s
        else get_used_seconds_for_profile_today db profile today)
unfolding get_used_seconds_for_profile_today add_usage_seconds
used-add today db user profile s =
    let p = counts_for db.agent_users profile today in
    let m = db.daily_usage in
    ground (
      arith,
      sum_where-insert p m (user, today) (get_or (pos 0) m (user, today)) s refl,
      ==_refl today,
    )

counted_used :
    (today : String) (db : Db) (user profile : String) (secs : ℕ)
    → get_used_seconds_for_profile_today (counted today db user secs) profile today
      ≡ get_used_seconds_for_profile_today db profile today
        +ℤ pos (owned db.agent_users profile user secs)
unfolding counted
counted_used today db user profile secs =
    let used = get_used_seconds_for_profile_today db profile today in
    ground (arith, used-add today db user profile (pos secs), add_zero used)

counted_users :
    (today : String) (db : Db) (user : String) (secs : ℕ)
    → (counted today db user secs).agent_users ≡ db.agent_users
unfolding counted add_usage_seconds
counted_users today db user secs = elim (Bool-cases (ltb 0 secs)) [
  | inl e ↦ rw e refl
  | inr e ↦ rw e refl
]

credit_of_if :
    (profile : String) (secs : ℕ) (o : Option String)
    → credit_of profile secs o ≡ (if is_profile profile o then secs else 0)
credit_of_if profile secs none = refl
credit_of_if profile secs (some p) = refl

credit-owned :
    (users : List AgentUser) (profile : String) (u : AgentUser) (secs : ℕ) (o : Option String)
    → profile_of users u.id ≡ o
    → credit_of profile secs o ≡ owned users profile u.id secs
credit-owned users profile u secs o h =
    ap (credit_of profile secs) (sym h) ∙ credit_of_if profile secs (profile_of users u.id)

add_naturals : (a : ℤ) (m n : ℕ) → (a +ℤ pos m) +ℤ pos n ≡ a +ℤ pos (m + n)
add_naturals a m n = ground (
  arith,
  +ℤ_parts a (pos m),
  +ℤ_parts (a +ℤ pos m) (pos n),
  +ℤ_parts a (pos (m + n)),
  eq_of_parts ((a +ℤ pos m) +ℤ pos n) (a +ℤ pos (m + n)),
)

credits_users :
    (db later : Db) (agent profile : String) (users : List (ℕ × ℕ))
    → later.agent_users ≡ db.agent_users
    → credits later agent profile users ≡ credits db agent profile users
unfolding get_agent_user
credits_users db later agent profile [] h = refl
credits_users db later agent profile ((uid, secs) ∷ users) h =
    rw h (rw (credits_users db later agent profile users h) refl)

module _ {T : Type 0} ⦃c : NaiveTime T⦄ ⦃z : Zones T⦄ (first last : T) (admin_tz agent_tz : String)
    (elsewhere : String → List GroupUsage) (agent : String) (at : Moment T) where
  answer_users :
      (db : Db) (uid secs : ℕ) (o : Option AgentUser)
      → (answer first last admin_tz agent_tz elsewhere agent at db uid secs o).0.agent_users
        ≡ db.agent_users
  answer_users db uid secs none = refl
  answer_users db uid secs (some u) = elim (Option-cases u.profile_id) [
    | inl e ↦ rw e refl
    | inr (p, e) ↦ rw e (counted_users at.today db u.id secs)
  ]

  answer_used :
      (db : Db) (profile : String) (uid secs : ℕ) (o : Option AgentUser)
      → ((u : AgentUser) → o ≡ some u → profile_of db.agent_users u.id ≡ u.profile_id)
      → get_used_seconds_for_profile_today
          (answer first last admin_tz agent_tz elsewhere agent at db uid secs o).0
          profile
          at.today
        ≡ get_used_seconds_for_profile_today db profile at.today +ℤ pos (credit profile secs o)
  answer_used db profile uid secs none h = sym (add_zero _)
  answer_used db profile uid secs (some u) h = elim (Option-cases u.profile_id) [
    | inl e ↦ rw e (sym (add_zero _))
    | inr (p, e) ↦
        rw (credit-owned db.agent_users profile u secs u.profile_id (h u refl))
          (rw e (counted_used at.today db u.id profile secs))
  ]

  keyed_user :
      (db : Db) (uid : ℕ) (u : AgentUser)
      → IsKeyed db.agent_users
      → get_agent_user db agent uid ≡ some u
      → profile_of db.agent_users u.id ≡ u.profile_id
  unfolding get_agent_user
  keyed_user db uid u k e =
      find-All (λ (v : AgentUser). profile_of db.agent_users v.id ≡ v.profile_id) _ db.agent_users u
        k e

  -- A heartbeat adds to the seconds that a profile has used today exactly the seconds it reports
  -- for the profile's users of that computer, and those of no other user. The ids of `agent_users`
  -- tell its rows apart.
  pub calculate_remaining_for_agent_used :
      (db : Db) (profile : String) (users : List (ℕ × ℕ))
      → IsKeyed db.agent_users
      → get_used_seconds_for_profile_today
          (calculate_remaining_for_agent first last admin_tz agent_tz elsewhere agent at db users).0
          profile
          at.today
        ≡ get_used_seconds_for_profile_today db profile at.today
          +ℤ pos (credits db agent profile users)
  unfolding calculate_remaining_for_agent
  calculate_remaining_for_agent_used db profile [] k = sym (add_zero _)
  calculate_remaining_for_agent_used db profile ((uid, secs) ∷ users) k =
      let o = get_agent_user db agent uid in
      let used = get_used_seconds_for_profile_today db profile at.today in
      let later = (answer first last admin_tz agent_tz elsewhere agent at db uid secs o).0 in
      let keyed = subst IsKeyed (sym (answer_users db uid secs o)) k in
      calculate_remaining_for_agent_used later profile users keyed
      ∙ ap (λ (a : ℤ). a +ℤ pos (credits later agent profile users))
          (answer_used db profile uid secs o (λ u e. keyed_user db uid u k e))
      ∙ ap (λ (n : ℕ). (used +ℤ pos (credit profile secs o)) +ℤ pos n)
          (credits_users db later agent profile users (answer_users db uid secs o))
      ∙ add_naturals used (credit profile secs o) (credits db agent profile users)
