-- ===== src/Server/Push/Users.antt =====
-- crates/server/src/db.rs: a managed user that is found is among the listed ones.
use screenguard.Prelude.Sort.{insert_sorted, sort_by}
use screenguard.Prelude.{
  eq_nat, eq_string, ℕ, ◌≡◌, ◌≢◌, sym, ap, ◌∙◌, Bool, true, false, some, List, [], ◌∷◌, String,
  ◌==◌, any, find, filter, arith, Bool-cases, ◌⊎◌, inl, inr,
}
use screenguard.Server.Db.{AgentUser, Db, get_agent_user}
use screenguard.Server.Push.{list_agent_users}

-- A user stands in a list.
abbrev pub Has : AgentUser → List AgentUser → Type 0
Has u [] = ⊥
Has u (v ∷ users) = (v ≡ u) ⊎ Has u users

find-Has :
    (p : AgentUser → Bool) (users : List AgentUser) (u : AgentUser)
    → find p users ≡ some u
    → Has u users × (p u ≡ true)
find-Has p [] u h = cc
find-Has p (v ∷ users) u h = elim (Bool-cases (p v)) [
  | inl y ↦
      let found : some v ≡ some u = rw y at h in
      let same : v ≡ u = cc (found) in (inl same, sym (ap p same) ∙ y)
  | inr n ↦ let r = find-Has p users u (rw n at h) in (inr r.0, r.1)
]

filter-Has :
    (p : AgentUser → Bool) (users : List AgentUser) (u : AgentUser)
    → Has u users
    → p u ≡ true
    → Has u (filter p users)
filter-Has p [] u h y = h
filter-Has p (v ∷ users) u (inl e) y = rw (ap p e ∙ y) (inl e)
filter-Has p (v ∷ users) u (inr h) y = elim (Bool-cases (p v)) [
  | inl here ↦ rw here (inr (filter-Has p users u h y))
  | inr gone ↦ rw gone (filter-Has p users u h y)
]

insert_sorted-Has :
    (p : AgentUser → AgentUser → Bool) (v : AgentUser) (users : List AgentUser) (u : AgentUser)
    → Has u (v ∷ users)
    → Has u (insert_sorted p v users)
insert_sorted-Has p v [] u h = h
insert_sorted-Has p v (w ∷ users) u h = elim (Bool-cases (p v w)) [
  | inl y ↦ rw y h
  | inr n ↦ rw n (elim h [
    | inl e ↦ inr (insert_sorted-Has p v users u (inl e))
    | inr k ↦ elim k [ inl e ↦ inl e | inr m ↦ inr (insert_sorted-Has p v users u (inr m)) ]
  ])
]

sort_by-Has :
    (p : AgentUser → AgentUser → Bool) (users : List AgentUser) (u : AgentUser)
    → Has u users
    → Has u (sort_by p users)
unfolding sort_by
sort_by-Has p [] u h = h
sort_by-Has p (v ∷ users) u (inl e) = insert_sorted-Has p v (sort_by p users) u (inl e)
sort_by-Has p (v ∷ users) u (inr h) =
    insert_sorted-Has p v (sort_by p users) u (inr (sort_by-Has p users u h))

pub list_agent_users-Has :
    (db : Db) (agent : String) (uid : ℕ) (u : AgentUser)
    → get_agent_user db agent uid ≡ some u
    → u.status ≡ "managed"
    → Has u (list_agent_users db agent) × (u.local_uid ≡ uid)
unfolding get_agent_user list_agent_users
list_agent_users-Has db agent uid u h m =
    let f = find-Has _ db.agent_users u h in
    (
      sort_by-Has _ _ u (filter-Has _ db.agent_users u f.0 (rw m (ground (arith, f.1)))),
      ground (arith, f.1),
    )

pub Has-any :
    (users : List AgentUser) (u : AgentUser) (uid : ℕ)
    → Has u users
    → any (λ (v : AgentUser). v.local_uid == uid) users ≡ false
    → uid ≢ u.local_uid
Has-any [] u uid h n e = absurd h
Has-any (v ∷ users) u uid (inl same) n e =
    let own : v.local_uid ≡ uid = ap (λ (x : AgentUser). x.local_uid) same ∙ sym e in
    ground (arith, n, own)
Has-any (v ∷ users) u uid (inr h) n e = Has-any users u uid h (ground (arith, n)) e
