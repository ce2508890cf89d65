-- ===== src/Usage/Users.antt =====
-- The loop of `seconds` over the active users, for one user.
use screenguard.Prelude.{
  eq_nat, ℕ, ◌+◌, ◌*◌, ◌/◌, ◌%◌, ◌<◌, ◌≡◌, ◌≢◌, refl, subst, ◌==◌, List, [], ◌∷◌, none, true, false,
  contains, arith, Bool-cases, inl, inr,
}
use screenguard.Prelude.Dict.{get, get_or, get-insert, get-insert_self, IsDict, insert-IsDict}
use screenguard.Prelude.Int.{two64, two63}
use screenguard.Usage.Accounting.{Counted, account_user, account_users}

-- The elements of a set stand once.
abbrev pub IsSetOf : List ℕ → Type 0
IsSetOf [] = Unit
IsSetOf (x ∷ xs) = (contains xs x ≡ false) × IsSetOf xs

module _ (elapsed : ℕ) (counting : List ℕ) where
  -- Another user's round leaves a user's entries alone.
  account_user_other :
      (u v : ℕ) (c : Counted)
      → u ≢ v
      → (get (account_user elapsed counting u c).carry v ≡ get c.carry v)
        × (get (account_user elapsed counting u c).out v ≡ get c.out v)
  unfolding account_user
  account_user_other u v c ne = ground (
    arith,
    get-insert c.carry u ((get_or 0 c.carry u + elapsed) % two64 % 1000) v,
    get-insert c.out u ((get_or 0 c.carry u + elapsed) % two64 / 1000) v,
    ne,
  )

  -- So does a loop that the user is not in.
  pub account_users_other :
      (us : List ℕ) (v : ℕ) (c : Counted)
      → contains us v ≡ false
      → (get (account_users elapsed counting us c).carry v ≡ get c.carry v)
        × (get (account_users elapsed counting us c).out v ≡ get c.out v)
  unfolding account_users
  account_users_other [] v c h = (refl, refl)
  account_users_other (u ∷ us) v c h = ground (
    arith,
    account_user_other u v c,
    account_users_other us v (account_user elapsed counting u c),
  )

  -- A user who does not count gets nothing.
  account_user_idle :
      (u : ℕ) (c : Counted) → contains counting u ≡ false → account_user elapsed counting u c ≡ c
  unfolding account_user
  account_user_idle u c h = rw h

  pub account_users_idle :
      (us : List ℕ) (v : ℕ) (c : Counted)
      → contains counting v ≡ false
      → (get (account_users elapsed counting us c).carry v ≡ get c.carry v)
        × (get (account_users elapsed counting us c).out v ≡ get c.out v)
  unfolding account_users
  account_users_idle [] v c h = (refl, refl)
  account_users_idle (u ∷ us) v c h = elim (Bool-cases (u == v)) [
    | inl e ↦ ground (
      arith,
      account_user_idle u c,
      account_users_idle us v (account_user elapsed counting u c) h,
    )
    | inr e ↦ ground (
      arith,
      account_user_other u v c,
      account_users_idle us v (account_user elapsed counting u c) h,
    )
  ]

  -- A round splits the milliseconds of its user into seconds and a carry.
  account_user_lem :
      (u : ℕ) (c : Counted)
      → contains counting u ≡ true
      → get_or 0 c.carry u < 1000
      → elapsed < two63
      → get c.out u ≡ none
      → let d = account_user elapsed counting u c in
        (get_or 0 d.out u * 1000 + get_or 0 d.carry u ≡ get_or 0 c.carry u + elapsed)
        × (get_or 0 d.carry u < 1000)
  unfolding account_user
  account_user_lem u c h carry small fresh =
      let total = (get_or 0 c.carry u + elapsed) % two64 in
      let exact : total ≡ get_or 0 c.carry u + elapsed = omega (arith, carry, small) in
      ground (
        arith,
        exact,
        get-insert_self c.carry u (total % 1000),
        get-insert_self c.out u (total / 1000),
      )

  pub account_users_lem :
      (us : List ℕ) (v : ℕ) (c : Counted)
      → IsSetOf us
      → contains us v ≡ true
      → contains counting v ≡ true
      → get_or 0 c.carry v < 1000
      → elapsed < two63
      → get c.out v ≡ none
      → let d = account_users elapsed counting us c in
        (get_or 0 d.out v * 1000 + get_or 0 d.carry v ≡ get_or 0 c.carry v + elapsed)
        × (get_or 0 d.carry v < 1000)
  unfolding account_users
  account_users_lem [] v c set among h carry small fresh = cc
  account_users_lem (u ∷ us) v c set among h carry small fresh = elim (Bool-cases (u == v)) [
    | inl e ↦
        let d = account_user elapsed counting u c in
        let p : u ≡ v = ground arith in
        ground (
          arith,
          p,
          account_users_other us v d (subst (λ x. contains us x ≡ false) p set.0),
          account_user_lem u c,
        )
    | inr e ↦
        let d = account_user elapsed counting u c in
        ground (arith, account_user_other u v c, account_users_lem us v d set.1)
  ]

  account_user-IsDict :
      (u : ℕ) (c : Counted) → IsDict c.carry → IsDict (account_user elapsed counting u c).carry
  unfolding account_user
  account_user-IsDict u c h =
      ground (arith, insert-IsDict c.carry u ((get_or 0 c.carry u + elapsed) % two64 % 1000) h)

  pub account_users-IsDict :
      (us : List ℕ) (c : Counted)
      → IsDict c.carry
      → IsDict (account_users elapsed counting us c).carry
  unfolding account_users
  account_users-IsDict [] c h = h
  account_users-IsDict (u ∷ us) c h =
      account_users-IsDict us (account_user elapsed counting u c) (account_user-IsDict u c h)
