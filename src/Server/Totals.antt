-- ===== src/Server/Totals.antt =====
-- Sums over the stored seconds, and what a usage sync does to them.
use screenguard.Prelude.{
  PartialEq, eq_nat, eq_string, eq_pair, ==_refl, ◌≡◌, refl, Bool, Option, none, some, List, [],
  ◌∷◌, String, ◌==◌, find, All, if◌then◌else◌, arith, Bool-cases, inl, inr, ap,
}
use screenguard.Prelude.Dict.{Dict, get, insert, get_or, get-insert}
use screenguard.Prelude.Int.{ℤ, pos, ◌+ℤ◌, ◌≤ℤ◌, +ℤ_parts, eq_of_parts}
use screenguard.Server.Db.{Db, reconcile_usage_seconds, raise, sum_where}

pub add_zero : (a : ℤ) → a +ℤ pos 0 ≡ a
add_zero a = ground (arith, +ℤ_parts a (pos 0), eq_of_parts (a +ℤ pos 0) a)

add_comm : (a b : ℤ) → a +ℤ b ≡ b +ℤ a
add_comm a b = ground (arith, +ℤ_parts a b, +ℤ_parts b a, eq_of_parts (a +ℤ b) (b +ℤ a))

add_assoc : (a b d : ℤ) → (a +ℤ b) +ℤ d ≡ a +ℤ (b +ℤ d)
add_assoc a b d = ground (
  arith,
  +ℤ_parts a b,
  +ℤ_parts b d,
  +ℤ_parts (a +ℤ b) d,
  +ℤ_parts a (b +ℤ d),
  eq_of_parts ((a +ℤ b) +ℤ d) (a +ℤ (b +ℤ d)),
)

add_swap : (a b d : ℤ) → (a +ℤ b) +ℤ d ≡ (a +ℤ d) +ℤ b
add_swap a b d = ground (
  arith,
  +ℤ_parts a b,
  +ℤ_parts a d,
  +ℤ_parts (a +ℤ b) d,
  +ℤ_parts (a +ℤ d) b,
  eq_of_parts ((a +ℤ b) +ℤ d) ((a +ℤ d) +ℤ b),
)

raise_older :
    (old : Option ℤ) (newer older : ℤ)
    → older ≤ℤ newer
    → raise older (some (raise newer old)) ≡ raise newer old
raise_older none newer older h = ground arith
raise_older (some v) newer older h = ground arith

module _ {ℓ} {K : Type ℓ} ⦃e : PartialEq K⦄ where
  -- What is added to a row is added to the sums that count the row.
  pub sum_where-insert :
      (p : K → Bool) (m : Dict K ℤ) (key : K) (old s : ℤ)
      → get_or (pos 0) m key ≡ old
      → sum_where p (insert m key (old +ℤ s))
        ≡ (if p key then sum_where p m +ℤ s else sum_where p m)
  unfolding insert get
  sum_where-insert p [] key old s h = ground (arith, h, add_comm (pos 0) s, add_zero (pos 0 +ℤ s))
  sum_where-insert p ((k, v) ∷ m) key old s h = elim (Bool-cases (k == key)) [
    | inl q ↦ rw q (ground (arith, q, h, (e.same_iff k key).0 q, add_swap v s (sum_where p m)))
    | inr q ↦ rw q (
        ground (
          arith,
          sum_where-insert p m key old s (ground (arith, q, h)),
          add_assoc v (sum_where p m) s,
        ))
  ]

  pub insert_twice :
      (m : Dict K ℤ) (key : K) (v w : ℤ) → insert (insert m key v) key w ≡ insert m key w
  unfolding insert
  insert_twice [] key v w = ground (arith, ==_refl key)
  insert_twice ((k, u) ∷ m) key v w = ground (arith, ==_refl key, insert_twice m key v w)

pub find-All :
    {A : Type 0} (P : A → Type 0) (p : A → Bool) (xs : List A) (a : A)
    → All P xs
    → find p xs ≡ some a
    → P a
find-All P p [] a h e = absurd cc
find-All P p (x ∷ xs) a h e = elim (Bool-cases (p x)) [
  | inl q ↦ ground (arith, q, e, h.0)
  | inr q ↦ find-All P p xs a h.1 (ground (arith, q, e))
]

raise_twice :
    (m : Dict (String × String) ℤ) (key : String × String) (old : Option ℤ) (newer older : ℤ)
    → get m key ≡ old
    → older ≤ℤ newer
    → insert
        (insert m key (raise newer old))
        key
        (raise older (get (insert m key (raise newer old)) key))
      ≡ insert m key (raise newer old)
raise_twice m key old newer older e h = rw get-insert (
    rw (==_refl {A = String × String} key) (
      rw (insert_twice m key (raise newer old) (raise older (some (raise newer old))))
        (ap (insert m key) (raise_older old newer older h))))

-- A usage sync after another one for the same user and day, with a total that is not larger,
-- changes nothing: a total sent again, or one that arrives late, is not counted.
pub reconcile_usage_seconds_twice :
    (db : Db) (user date : String) (newer older : ℤ)
    → older ≤ℤ newer
    → reconcile_usage_seconds (reconcile_usage_seconds db user date newer) user date older
      ≡ reconcile_usage_seconds db user date newer
unfolding reconcile_usage_seconds
reconcile_usage_seconds_twice db user date newer older h =
    let rows = db.daily_usage in
    let old = get rows (user, date) in
    ap (λ m. record db { daily_usage = m }) (raise_twice rows (user, date) old newer older refl h)
