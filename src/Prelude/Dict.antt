-- ===== src/Prelude/Dict.antt =====
-- `HashMap` and `HashSet` of the standard library, as association lists. A key stands once; the
-- order of entries is the order of insertion, on which no theorem depends.
use screenguard.Prelude.{
  ◌≡◌, refl, ◌≢◌, Bool, Option, none, some, List, [], ◌∷◌, arith, PartialEq, ◌==◌, if◌then◌else◌,
  is_some, inl, inr, Bool-cases, ==_refl, ==_ne,
}

abbrev pub Dict {ℓ κ} : Type ℓ → Type κ → Type (ℓ ⊔ κ)
Dict K V = List (K × V)

module _ {ℓ κ} {K : Type ℓ} {V : Type κ} ⦃e : PartialEq K⦄ where
  -- `get`
  unfoldable pub get : Dict K V → K → Option V
  get [] k = none
  get ((j, v) ∷ m) k = if j == k then some v else get m k

  -- `insert`
  unfoldable pub insert : Dict K V → K → V → Dict K V
  insert [] k v = (k, v) ∷ []
  insert ((j, w) ∷ m) k v = if j == k then (k, v) ∷ m else (j, w) ∷ insert m k v

  -- `remove`
  unfoldable pub remove : Dict K V → K → Dict K V
  remove [] k = []
  remove ((j, w) ∷ m) k = let rest = remove m k in if j == k then rest else (j, w) ∷ rest

  -- `retain`
  unfoldable pub retain : (K → V → Bool) → Dict K V → Dict K V
  retain p [] = []
  retain p ((j, w) ∷ m) = let rest = retain p m in if p j w then (j, w) ∷ rest else rest

  -- `entry(k).or_default()` reads `d` where the key is missing.
  abbrev pub get_or : V → Dict K V → K → V
  get_or d m k = elim (get m k) [ none ↦ d | some v ↦ v ]

  abbrev pub contains_key : Dict K V → K → Bool
  contains_key m k = is_some (get m k)

  pub get-cons :
      (j : K) (v : V) (m : Dict K V) (k : K)
      → get ((j, v) ∷ m) k ≡ (if j == k then some v else get m k)
  unfolding get
  get-cons j v m k = refl

  pub get-nil : (k : K) → get [] k ≡ none
  unfolding get
  get-nil k = refl

  pub get-insert :
      (m : Dict K V) (k : K) (v : V) (j : K)
      → get (insert m k v) j ≡ (if k == j then some v else get m j)
  unfolding get insert
  get-insert [] k v j = refl
  get-insert ((i, w) ∷ m) k v j =
      ground (arith, e.same_iff k j, e.same_iff i k, e.same_iff i j, get-insert m k v j)

  pub get-remove :
      (m : Dict K V) (k j : K) → get (remove m k) j ≡ (if k == j then none else get m j)
  unfolding get remove
  get-remove [] k j = ground arith
  get-remove ((i, w) ∷ m) k j =
      ground (arith, e.same_iff k j, e.same_iff i k, e.same_iff i j, get-remove m k j)

  -- What `retain` keeps of one entry.
  abbrev pub kept : (K → V → Bool) → K → Option V → Option V
  kept p k none = none
  kept p k (some v) = if p k v then some v else none

  -- The keys stand once each.
  abbrev pub IsDict : Dict K V → Type (ℓ ⊔ κ)
  IsDict [] = Unit
  IsDict ((j, w) ∷ m) = (get m j ≡ none) × IsDict m

  pub get-insert_self : (m : Dict K V) (k : K) (v : V) → get (insert m k v) k ≡ some v
  get-insert_self m k v = simp (get-insert, ==_refl)

  pub get-insert_ne :
      (m : Dict K V) (k : K) (v : V) (j : K) → k ≢ j → get (insert m k v) j ≡ get m j
  get-insert_ne m k v j h = simp (get-insert, ==_ne k j h)

  pub get-remove_ne : (m : Dict K V) (k j : K) → k ≢ j → get (remove m k) j ≡ get m j
  get-remove_ne m k j h = simp (get-remove, ==_ne k j h)

  -- On a dictionary whose keys stand once, an entry is kept exactly if the test accepts it.
  pub get-retain :
      (p : K → V → Bool) (m : Dict K V) (k : K) → IsDict m → get (retain p m) k ≡ kept p k (get m k)
  unfolding get retain
  get-retain p [] k h = refl
  get-retain p ((i, w) ∷ m) k h = ground (arith, e.same_iff i k, get-retain p m k h.1)

  pub insert-IsDict : (m : Dict K V) (k : K) (v : V) → IsDict m → IsDict (insert m k v)
  unfolding get insert
  insert-IsDict [] k v h = (refl, tt)
  insert-IsDict ((i, w) ∷ m) k v h = elim (Bool-cases (i == k)) [
    | inl p ↦ rw p (ground (arith, e.same_iff i k), h.1)
    | inr p ↦ rw p (
      ground (arith, get-insert m k v i, e.same_iff k i, e.same_iff i k),
      insert-IsDict m k v h.1,
    )
  ]

  pub remove-IsDict : (m : Dict K V) (k : K) → IsDict m → IsDict (remove m k)
  unfolding get remove
  remove-IsDict [] k h = tt
  remove-IsDict ((i, w) ∷ m) k h =
      ground (arith, get-remove m k i, e.same_iff i k, e.same_iff k i, remove-IsDict m k h.1)

  pub retain-IsDict : (p : K → V → Bool) (m : Dict K V) → IsDict m → IsDict (retain p m)
  unfolding get retain
  retain-IsDict p [] h = tt
  retain-IsDict p ((i, w) ∷ m) h = ground (arith, get-retain p m i h.1, retain-IsDict p m h.1)
