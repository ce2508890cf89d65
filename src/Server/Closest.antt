-- ===== src/Server/Closest.antt =====
-- What `check_schedule_windows` finds, told from the windows of the day one by one.
use screenguard.Prelude.{
  eq_nat, ℕ, ◌≤◌, ◌<◌, ◌≡◌, ◌↔◌, ◌⊎◌, inl, inr, refl, Option, none, some, List, [], ◌∷◌, ◌==◌,
  filter, leb, ltb, if◌then◌else◌, ◌>>=◌, ◌&&◌, Bool-cases, arith, Any, here, there, Any-map,
  Option-cases,
}
use screenguard.Times.{NaiveTime}
use screenguard.Text.{filter_map}
use screenguard.Server.Db.{Schedule}
use screenguard.Server.Windows.{
  Zones, sooner, min_time, parse_time, active_end, next_start, check_schedule_windows,
}

module _ {T : Type 0} ⦃c : NaiveTime T⦄ where
  -- The earliest of the times with the property, if there is one.
  abbrev pub Earliest : (T → Type 0) → Option T → Type 0
  Earliest P none = (t : T) → P t → ⊥
  Earliest P (some t) = P t × ((u : T) → P u → c.nanos t ≤ c.nanos u)

  Earliest-cons_none :
      {A : Type 0} (f : A → Option T) (x : A) (xs : List A) (o : Option T)
      → f x ≡ none
      → Earliest (λ t. Any (λ a. f a ≡ some t) xs) o
      → Earliest (λ t. Any (λ a. f a ≡ some t) (x ∷ xs)) o
  Earliest-cons_none f x xs none e h = λ t. elim [ here p ↦ cc | there q ↦ h t q ]
  Earliest-cons_none f x xs (some m) e h =
      (there h.0, λ u. elim [ here p ↦ absurd cc | there q ↦ h.1 u q ])

  sooner-cases :
      (t m : T)
      → ((sooner t (some m) ≡ t) × (c.nanos t ≤ c.nanos m))
        ⊎ ((sooner t (some m) ≡ m) × (c.nanos m < c.nanos t))
  sooner-cases t m = ground arith

  Earliest-cons_some :
      {A : Type 0} (f : A → Option T) (x : A) (xs : List A) (t : T) (o : Option T)
      → f x ≡ some t
      → Earliest (λ t. Any (λ a. f a ≡ some t) xs) o
      → Earliest (λ t. Any (λ a. f a ≡ some t) (x ∷ xs)) (some (sooner t o))
  Earliest-cons_some f x xs t none e h =
      (here e, λ u. elim [ here p ↦ ground (arith, e, p) | there q ↦ absurd (h u q) ])
  Earliest-cons_some f x xs t (some m) e h = elim (sooner-cases t m) [
    | inl (q, le) ↦
        rw q (
          here e,
          λ u. elim [ here p ↦ ground (arith, e, p) | there r ↦ omega (arith, h.1 u r, le) ],
        )
    | inr (q, lt) ↦
        rw q (there h.0, λ u. elim [ here p ↦ ground (arith, e, p, lt) | there r ↦ h.1 u r ])
  ]

  filter_map-Earliest :
      {A : Type 0} (f : A → Option T) (xs : List A)
      → Earliest (λ t. Any (λ a. f a ≡ some t) xs) (min_time (filter_map f xs))
  filter_map-Earliest f [] = λ t h. elim h [ ]
  filter_map-Earliest f (x ∷ xs) = elim (Option-cases (f x)) [
    | inl e ↦ rw e (Earliest-cons_none f x xs _ e (filter_map-Earliest f xs))
    | inr (t, e) ↦ rw e (Earliest-cons_some f x xs t _ e (filter_map-Earliest f xs))
  ]

  Earliest-iff :
      (P Q : T → Type 0) (o : Option T) → ((t : T) → P t ↔ Q t) → Earliest P o → Earliest Q o
  Earliest-iff P Q none i h = λ t q. h t ((i t).1 q)
  Earliest-iff P Q (some t) i h = ((i t).0 h.0, λ u q. h.1 u ((i u).1 q))

Any-filter_iff :
    (P : Schedule → Type 0) (weekday : ℕ) (xs : List Schedule)
    → Any P (filter (λ (s : Schedule). s.day_of_week == weekday) xs)
      ↔ Any (λ s. (s.day_of_week ≡ weekday) × P s) xs
Any-filter_iff P weekday [] = (λ h. elim h [ ], λ h. elim h [ ])
Any-filter_iff P weekday (x ∷ xs) = elim (Bool-cases (x.day_of_week == weekday)) [
  | inl e ↦ rw e (
    λ h. elim h [
      | here p ↦ here ((eq_nat.same_iff x.day_of_week weekday).0 e, p)
      | there q ↦ there ((Any-filter_iff P weekday xs).0 q)
    ],
    λ h. elim h [ here p ↦ here p.1 | there q ↦ there ((Any-filter_iff P weekday xs).1 q) ],
  )
  | inr e ↦ rw e (
    λ h. there ((Any-filter_iff P weekday xs).0 h),
    λ h. elim h [
      | here p ↦ absurd (ground (arith, e, p.0))
      | there q ↦ (Any-filter_iff P weekday xs).1 q
    ],
  )
]

module _ {T : Type 0} ⦃c : NaiveTime T⦄ ⦃z : Zones T⦄ where
  -- The row is a window of the day that holds `now`, its start included and its end `t` not.
  abbrev pub EndsAt : ℕ → T → T → Schedule → Type 0
  EndsAt weekday now t s =
      (s.day_of_week ≡ weekday)
      × ((start : T) × (parse_time s.start_time ≡ some start)
          × (parse_time s.end_time ≡ some t)
          × (c.nanos start ≤ c.nanos now)
          × (c.nanos now < c.nanos t))

  -- The row is a window of the day that starts at `t`, after `now`.
  abbrev pub StartsAt : ℕ → T → T → Schedule → Type 0
  StartsAt weekday now t s =
      (s.day_of_week ≡ weekday) × (parse_time s.start_time ≡ some t) × (c.nanos now < c.nanos t)

  open_until_iff :
      (now t : T) (o p : Option T)
      → ((o >>= λ start. p >>= λ end.
            if leb (c.nanos start) (c.nanos now) && ltb (c.nanos now) (c.nanos end)
            then some end
            else none)
          ≡ some t)
        ↔ ((start : T) × (o ≡ some start)
            × (p ≡ some t)
            × (c.nanos start ≤ c.nanos now)
            × (c.nanos now < c.nanos t))
  open_until_iff now t none p = (λ h. absurd cc, λ h. absurd (ground (arith, h.1)))
  open_until_iff now t (some start) none = (λ h. absurd cc, λ h. absurd (ground (arith, h.2)))
  open_until_iff now t (some start) (some end) = (
    λ h. (start, refl, ground arith, ground arith, ground arith),
    λ h. ground (arith, h.1, h.2, h.3, h.4),
  )

  opens_at_iff :
      (weekday day : ℕ) (now t : T) (o : Option T)
      → ((o >>= λ start.
            if day == weekday && ltb (c.nanos now) (c.nanos start) then some start else none)
          ≡ some t)
        ↔ ((day ≡ weekday) × (o ≡ some t) × (c.nanos now < c.nanos t))
  opens_at_iff weekday day now t none = (λ h. absurd cc, λ h. absurd (ground (arith, h.1)))
  opens_at_iff weekday day now t (some start) = ground arith

  active_end_iff :
      (now t : T) (s : Schedule)
      → (active_end now s ≡ some t) ↔ (
          (start : T) × (parse_time s.start_time ≡ some start)
          × (parse_time s.end_time ≡ some t)
          × (c.nanos start ≤ c.nanos now)
          × (c.nanos now < c.nanos t))
  unfolding active_end
  active_end_iff now t s = open_until_iff now t (parse_time s.start_time) (parse_time s.end_time)

  next_start_iff :
      (weekday : ℕ) (now t : T) (s : Schedule)
      → (next_start weekday now s ≡ some t) ↔ StartsAt weekday now t s
  unfolding next_start
  next_start_iff weekday now t s =
      opens_at_iff weekday s.day_of_week now t (parse_time s.start_time)

  ends_iff :
      (weekday : ℕ) (now : T) (schedules : List Schedule) (t : T)
      → Any
          (λ s. active_end now s ≡ some t)
          (filter (λ (s : Schedule). s.day_of_week == weekday) schedules)
        ↔ Any (EndsAt weekday now t) schedules
  ends_iff weekday now schedules t =
      let f = Any-filter_iff (λ s. active_end now s ≡ some t) weekday schedules in
      (
        λ h. Any-map _ _ (λ s p. (p.0, (active_end_iff now t s).0 p.1)) (f.0 h),
        λ h. f.1 (Any-map _ _ (λ s p. (p.0, (active_end_iff now t s).1 (p.1))) h),
      )

  starts_iff :
      (weekday : ℕ) (now : T) (schedules : List Schedule) (t : T)
      → Any (λ s. next_start weekday now s ≡ some t) schedules
        ↔ Any (StartsAt weekday now t) schedules
  starts_iff weekday now schedules t = (
    Any-map _ _ (λ s. (next_start_iff weekday now t s).0),
    Any-map _ _ (λ s. (next_start_iff weekday now t s).1),
  )

  -- The first time that `check_schedule_windows` returns is the earliest end of the windows of the
  -- weekday that hold the time, and there is none exactly when no window does; the second is the
  -- earliest start of the windows of the weekday that start later, and there is none exactly when
  -- no window does.
  pub check_schedule_windows-Earliest :
      (schedules : List Schedule) (weekday : ℕ) (now : T)
      → Earliest
          (λ t. Any (EndsAt weekday now t) schedules)
          (check_schedule_windows schedules weekday now).0
        × Earliest
            (λ t. Any (StartsAt weekday now t) schedules)
            (check_schedule_windows schedules weekday now).1
  unfolding check_schedule_windows
  check_schedule_windows-Earliest schedules weekday now = (
    Earliest-iff _ _ _ (ends_iff weekday now schedules) (filter_map-Earliest (active_end now) _),
    Earliest-iff _ _ _ (starts_iff weekday now schedules)
        (filter_map-Earliest (next_start weekday now) schedules),
  )
