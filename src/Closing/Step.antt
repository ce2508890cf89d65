-- ===== src/Closing/Step.antt =====
-- What one step of the closer does to its own target, and that it leaves the other targets alone.
use screenguard.Prelude.{
  eq_nat, eq_string, eq_pair, ℕ, ◌-◌, ◌==◌, ◌≡◌, ◌≢◌, ◌⊎◌, inl, inr, List, [], ◌∷◌, ◌++◌, none,
  some, Bool, true, false, ◌&&◌, filter, if◌then◌else◌, leb, arith, Bool-cases, Option-cases,
  ==_refl, ==_ne,
}
use screenguard.Prelude.Dict.{
  get, get-insert_self, get-insert_ne, get-remove_ne, IsDict, insert-IsDict, remove-IsDict,
}
use screenguard.Usage.Accounting.{Instant}
use screenguard.Closing.Targets.{limit, immediate, Target}
use screenguard.Closing.Closer.{
  grace, recent, Signal, term, kill, Alive, Stage, warned, termed, Notice, Progress, key_of,
  told_key, set_stage, send_term, notice_of, tell, first_seen, on_stage, advance,
}

-- The signals sent to a process, by its id and start time.
abbrev pub is_to : ℕ × ℕ → Signal → Bool
is_to k (term p s) = (p, s) == k
is_to k (kill p s) = (p, s) == k

abbrev pub signals_to : ℕ × ℕ → List Signal → List Signal
signals_to k sent = filter (is_to k) sent

-- A target that was seen before, and whose process is still alive: the signals of this step, and
-- its next stage.
abbrev pub due_signals : Instant → Target → Stage → List Signal
due_signals now t (warned at) =
    if leb grace (now - at) && t.top then term t.pid t.start_ticks ∷ [] else []
due_signals now t (termed at) = if leb grace (now - at) then kill t.pid t.start_ticks ∷ [] else []

abbrev pub next_stage : Instant → Stage → Stage
next_stage now (warned at) = if leb grace (now - at) then termed now else warned at
next_stage now (termed at) = termed at

pub send_term-signals :
    (t : Target) (s : Progress)
    → signals_to (key_of t) (send_term t s).sent
      ≡ (if t.top then term t.pid t.start_ticks ∷ [] else []) ++ signals_to (key_of t) s.sent
send_term-signals t s = ground (arith, ==_refl (key_of t))

pub recent_now : (now : Instant) → recent now (some now) ≡ true
recent_now now = ground arith

module _ (alive : Alive) (now : Instant) where
  -- The step of another target neither signals this process nor moves its stage.
  pub advance_other :
      (u : Target) (k : ℕ × ℕ) (s : Progress)
      → key_of u ≢ k
      → (signals_to k (advance alive now u s).sent ≡ signals_to k s.sent)
        × (get (advance alive now u s).stage k ≡ get s.stage k)
  unfolding advance on_stage first_seen
  advance_other u k s ne = ground (
    arith,
    ==_ne (key_of u) k ne,
    get-remove_ne s.stage (key_of u) k ne,
    get-insert_ne s.stage (key_of u) (termed now) k ne,
    get-insert_ne s.stage (key_of u) (warned now) k ne,
  )

  -- The step of a target that was seen before.
  pub advance_seen :
      (t : Target) (st : Stage) (s : Progress)
      → alive s.sent t.pid t.start_ticks ≡ true
      → get s.stage (key_of t) ≡ some st
      → (signals_to (key_of t) (advance alive now t s).sent
          ≡ due_signals now t st ++ signals_to (key_of t) s.sent)
        × (get (advance alive now t s).stage (key_of t) ≡ some (next_stage now st))
  unfolding advance on_stage
  advance_seen t (warned at) s up e =
      ground (arith, up, e, ==_refl (key_of t), get-insert_self s.stage (key_of t) (termed now))
  advance_seen t (termed at) s up e =
      ground (arith, up, e, ==_refl (key_of t), get-insert_self s.stage (key_of t) (termed now))

  -- The step of a target seen for the first time, out of time and not told of lately: a warning, no
  -- signal, and the grace period begins.
  pub advance_unseen :
      (t : Target) (s : Progress)
      → alive s.sent t.pid t.start_ticks ≡ true
      → get s.stage (key_of t) ≡ none
      → recent now (get s.told (told_key t)) ≡ false
      → t.reason ≡ limit
      → advance alive now t s ≡ set_stage t (warned now) (tell now t false s)
  unfolding advance on_stage first_seen immediate
  advance_unseen t s up e quiet why = ground (arith, up, e, quiet, why)

  -- The step of a target seen for the first time whose key was told of lately: no notice, and the
  -- SIGTERM at once.
  pub advance_relaunched :
      (t : Target) (s : Progress)
      → alive s.sent t.pid t.start_ticks ≡ true
      → get s.stage (key_of t) ≡ none
      → recent now (get s.told (told_key t)) ≡ true
      → advance alive now t s ≡ set_stage t (termed now) (send_term t s)
  unfolding advance on_stage first_seen
  advance_relaunched t s up e told = ground (arith, up, e, told)

  -- The maps of a closer hold each key once.
  pub advance-IsDict :
      (t : Target) (s : Progress)
      → IsDict s.stage
      → IsDict s.told
      → IsDict (advance alive now t s).stage × IsDict (advance alive now t s).told
  unfolding advance on_stage first_seen
  advance-IsDict t s h k = ground (
    arith,
    h,
    k,
    remove-IsDict s.stage (key_of t) h,
    insert-IsDict s.stage (key_of t) (termed now) h,
    insert-IsDict s.stage (key_of t) (warned now) h,
    insert-IsDict s.told (told_key t) now k,
  )

  -- A step adds at most one notice, behind the others.
  pub advance-notices :
      (t : Target) (s : Progress)
      → ((advance alive now t s).notices ≡ s.notices)
        ⊎ ((n : Notice) × ((advance alive now t s).notices ≡ s.notices ++ n ∷ []))
  unfolding advance on_stage first_seen
  advance-notices t s = elim (Bool-cases (recent now (get s.told (told_key t)))) [
    | inl e ↦ inl (ground (arith, e))
    | inr e ↦ elim (Option-cases (get s.stage (key_of t))) [
      | inr (st, p) ↦ inl (ground (arith, e, p))
      | inl p ↦ elim (Bool-cases (alive s.sent t.pid t.start_ticks)) [
        | inr gone ↦ inl (ground (arith, gone))
        | inl up ↦ inr (notice_of t (immediate t.reason), ground (arith, e, p, up))
      ]
    ]
  ]
