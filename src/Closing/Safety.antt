-- ===== src/Closing/Safety.antt =====
-- Whom signals reach: only live processes that are targets of the call.
use screenguard.Prelude.{
  eq_nat, eq_string, eq_pair, ◌≡◌, refl, sym, subst, ◌⊎◌, inl, inr, List, [], ◌∷◌, true, Any, here,
  there, arith,
}
use screenguard.Usage.Accounting.{Instant}
use screenguard.Closing.Targets.{Target}
use screenguard.Closing.Closer.{
  Signal, term, kill, Alive, Closer, Progress, forget, first_seen, on_stage, advance, advance_all,
  enforce,
}

-- A signal for the process of a target: SIGTERM for the top process of an app alone.
abbrev pub IsFor : Signal → Target → Type 0
IsFor (term p s) t = (p ≡ t.pid) × (s ≡ t.start_ticks) × (t.top ≡ true)
IsFor (kill p s) t = (p ≡ t.pid) × (s ≡ t.start_ticks)

module _ (alive : Alive) (now : Instant) where
  advance_sends :
      (t : Target) (s : Progress)
      → ((advance alive now t s).sent ≡ s.sent)
        ⊎ ((alive s.sent t.pid t.start_ticks ≡ true)
            × (((t.top ≡ true) × ((advance alive now t s).sent ≡ term t.pid t.start_ticks ∷ s.sent))
                ⊎ ((advance alive now t s).sent ≡ kill t.pid t.start_ticks ∷ s.sent)))
  unfolding advance on_stage first_seen
  advance_sends t s = ground arith

  -- The signals of a run of steps, the latest first: each is for one of the targets, alive when the
  -- signal was sent.
  pub data Sends (ts : List Target) : List Signal → List Signal → Type 0 where
    idle : {sent : List Signal} → Sends ts sent sent
    one :
        {sent sent' : List Signal} (sig : Signal)
        → Any (λ (t : Target). IsFor sig t × (alive sent' t.pid t.start_ticks ≡ true)) ts
        → Sends ts sent sent'
        → Sends ts sent (sig ∷ sent')

  Sends-there :
      (t : Target) (ts : List Target) {sent sent' : List Signal}
      → Sends ts sent sent'
      → Sends (t ∷ ts) sent sent'
  Sends-there t ts idle = idle
  Sends-there t ts (one sig m r) = one sig (there m) (Sends-there t ts r)

  Sends-trans :
      (ts : List Target) {a b c : List Signal} → Sends ts a b → Sends ts b c → Sends ts a c
  Sends-trans ts r idle = r
  Sends-trans ts r (one sig m q) = one sig m (Sends-trans ts r q)

  advance-Sends :
      (t : Target) (ts : List Target) (s : Progress)
      → Sends (t ∷ ts) s.sent (advance alive now t s).sent
  advance-Sends t ts s = elim (advance_sends t s) [
    | inl same ↦ subst (λ (x : List Signal). Sends (t ∷ ts) s.sent x) (sym same) idle
    | inr (up, inl (top, e)) ↦
        subst (λ (x : List Signal). Sends (t ∷ ts) s.sent x) (sym e)
          (one (term t.pid t.start_ticks) (here ((refl, refl, top), up)) idle)
    | inr (up, inr e) ↦
        subst (λ (x : List Signal). Sends (t ∷ ts) s.sent x) (sym e)
          (one (kill t.pid t.start_ticks) (here ((refl, refl), up)) idle)
  ]

  advance_all-Sends :
      (ts : List Target) (s : Progress) → Sends ts s.sent (advance_all alive now ts s).sent
  unfolding advance_all
  advance_all-Sends [] s = idle
  advance_all-Sends (t ∷ ts) s =
      Sends-trans (t ∷ ts) (advance-Sends t ts s)
        (Sends-there t ts (advance_all-Sends ts (advance alive now t s)))

  -- Whatever the closer's state: each signal that a call sends is for the process of one of its
  -- targets, alive with that start time when the signal was sent, and a SIGTERM is for the top
  -- process of an app.
  pub enforce-Sends :
      (ts : List Target) (sent : List Signal) (c : Closer)
      → Sends ts sent (enforce alive now ts sent c).sent
  unfolding enforce
  enforce-Sends ts sent c =
      advance_all-Sends ts (record { closer = forget now ts c; notices = []; sent = sent })
