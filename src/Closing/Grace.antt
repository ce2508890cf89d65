-- ===== src/Closing/Grace.antt =====
-- Several calls of `enforce`: a target alone keeps its two grace periods; a second process of the
-- same key does not.
use screenguard.Prelude.{
  eq_nat, eq_string, eq_pair, ◌+◌, ◌≤◌, ◌≡◌, ap, ◌∙◌, List, [], ◌∷◌, ◌++◌, none, Bool, true, false,
  if◌then◌else◌, Any, arith,
}
use screenguard.Prelude.Dict.{get}
use screenguard.Usage.Accounting.{Instant}
use screenguard.Closing.Targets.{limit, Target}
use screenguard.Closing.Closer.{
  grace, recent, Signal, term, kill, Alive, warned, termed, Closer, Progress, key_of, told_key,
  enforce,
}
use screenguard.Closing.Step.{signals_to, due_signals}
use screenguard.Closing.Rounds.{Distinct, IsValid, enforce-IsValid}
use screenguard.Closing.Escalation.{StaysAlive, enforce_seen, enforce_first, enforce_second}

-- The next call goes on from the closer and the signals of the last one.
abbrev pub enforce_again : Alive → Instant → List Target → Progress → Progress
enforce_again alive now ts p = enforce alive now ts p.sent p.closer

module _ (alive : Alive) (sent : List Signal) (c : Closer) (t0 t1 t2 : Instant) where
  due_warned :
      (t : Target) (at now : Instant)
      → at + grace ≤ now
      → t.top ≡ true
      → due_signals now t (warned at) ≡ term t.pid t.start_ticks ∷ []
  due_warned t at now h top = ground arith

  due_termed :
      (t : Target) (at now : Instant)
      → at + grace ≤ now
      → due_signals now t (termed at) ≡ kill t.pid t.start_ticks ∷ []
  due_termed t at now h = ground arith

  -- The first two targets of a call have one key, and are out of time, new, and not told of in the
  -- last minute; the first is the top process of its app, the second a helper; both live on and are
  -- targets of the second call; the targets of a call are distinct. At a call ten seconds
  -- or more later the helper gets SIGKILL in the very call in which the top process gets its
  -- SIGTERM: it has had no time to close its helpers.
  pub enforce_kills_helper :
      (t u : Target) (a b : List Target)
      → IsValid c
      → Distinct (t ∷ u ∷ a)
      → Distinct b
      → Any (λ (x : Target). x ≡ t) b
      → Any (λ (x : Target). x ≡ u) b
      → StaysAlive alive t
      → StaysAlive alive u
      → get c.stage (key_of t) ≡ none
      → get c.stage (key_of u) ≡ none
      → told_key u ≡ told_key t
      → recent t0 (get c.told (told_key t)) ≡ false
      → t.reason ≡ limit
      → t.top ≡ true
      → u.top ≡ false
      → t0 + grace ≤ t1
      → let p0 = enforce alive t0 (t ∷ u ∷ a) sent c in
        let p1 = enforce_again alive t1 b p0 in
        (signals_to (key_of t) p1.sent ≡ term t.pid t.start_ticks ∷ signals_to (key_of t) sent)
        × (signals_to (key_of u) p1.sent ≡ kill u.pid u.start_ticks ∷ signals_to (key_of u) sent)
  enforce_kills_helper t u a b v da db mt mu upt upu et eu same quiet why top helper gap =
      let p0 = enforce alive t0 (t ∷ u ∷ a) sent c in
      let v0 = enforce-IsValid alive t0 (t ∷ u ∷ a) sent c v in
      let (s0, st0, more) = enforce_first alive t0 sent c t (u ∷ a) v da upt et quiet why in
      let (r0, rt0) = enforce_second alive t0 sent c t u a v da upt upu et eu same quiet why in
      let (s1, st1) = enforce_seen alive t1 p0.sent p0.closer b t (warned t0) v0 db mt upt st0 in
      let (r1, rt1) = enforce_seen alive t1 p0.sent p0.closer b u (termed t0) v0 db mu upu rt0 in
      (
        s1
            ∙ ap (λ (x : List Signal). x ++ signals_to (key_of t) p0.sent)
                (due_warned t t0 t1 gap top)
            ∙ ap (λ (x : List Signal). term t.pid t.start_ticks ∷ x) s0,
        r1
            ∙ ap (λ (x : List Signal). x ++ signals_to (key_of u) p0.sent) (due_termed u t0 t1 gap)
            ∙ ap (λ (x : List Signal). kill u.pid u.start_ticks ∷ x)
                (r0
                  ∙ ap
                      (λ (x : Bool).
                        (if x then term u.pid u.start_ticks ∷ [] else [])
                        ++ signals_to (key_of u) sent)
                      helper),
      )
