-- ===== src/Closing/Escalation.antt =====
-- Warn, then SIGTERM, then SIGKILL: what `enforce` does with a target over several calls.
use screenguard.Prelude.{
  eq_nat, eq_string, eq_pair, ℕ, ◌≡◌, sym, ap, ◌∙◌, String, List, [], ◌∷◌, ◌++◌, none, some, true,
  false, if◌then◌else◌, Any,
}
use screenguard.Prelude.Dict.{get, get-insert_self}
use screenguard.Usage.Accounting.{Instant}
use screenguard.Closing.Targets.{limit, Target}
use screenguard.Closing.Closer.{
  recent, Signal, term, Alive, Stage, warned, termed, Closer, Notice, Progress, key_of, told_key,
  send_term, notice_of, tell, forget, advance, advance_all, enforce,
}
use screenguard.Closing.Step.{
  signals_to, due_signals, next_stage, advance_other, advance_unseen, advance_relaunched,
  send_term-signals, recent_now,
}
use screenguard.Closing.Rounds.{
  Distinct, IsValid, advance_all_other, advance_all_seen, forget-stage, forget-recent,
  forget-stage_none, advance_all-notices, contains-key_of,
}

-- The process of the target stays alive, whatever it is sent.
abbrev pub StaysAlive : Alive → Target → Type 0
StaysAlive alive t = (sent : List Signal) → alive sent t.pid t.start_ticks ≡ true

module _ (alive : Alive) (now : Instant) (sent : List Signal) (c : Closer) where
  abbrev start : List Target → Progress
  start ts = record { closer = forget now ts c; notices = []; sent = sent }

  -- A call of `enforce` with distinct targets, for one that an earlier call has seen and whose
  -- process lives: warned less than the grace period ago, it gets no signal; longer ago, the top
  -- process of an app gets SIGTERM, and its stage is `termed` from now on; termed at least the grace
  -- period ago, it gets SIGKILL. The other targets make no difference.
  pub enforce_seen :
      (ts : List Target) (t : Target) (st : Stage)
      → IsValid c
      → Distinct ts
      → Any (λ (u : Target). u ≡ t) ts
      → StaysAlive alive t
      → get c.stage (key_of t) ≡ some st
      → (signals_to (key_of t) (enforce alive now ts sent c).sent
          ≡ due_signals now t st ++ signals_to (key_of t) sent)
        × (get (enforce alive now ts sent c).stage (key_of t) ≡ some (next_stage now st))
  unfolding enforce
  enforce_seen ts t st v d m up e =
      advance_all_seen alive now ts t st (start ts) d m up
        (forget-stage now ts c (key_of t) v ∙ rw (contains-key_of ts t m) e)

  -- The first target of a call, seen for the first time: out of time, and its group not told of in
  -- the last minute. It gets no signal, one notice comes that it closes in ten seconds, and the
  -- grace period begins.
  pub enforce_first :
      (t : Target) (ts : List Target)
      → IsValid c
      → Distinct (t ∷ ts)
      → StaysAlive alive t
      → get c.stage (key_of t) ≡ none
      → recent now (get c.told (told_key t)) ≡ false
      → t.reason ≡ limit
      → (signals_to (key_of t) (enforce alive now (t ∷ ts) sent c).sent
          ≡ signals_to (key_of t) sent)
        × (get (enforce alive now (t ∷ ts) sent c).stage (key_of t) ≡ some (warned now))
        × ((more : List Notice) × ((enforce alive now (t ∷ ts) sent c).notices
              ≡ notice_of t false ∷ more))
  unfolding enforce advance_all
  enforce_first t ts v d up e quiet why =
      let s = start (t ∷ ts) in
      let first =
        advance_unseen alive now t s (up sent) (forget-stage_none now (t ∷ ts) c (key_of t) v e)
          (forget-recent now (t ∷ ts) c (told_key t) v ∙ quiet) why in
      let rest = advance_all-notices alive now ts (advance alive now t s) in
      let (a, b) = advance_all_other alive now ts (key_of t) (advance alive now t s) d.0 in
      (
        a ∙ ap (λ (p : Progress). signals_to (key_of t) p.sent) first,
        b
            ∙ ap (λ (p : Progress). get p.stage (key_of t)) first
            ∙ get-insert_self (forget now (t ∷ ts) c).stage (key_of t) (warned now),
        (rest.0, rest.1 ∙ ap (λ (p : Progress). p.notices ++ rest.0) first),
      )

  -- Two processes of one key, both out of time, new and not told of in the last minute: the first is
  -- warned, with ten seconds to go. The second, for which the notice is fresh, counts as relaunched:
  -- a top process gets SIGTERM in the same call, and its stage is `termed`.
  pub enforce_second :
      (t u : Target) (ts : List Target)
      → IsValid c
      → Distinct (t ∷ u ∷ ts)
      → StaysAlive alive t
      → StaysAlive alive u
      → get c.stage (key_of t) ≡ none
      → get c.stage (key_of u) ≡ none
      → told_key u ≡ told_key t
      → recent now (get c.told (told_key t)) ≡ false
      → t.reason ≡ limit
      → (signals_to (key_of u) (enforce alive now (t ∷ u ∷ ts) sent c).sent
          ≡ (if u.top then term u.pid u.start_ticks ∷ [] else []) ++ signals_to (key_of u) sent)
        × (get (enforce alive now (t ∷ u ∷ ts) sent c).stage (key_of u) ≡ some (termed now))
  unfolding enforce advance_all
  enforce_second t u ts v d upt upu et eu same quiet why =
      let s = start (t ∷ u ∷ ts) in
      let first =
        advance_unseen alive now t s (upt sent)
          (forget-stage_none now (t ∷ u ∷ ts) c (key_of t) v et)
          (forget-recent now (t ∷ u ∷ ts) c (told_key t) v ∙ quiet) why in
      let s1 = advance alive now t s in
      let (a, b) = advance_other alive now t (key_of u) s (λ p. d.0.0 (sym p)) in
      let told : get s1.told (told_key u) ≡ some now =
        ap (λ (p : Progress). get p.told (told_key u)) first
        ∙ ap (λ (k : ℕ × String). get (tell now t false s).told k) same
        ∙ get-insert_self s.told (told_key t) now in
      let fresh : recent now (get s1.told (told_key u)) ≡ true =
        ap (recent now) told ∙ recent_now now in
      let second =
        advance_relaunched alive now u s1 (upu s1.sent)
          (b ∙ forget-stage_none now (t ∷ u ∷ ts) c (key_of u) v eu) fresh in
      let s2 = advance alive now u s1 in
      let (c', d') = advance_all_other alive now ts (key_of u) s2 d.1.0 in
      (
        c'
            ∙ ap (λ (p : Progress). signals_to (key_of u) p.sent) second
            ∙ (send_term-signals u s1
                ∙ ap
                    (λ (x : List Signal).
                      (if u.top then term u.pid u.start_ticks ∷ [] else []) ++ x)
                    a),
        d'
            ∙ ap (λ (p : Progress). get p.stage (key_of u)) second
            ∙ get-insert_self (send_term u s1).stage (key_of u) (termed now),
      )
