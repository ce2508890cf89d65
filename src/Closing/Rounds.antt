-- ===== src/Closing/Rounds.antt =====
-- A call of `enforce` over all its targets.
use screenguard.Prelude.{
  eq_nat, eq_string, eq_pair, ℕ, ◌*◌, ◌≡◌, ◌≢◌, refl, sym, ap, ◌∙◌, subst, inl, inr, String, List,
  [], ◌∷◌, ◌++◌, none, some, true, contains, map, if◌then◌else◌, All, Any, here, there, arith,
  ==_refl,
}
use screenguard.Prelude.Dict.{get, get-retain, IsDict, retain-IsDict}
use mathlib.Core.List.{append-nil, append_assoc}
use screenguard.Usage.Accounting.{Instant}
use screenguard.Closing.Targets.{Target}
use screenguard.Closing.Closer.{
  relaunch_window, within, recent, Signal, Alive, Stage, Closer, Notice, Progress, key_of, forget,
  advance, advance_all, enforce,
}
use screenguard.Closing.Step.{
  signals_to, due_signals, next_stage, advance_other, advance_seen, advance-IsDict, advance-notices,
}

-- No two targets are the same process.
abbrev pub Distinct : List Target → Type 0
Distinct [] = Unit
Distinct (t ∷ ts) = All (λ (u : Target). key_of u ≢ key_of t) ts × Distinct ts

-- A target of the rest is another process than the first.
pub apart :
    (ts : List Target) (u t : Target)
    → All (λ (x : Target). key_of x ≢ key_of u) ts
    → Any (λ (x : Target). x ≡ t) ts
    → key_of u ≢ key_of t
apart [] u t d m = elim m [ ]
apart (x ∷ ts) u t d (here p) = λ e. d.0 (ap key_of p ∙ sym e)
apart (x ∷ ts) u t d (there m) = apart ts u t d.1 m

module _ (alive : Alive) (now : Instant) where
  pub advance_all_other :
      (ts : List Target) (k : ℕ × ℕ) (s : Progress)
      → All (λ (u : Target). key_of u ≢ k) ts
      → (signals_to k (advance_all alive now ts s).sent ≡ signals_to k s.sent)
        × (get (advance_all alive now ts s).stage k ≡ get s.stage k)
  unfolding advance_all
  advance_all_other [] k s ne = (refl, refl)
  advance_all_other (u ∷ ts) k s ne =
      let (a, b) = advance_other alive now u k s ne.0 in
      let (c, d) = advance_all_other ts k (advance alive now u s) ne.1 in (c ∙ a, d ∙ b)

  pub advance_all_seen :
      (ts : List Target) (t : Target) (st : Stage) (s : Progress)
      → Distinct ts
      → Any (λ (u : Target). u ≡ t) ts
      → ((sent : List Signal) → alive sent t.pid t.start_ticks ≡ true)
      → get s.stage (key_of t) ≡ some st
      → (signals_to (key_of t) (advance_all alive now ts s).sent
          ≡ due_signals now t st ++ signals_to (key_of t) s.sent)
        × (get (advance_all alive now ts s).stage (key_of t) ≡ some (next_stage now st))
  unfolding advance_all
  advance_all_seen [] t st s d m up e = elim m [ ]
  advance_all_seen (u ∷ ts) t st s d (here p) up e =
      let others : All (λ (x : Target). key_of x ≢ key_of t) ts =
        subst (λ (y : Target). All (λ (x : Target). key_of x ≢ key_of y) ts) p d.0 in
      let (a, b) = advance_seen alive now t st s (up s.sent) e in
      let (c, f) = advance_all_other ts (key_of t) (advance alive now t s) others in
      rw p (c ∙ a, f ∙ b)
  advance_all_seen (u ∷ ts) t st s d (there m) up e =
      let (a, b) = advance_other alive now u (key_of t) s (apart ts u t d.0 m) in
      let (c, f) = advance_all_seen ts t st (advance alive now u s) d.1 m up (b ∙ e) in
      (c ∙ ap (λ (x : List Signal). due_signals now t st ++ x) a, f)

  pub advance_all-IsDict :
      (ts : List Target) (s : Progress)
      → IsDict s.stage
      → IsDict s.told
      → IsDict (advance_all alive now ts s).stage × IsDict (advance_all alive now ts s).told
  unfolding advance_all
  advance_all-IsDict [] s h k = (h, k)
  advance_all-IsDict (t ∷ ts) s h k =
      let (h', k') = advance-IsDict alive now t s h k in
      advance_all-IsDict ts (advance alive now t s) h' k'

  pub advance_all-notices :
      (ts : List Target) (s : Progress)
      → (more : List Notice) × ((advance_all alive now ts s).notices ≡ s.notices ++ more)
  unfolding advance_all
  advance_all-notices [] s = ([], sym (append-nil s.notices))
  advance_all-notices (t ∷ ts) s =
      let (more, e) = advance_all-notices ts (advance alive now t s) in
      elim (advance-notices alive now t s) [
        | inl p ↦ (more, e ∙ ap (λ (x : List Notice). x ++ more) p)
        | inr (n, p) ↦ (
          n ∷ more,
          e ∙ ap (λ (x : List Notice). x ++ more) p ∙ append_assoc s.notices (n ∷ []) more,
        )
      ]

-- The maps of a closer hold each key once.
pub record IsValid (c : Closer) : Type 0 where
  pub stages : IsDict c.stage
  pub tolds : IsDict c.told

pub forget-IsValid :
    (now : Instant) (ts : List Target) (c : Closer) → IsValid c → IsValid (forget now ts c)
unfolding forget
forget-IsValid now ts c v = record {
  stages = retain-IsDict (λ k st. contains (map key_of ts) k) c.stage v.stages;
  tolds = retain-IsDict (λ k at. within (relaunch_window * 10) now at) c.told v.tolds;
}

pub forget-stage :
    (now : Instant) (ts : List Target) (c : Closer) (k : ℕ × ℕ)
    → IsValid c
    → get (forget now ts c).stage k ≡ (if contains (map key_of ts) k then get c.stage k else none)
unfolding forget
forget-stage now ts c k v =
    ground (arith, get-retain (λ k st. contains (map key_of ts) k) c.stage k v.stages)

pub forget-stage_none :
    (now : Instant) (ts : List Target) (c : Closer) (k : ℕ × ℕ)
    → IsValid c
    → get c.stage k ≡ none
    → get (forget now ts c).stage k ≡ none
forget-stage_none now ts c k v e = ground (arith, forget-stage now ts c k v, e)

-- What was told of within the relaunch window is kept.
pub forget-recent :
    (now : Instant) (ts : List Target) (c : Closer) (k : ℕ × String)
    → IsValid c
    → recent now (get (forget now ts c).told k) ≡ recent now (get c.told k)
unfolding forget
forget-recent now ts c k v =
    ground (arith, get-retain (λ k at. within (relaunch_window * 10) now at) c.told k v.tolds)

pub contains-key_of :
    (ts : List Target) (t : Target)
    → Any (λ (u : Target). u ≡ t) ts
    → contains (map key_of ts) (key_of t) ≡ true
contains-key_of [] t m = elim m [ ]
contains-key_of (u ∷ ts) t (here p) = rw (p, ==_refl (key_of t)) refl
contains-key_of (u ∷ ts) t (there m) = ground (arith, contains-key_of ts t m)

-- Every call keeps the closer's maps well-formed.
pub enforce-IsValid :
    (alive : Alive) (now : Instant) (ts : List Target) (sent : List Signal) (c : Closer)
    → IsValid c
    → IsValid (enforce alive now ts sent c).closer
unfolding enforce
enforce-IsValid alive now ts sent c v =
    let w = forget-IsValid now ts c v in
    let (h, k) =
      advance_all-IsDict alive now ts
        (record { closer = forget now ts c; notices = []; sent = sent }) w.stages w.tolds in
    record { stages = h; tolds = k }
