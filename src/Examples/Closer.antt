-- ===== src/Examples/Closer.antt =====
-- The closer on concrete targets, from the tests of crates/agent/src/app_enforce.rs.
use screenguard.Prelude.{
  eq_nat, eq_string, eq_pair, ℕ, ◌*◌, ap, ◌≢◌, ◌≡◌, refl, [], ◌∷◌, none, true, false, arith, here,
  there,
}
use screenguard.Prelude.Dict.{get, insert, retain, remove}
use screenguard.Apps.Id.{desktop}
use screenguard.Usage.Accounting.{Instant, second}
use screenguard.Closing.Targets.{limit, immediate, Target}
use screenguard.Closing.Closer.{
  term, kill, Alive, warned, Closer, Progress, new, notice_of, enforce, advance_all, advance,
  on_stage, first_seen, forget,
}
use screenguard.Closing.Step.{signals_to}
use screenguard.Closing.Rounds.{Distinct, IsValid}
use screenguard.Closing.Safety.{Sends, enforce-Sends}
use screenguard.Closing.Grace.{enforce_again, enforce_kills_helper}

abbrev game : Target
game = record {
  pid = 10;
  start_ticks = 1;
  top = true;
  uid = 1001;
  app_id = record { kind = desktop; name = "supertux" };
  key = "games";
  group_name = "Games";
  app_name = "SuperTux";
  reason = limit;
}

abbrev helper : Target
helper = record game { pid = 11; top = false }

-- Processes that ignore every signal.
abbrev stubborn : Alive
stubborn sent pid start = true

abbrev t0 : Instant
t0 = 100 * second

abbrev t1 : Instant
t1 = 110 * second

abbrev t2 : Instant
t2 = 120 * second

abbrev first_call : Progress
first_call = enforce stubborn t0 (game ∷ helper ∷ []) [] new

abbrev second_call : Progress
second_call = enforce_again stubborn t1 (game ∷ helper ∷ []) first_call

helper_killed_early : second_call.sent ≡ kill 11 1 ∷ term 10 1 ∷ []
unfolding enforce advance_all advance on_stage first_seen forget new immediate notice_of get insert
    retain remove
helper_killed_early = refl

new-IsValid : IsValid new
unfolding new
new-IsValid = record { stages = tt; tolds = tt }

new-stage : (k : ℕ × ℕ) → get new.stage k ≡ none
unfolding new get
new-stage k = refl

-- A closer that has warned of the game.
abbrev warning : Closer
warning = record { stage = ((10, 1), warned t0) ∷ []; told = ((1001, "games"), t0) ∷ [] }

warning-IsValid : IsValid warning
unfolding get
warning-IsValid = record { stages = (refl, tt); tolds = (refl, tt) }

helper-ne-game : ◌≢◌ {A = ℕ × ℕ} (11, 1) (10, 1)
helper-ne-game p = absurd (omega (arith, ap (λ (x : ℕ × ℕ). x.0) p))

game-ne-helper : ◌≢◌ {A = ℕ × ℕ} (10, 1) (11, 1)
game-ne-helper p = absurd (omega (arith, ap (λ (x : ℕ × ℕ). x.0) p))

both-Distinct : Distinct (game ∷ helper ∷ [])
both-Distinct = ((helper-ne-game, tt), (tt, tt))

enforce-Sends_example :
    Sends stubborn t1 (game ∷ []) [] (enforce stubborn t1 (game ∷ []) [] warning).sent
enforce-Sends_example = enforce-Sends stubborn t1 (game ∷ []) [] warning

enforce_kills_helper_example :
    let p0 = enforce stubborn t0 (game ∷ helper ∷ []) [] new in
    let p1 = enforce_again stubborn t1 (game ∷ helper ∷ []) p0 in
    (signals_to (10, 1) p1.sent ≡ term 10 1 ∷ []) × (signals_to (11, 1) p1.sent ≡ kill 11 1 ∷ [])
unfolding new get
enforce_kills_helper_example =
    enforce_kills_helper stubborn [] new t0 t1 t2 game helper [] (game ∷ helper ∷ []) new-IsValid
      both-Distinct both-Distinct (here refl) (there (here refl)) (λ sent. refl) (λ sent. refl) refl
      refl refl refl refl refl refl (omega arith)
