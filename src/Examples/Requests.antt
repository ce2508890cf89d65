-- ===== src/Examples/Requests.antt =====
-- A request that is asked, sent again and decided.
use screenguard.Prelude.{
  eq_nat, eq_string, eq_pair, ℕ, ◌≡◌, ◌≤◌, true, false, none, some, List, [], ◌∷◌, length, ◌++◌,
  refl, if◌then◌else◌,
}
use screenguard.Prelude.Dict.{get}
use screenguard.Models.{UserConfig}
use screenguard.Apps.Id.{desktop}
use screenguard.Closing.Targets.{Target, needs_approval}
use screenguard.Agent.Requests.{max_outstanding_requests, resend, tell_decided}
use screenguard.Agent.Decided.{
  Event, asked, connected, configured, decided_by, step, run, no_requests, run_requests,
}
use screenguard.Examples.Push.{child}

abbrev game : Target
game = record {
  pid = 7;
  start_ticks = 1;
  top = true;
  uid = 1000;
  app_id = record { kind = desktop; name = "game" };
  key = "desktop:game";
  group_name = "";
  app_name = "Game";
  reason = needs_approval;
}

abbrev events : List (Event ℕ)
events = asked (λ r. true) [] false (game ∷ []) ∷ connected ∷ []

abbrev push : List (UserConfig ℕ)
push =
    record child { app_approval = some (record { approved = "desktop:game" ∷ []; denied = [] }) }
    ∷ []

-- The child is told of the approval, once.
told :
    (tell_decided
      (λ u. some (record { approved = []; denied = [] }))
      ((1000, "desktop:game") ∷ [])
      (push ++ push)).1
    ≡ ((1000, "desktop:game"), true) ∷ []
unfolding tell_decided
told = refl

run_requests_example :
    (length (run no_requests events).outstanding ≤ max_outstanding_requests)
    × (get
          (step (run no_requests events) (configured (λ u. none) push)).outstanding
          (1000, "desktop:game")
        ≡ (if decided_by push (1000, "desktop:game")
            then none
            else get (run no_requests events).outstanding (1000, "desktop:game")))
    × (length (resend (run no_requests events)).1 ≡ length (run no_requests events).outstanding)
run_requests_example = run_requests events (λ u. none) push (1000, "desktop:game")
