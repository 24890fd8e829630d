-- ===== src/Scenarios/Tests.antt =====
-- A scenario whose second step fails, and the results at it for scenarios/runner.go. Its world is
-- the list of what has happened.
use aero_arc_testing_harness.Prelude.{
  ℤ, pos, ◌≡◌, refl, true, List, [], ◌∷◌, ◌++◌, none, some, Text, text,
}
use aero_arc_testing_harness.Scenarios.Runner.{
  TimelineEvent, Step, Cleanup, Scenario, run, run_context,
}
use aero_arc_testing_harness.Scenarios.Brackets.{bracketed_scenario, run-bracketed}

abbrev with_timeout : List ℤ → ℤ → List ℤ
with_timeout ctx d = d ∷ ctx

abbrev emit : TimelineEvent → List Text → List Text
emit e w = w ++ e.status ∷ []

abbrev undo : Text → Cleanup (List ℤ) (List Text)
undo what ctx w = (w ++ what ∷ [], none)

abbrev create : Step (List ℤ) (List Text)
create = record {
  name = text "create";
  action = λ ctx w. (w ++ text "create" ∷ [], (some (undo (text "delete")), none));
}

abbrev activate : Step (List ℤ) (List Text)
activate = record {
  name = text "activate";
  action = λ ctx w. (w ++ text "activate" ∷ [], (some (undo (text "end")), some (text "409")));
}

abbrev takeoff : Scenario (List ℤ) (List Text)
takeoff = record {
  name = text "takeoff";
  timeout = pos 0;
  given = create ∷ [];
  when = activate ∷ [];
  then_holds = [];
}

-- Both cleanups run in this scenario, the last one first.
takeoff_world :
    (run [] with_timeout emit true [] takeoff []).0
    ≡ text "create" ∷ text "pass" ∷ text "activate" ∷ text "fail" ∷ text "end" ∷ text "delete" ∷ []
unfolding run
takeoff_world = refl

run-bracketed_example :
    run [] with_timeout emit true [] takeoff []
    ≡ bracketed_scenario [] with_timeout emit
        (run_context [] with_timeout emit [] takeoff)
        takeoff
        []
run-bracketed_example = run-bracketed [] with_timeout emit [] takeoff [] (λ e. cc)
