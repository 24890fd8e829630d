-- ===== src/Scenarios/Runner.antt =====
-- The runner of scenarios/runner.go. Actions, checks and cleanups are the scenario's: they change
-- a world `W`, to which the timeline belongs. What context.WithTimeout makes of a context, the
-- background context and what Timeline.Record does are arguments.
use aero_arc_testing_harness.Prelude.{
  ℤ, pos, Bool, List, [], ◌∷◌, ◌++◌, Option, none, some, Text, text, text_eq, leb_ℤ, if◌then◌else◌,
}
use aero_arc_testing_harness.Assertions.Types.{Message, Result}

pub data Details : Type 0 where
  of_step : (error : Text) → Details
  of_check : Result → (error : Text) → Details

-- TimelineEvent of reports/timeline.go, the time left to Timeline.Record.
pub record TimelineEvent : Type 0 where
  pub scenario : Text
  pub phase : Text
  pub name : Text
  pub status : Text
  pub details : Details

pub data RunError : Type 0 where
  incomplete_scenario : RunError
  step_failed : (phase name error : Text) → RunError
  check_failed : (name error : Text) → RunError
  not_satisfied : (name : Text) → Message → RunError
  cleanup_failed : (error : Text) → RunError

-- errorString.
abbrev pub error_string : Option Text → Text
error_string none = []
error_string (some e) = e

-- The default timeout and that of the cleanups, in nanoseconds.
abbrev pub default_timeout : ℤ
default_timeout = pos 45_000_000_000

abbrev pub cleanup_timeout : ℤ
cleanup_timeout = pos 15_000_000_000

module _ (Context W : Type 0) where
  abbrev pub Cleanup : Type 0
  Cleanup = Context → W → W × Option Text

  -- What an action gives: the world, a cleanup, an error.
  pub record Step : Type 0 where
    pub name : Text
    pub action : Context → W → W × (Option Cleanup × Option Text)

  -- A check gives a result and an error.
  pub record Assertion : Type 0 where
    pub name : Text
    pub check : Context → W → W × (Result × Option Text)

  pub record Scenario : Type 0 where
    pub name : Text
    pub timeout : ℤ
    pub given : List Step
    pub when : List Step
    pub then_holds : List Assertion

  -- Where a part of a run has got: the world, the cleanups in the order in which they were
  -- registered, and the error that ends the run.
  pub record Progress : Type 0 where
    pub world : W
    pub cleanups : List Cleanup
    pub problem : Option RunError

abbrev pub status_of : Option Text → Text
status_of none = text "pass"
status_of (some e) = text "fail"

abbrev pub step_event : (scenario phase name : Text) → Option Text → TimelineEvent
step_event scenario phase name err = record {
  scenario = scenario;
  phase = phase;
  name = name;
  status = status_of err;
  details = of_step (error_string err);
}

abbrev pub as_list : Option RunError → List RunError
as_list none = []
as_list (some e) = e ∷ []

abbrev pub register :
    {Context W : Type 0}
    → Option (Cleanup Context W)
    → List (Cleanup Context W)
    → List (Cleanup Context W)
register none cleanups = cleanups
register (some c) cleanups = cleanups ++ c ∷ []

module _ {Context W : Type 0} (background : Context) (with_timeout : Context → ℤ → Context)
    (emit : TimelineEvent → W → W) where
  -- runSteps.
  unfoldable pub run_steps :
      Context
      → (scenario phase : Text) → List (Step Context W)
      → List (Cleanup Context W)
      → W
      → Progress Context W
  run_steps ctx scenario phase [] cleanups w = record {
    world = w;
    cleanups = cleanups;
    problem = none;
  }
  run_steps ctx scenario phase (step ∷ rest) cleanups w =
      let (w1, (cleanup, err)) = step.action ctx w in
      let w2 = emit (step_event scenario phase step.name err) w1 in
      let later = run_steps ctx scenario phase rest (register cleanup cleanups) w2 in
      elim err [
        | some e ↦ record {
          world = w2;
          cleanups = register cleanup cleanups;
          problem = some (step_failed phase step.name e);
        }
        | none ↦ later
      ]

  -- The loop over the Then assertions of Run.
  unfoldable pub assert_all :
      Context → (scenario : Text) → List (Assertion Context W) → W → W × Option RunError
  assert_all ctx scenario [] w = (w, none)
  assert_all ctx scenario (assertion ∷ rest) w =
      let (w1, (result, err)) = assertion.check ctx w in
      let event : TimelineEvent = record {
        scenario = scenario;
        phase = text "then";
        name = assertion.name;
        status = elim err [
          | some e ↦ text "fail"
          | none ↦ if result.passed then text "pass" else text "fail"
        ];
        details = of_check result (error_string err);
      } in
      let w2 = emit event w1 in
      let later = assert_all ctx scenario rest w2 in
      elim err [
        | some e ↦ (w2, some (check_failed assertion.name e))
        | none ↦
            if result.passed
            then later
            else (w2, some (not_satisfied assertion.name result.message))
      ]

  -- One cleanup of the deferred function, which joins its error to those before.
  unfoldable pub clean_one : Cleanup Context W → W × List RunError → W × List RunError
  clean_one cleanup (w, errors) =
      let (w', err) = cleanup (with_timeout background cleanup_timeout) w in
      (w', elim err [ some e ↦ errors ++ cleanup_failed e ∷ [] | none ↦ errors ])

  -- The deferred function of Run: the cleanup registered last is run first.
  unfoldable pub clean_all : List (Cleanup Context W) → W × List RunError → W × List RunError
  unfolding clean_one
  clean_all [] done = done
  clean_all (cleanup ∷ rest) done = clean_one cleanup (clean_all rest done)

  abbrev pub run_context : Context → Scenario Context W → Context
  run_context parent scenario =
      with_timeout parent
        (if leb_ℤ scenario.timeout (pos 0) then default_timeout else scenario.timeout)

  -- The body of Run up to its return, before the deferred function.
  unfoldable pub run_body : Context → Scenario Context W → W → Progress Context W
  unfolding run_steps assert_all
  run_body ctx scenario w =
      let given = run_steps ctx scenario.name (text "given") scenario.given [] w in
      let when =
        run_steps ctx scenario.name (text "when") scenario.when given.cleanups given.world in
      let (end, problem) = assert_all ctx scenario.name scenario.then_holds when.world in
      elim given.problem [
        | some e ↦ given
        | none ↦ elim when.problem [
          | some e ↦ when
          | none ↦ record { world = end; cleanups = when.cleanups; problem = problem }
        ]
      ]

  -- Run: the world and the errors that it joins, none if it returns nil.
  unfoldable pub run : (has_timeline : Bool) → Context → Scenario Context W → W → W × List RunError
  unfolding run_body clean_all text_eq
  run has_timeline parent scenario w =
      if text_eq scenario.name []
      then (w, incomplete_scenario ∷ [])
      else if has_timeline
      then (let body = run_body (run_context parent scenario) scenario w in
          clean_all body.cleanups (body.world, as_list body.problem))
      else (w, incomplete_scenario ∷ [])
