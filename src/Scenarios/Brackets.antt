-- ===== src/Scenarios/Brackets.antt =====
-- Run of scenarios/runner.go against a reading of a scenario as nested brackets: every step opens
-- a bracket around all that follows it, and its cleanup closes it.
use aero_arc_testing_harness.Prelude.{
  ℤ, ◌≡◌, ◌≢◌, refl, ap, ◌∙◌, true, List, [], ◌∷◌, Option, none, some, inl, inr, Text, text,
  text_eq-ne, Option-cases,
}
use aero_arc_testing_harness.Scenarios.Runner.{
  RunError, step_failed, TimelineEvent, Step, Scenario, Progress, Cleanup, step_event, register,
  run_steps, assert_all, clean_one, clean_all, as_list, run_context, run_body, run,
}

module _ {Context W : Type 0} (background : Context) (with_timeout : Context → ℤ → Context)
    (emit : TimelineEvent → W → W) where
  abbrev close_bracket : Option (Cleanup Context W) → W × List RunError → W × List RunError
  close_bracket none done = done
  close_bracket (some cleanup) done = clean_one background with_timeout emit cleanup done

  -- The steps, each within the bracket of the one before, and the body within them all. A step
  -- that fails still closes its bracket.
  pub bracketed :
      Context
      → (scenario phase : Text) → List (Step Context W)
      → (W → W × List RunError)
      → W
      → W × List RunError
  bracketed ctx scenario phase [] body w = body w
  bracketed ctx scenario phase (step ∷ rest) body w =
      let (w1, (cleanup, err)) = step.action ctx w in
      let w2 = emit (step_event scenario phase step.name err) w1 in
      let inner = bracketed ctx scenario phase rest body w2 in
      close_bracket cleanup
        (elim err [ some e ↦ (w2, step_failed phase step.name e ∷ []) | none ↦ inner ])

  -- A scenario: Given around When around Then.
  pub bracketed_scenario : Context → Scenario Context W → W → W × List RunError
  unfolding bracketed assert_all
  bracketed_scenario ctx scenario = bracketed ctx scenario.name (text "given") scenario.given (
      bracketed ctx scenario.name (text "when") scenario.when (λ w.
        let (end, problem) =
          assert_all background with_timeout emit ctx scenario.name scenario.then_holds w in
        (end, as_list problem)))

  clean_all-register :
      (cleanups : List (Cleanup Context W)) (cleanup : Option (Cleanup Context W))
      (done : W × List RunError)
      → clean_all background with_timeout emit (register cleanup cleanups) done
        ≡ clean_all background with_timeout emit cleanups (close_bracket cleanup done)
  unfolding clean_all
  clean_all-register cleanups none done = refl
  clean_all-register [] (some c) done = refl
  clean_all-register (d ∷ cleanups) (some c) done =
      ap (clean_one background with_timeout emit d) (clean_all-register cleanups (some c) done)

  -- What follows the steps, if none of them fails, and then the cleanups.
  abbrev unwound : Progress Context W → (Progress Context W → W × List RunError) → W × List RunError
  unwound p next = elim p.problem [
    | some e ↦ clean_all background with_timeout emit p.cleanups (p.world, e ∷ [])
    | none ↦ next p
  ]

  run_steps-bracketed :
      (ctx : Context) (scenario phase : Text) (steps : List (Step Context W))
      (cleanups : List (Cleanup Context W)) (w : W) (next : Progress Context W → W × List RunError)
      (body : W → W × List RunError)
      → ((cs : List (Cleanup Context W)) (v : W)
          → next (record { world = v; cleanups = cs; problem = none })
            ≡ clean_all background with_timeout emit cs (body v))
      → unwound (run_steps background with_timeout emit ctx scenario phase steps cleanups w) next
        ≡ clean_all background with_timeout emit cleanups
            (bracketed ctx scenario phase steps body w)
  unfolding run_steps bracketed
  run_steps-bracketed ctx scenario phase [] cleanups w next body h = h cleanups w
  run_steps-bracketed ctx scenario phase (step ∷ rest) cleanups w next body h =
      elim (Option-cases (step.action ctx w).1.1) [
        | inl fine ↦
            let event = step_event scenario phase step.name (step.action ctx w).1.1 in
            rw fine (
              run_steps-bracketed ctx scenario phase rest
                (register (step.action ctx w).1.0 cleanups) (emit event (step.action ctx w).0) next
                body h
              ∙ clean_all-register cleanups (step.action ctx w).1.0 _)
        | inr (e, bad) ↦ rw bad (clean_all-register cleanups (step.action ctx w).1.0 _)
      ]

  -- The Then assertions and the cleanups, when the steps have not failed.
  abbrev finish : Context → Scenario Context W → Progress Context W → W × List RunError
  finish ctx scenario p =
      let (end, problem) =
        assert_all background with_timeout emit ctx scenario.name scenario.then_holds p.world in
      clean_all background with_timeout emit p.cleanups (end, as_list problem)

  abbrev whens : Context → Scenario Context W → Progress Context W → Progress Context W
  whens ctx scenario p =
      run_steps background with_timeout emit ctx scenario.name (text "when") scenario.when
        p.cleanups p.world

  abbrev givens : Context → Scenario Context W → W → Progress Context W
  givens ctx scenario w =
      run_steps background with_timeout emit ctx scenario.name (text "given") scenario.given [] w

  ended :
      (p : Progress Context W) (e : RunError)
      → p.problem ≡ some e
      → clean_all background with_timeout emit p.cleanups (p.world, as_list p.problem)
        ≡ clean_all background with_timeout emit p.cleanups (p.world, e ∷ [])
  ended p e bad =
      ap (λ o. clean_all background with_timeout emit p.cleanups (p.world, as_list o)) bad

  run_body-unwound :
      (ctx : Context) (scenario : Scenario Context W) (w : W)
      → let body = run_body background with_timeout emit ctx scenario w in
        clean_all background with_timeout emit body.cleanups (body.world, as_list body.problem)
        ≡ unwound
            (givens ctx scenario w)
            (λ g. unwound (whens ctx scenario g) (finish ctx scenario))
  unfolding run_body
  run_body-unwound ctx scenario w = elim (Option-cases (givens ctx scenario w).problem) [
    | inl fine ↦ elim (Option-cases (whens ctx scenario (givens ctx scenario w)).problem) [
      | inl also ↦ rw (run_body, unwound, fine, also) refl
      | inr (e, bad) ↦
          rw (run_body, unwound, fine, bad)
            (ended (whens ctx scenario (givens ctx scenario w)) e bad)
    ]
    | inr (e, bad) ↦ rw (run_body, unwound, bad) (ended (givens ctx scenario w) e bad)
  ]

  -- A scenario with a name, run with a timeline, goes as its nested brackets do, in the context
  -- with its timeout: each step's cleanup runs once, after everything that follows the step and
  -- before the cleanup of any earlier step, also if the step itself or a later step or assertion
  -- fails, and nothing that follows a failure is run but cleanups; the errors are that of the
  -- failure, if there is one, and after it those of the cleanups in the order they ran.
  pub run-bracketed :
      (parent : Context) (scenario : Scenario Context W) (w : W)
      → scenario.name ≢ []
      → run background with_timeout emit true parent scenario w
        ≡ bracketed_scenario (run_context background with_timeout emit parent scenario) scenario w
  unfolding run bracketed_scenario clean_all
  run-bracketed parent scenario w named =
      let ctx = run_context background with_timeout emit parent scenario in
      let inner = bracketed ctx scenario.name (text "when") scenario.when _ in
      rw (text_eq-ne scenario.name [] named) (
        run_body-unwound ctx scenario w
        ∙ run_steps-bracketed ctx scenario.name (text "given") scenario.given [] w
            (λ g. unwound (whens ctx scenario g) (finish ctx scenario)) inner
            λ cs v.
              run_steps-bracketed ctx scenario.name (text "when") scenario.when cs v
                (finish ctx scenario) _ (λ ds u. refl))
