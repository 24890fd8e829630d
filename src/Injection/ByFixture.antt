-- ===== src/Injection/ByFixture.antt =====
-- The injector of faults/fixture/injector.go, which arms the plans of the fixture server. A
-- request and its answer change a world `W`, of which the client sees the status alone.
use aero_arc_testing_harness.Prelude.{
  ℤ, pos, true, false, [], Option, none, some, ◌⊎◌, inl, inr, Text, text, text_eq, eq_ℤ,
  if◌then◌else◌, trim_right, Outcome, ok, failed,
}
use aero_arc_testing_harness.Fixture.Types.{FaultPlan}
use aero_arc_testing_harness.Injection.Fault.{
  Fault, Receipt, InjectError, without_operation, another_injector, request_failed, bad_status,
  validate, milliseconds, attribute_int, drop_response_after_commit, http_status,
  malformed_response, latency,
}

-- New: the base URL.
unfoldable pub new : Text → Text
unfolding trim_right
new base_url = trim_right b'/' base_url

abbrev pub begin_plan : Fault → FaultPlan
begin_plan f = record {
  operation = f.operation;
  times = if eq_ℤ f.count (pos 0) then pos 1 else f.count;
  status = pos 0;
  delay_millis = pos 0;
  close_after_commit = false;
  malformed_json = false;
}

-- The plan that Enable makes of a fault, before any request.
unfoldable pub plan_of : Fault → InjectError ⊎ FaultPlan
unfolding validate text_eq attribute_int milliseconds
plan_of f = elim (validate f) [
  | some e ↦ inl e
  | none ↦
      let plan = begin_plan f in
      if text_eq f.operation []
      then inl (without_operation f.name)
      else if text_eq f.kind drop_response_after_commit
      then inr (record plan { close_after_commit = true })
      else if text_eq f.kind http_status
      then inr (record plan { status = attribute_int f.attributes (text "status") (pos 500) })
      else if text_eq f.kind malformed_response
      then inr (record plan { malformed_json = true })
      else if text_eq f.kind latency
      then inr (record plan { delay_millis = milliseconds f.duration })
      else inl (another_injector f.kind)
]

-- What is made of the answer to the arming request.
unfoldable pub confirm : (now : ℤ) → Fault → Outcome ℤ → InjectError ⊎ Receipt
confirm now f (failed e) = inl (request_failed e)
confirm now f (ok status) =
    if eq_ℤ status (pos 201)
    then inr (record {
      fault = f;
      injector = text "fixture";
      external_id = f.operation;
      enabled_at = now;
    })
    else inl (bad_status status)

module _ {W : Type 0} where
  -- Enable.
  unfoldable pub enable :
      (post : FaultPlan → W → W × Outcome ℤ) (now : ℤ) → Fault → W → W × (InjectError ⊎ Receipt)
  unfolding plan_of confirm
  enable post now f w = elim (plan_of f) [
    | inl e ↦ (w, inl e)
    | inr plan ↦ let (w', answer) = post plan w in (w', confirm now f answer)
  ]

  -- Disable, which looks at nothing of the receipt.
  unfoldable pub disable : (clear : W → W × Outcome ℤ) → Receipt → W → W × Option InjectError
  disable clear receipt w =
      let (w', answer) = clear w in
      (
        w',
        elim answer [
          | failed e ↦ some (request_failed e)
          | ok status ↦ if eq_ℤ status (pos 204) then none else some (bad_status status)
        ],
      )
