-- ===== src/Fixture/Faults.antt =====
-- The fault plans of internal/fixture/server.go: arming, clearing, taking one, and the part of a
-- handler that a fault plays before anything is committed.
use aero_arc_testing_harness.Prelude.{
  ℤ, pos, Bool, ◌&&◌, ◌||◌, not, [], Option, none, some, Text, text, leb_ℤ, ltb_ℤ, eq_ℤ, text_eq,
  if◌then◌else◌, lookup, insert, erase, ◌-ℤ◌, ◌*ℤ◌, wrap_64,
}
use aero_arc_testing_harness.Fixture.Types.{
  FaultPlan, FaultSnapshot, Server, Request, Decoded, decoded, undecodable, nothing, error, message,
  plan, Reply, unwritten,
}
use aero_arc_testing_harness.Fixture.Wire.{write_json, write, record_event, respond}

-- The guard of handleFault.
unfoldable pub refused : FaultPlan → Bool
unfolding text_eq
refused p =
    text_eq p.operation []
    || leb_ℤ p.times (pos 0)
    || ltb_ℤ p.delay_millis (pos 0)
    || ltb_ℤ p.status (pos 0)
    || ltb_ℤ (pos 599) p.status

abbrev pub refusal : Text
refusal = text "operation and positive times are required; delay/status must be valid"

-- handleFault.
unfoldable pub handle_fault : Decoded FaultPlan → Server → Server × Reply
unfolding refused insert write_json
handle_fault (undecodable err) s = (s, write_json (pos 400) (error err))
handle_fault (decoded p) s =
    if refused p
    then (s, write_json (pos 400) (error refusal))
    else (record s { faults = insert p.operation p s.faults }, write_json (pos 201) (plan p))

-- handleClearFaults.
unfoldable pub handle_clear_faults : Server → Server × Reply
unfolding write
handle_clear_faults s = (record s { faults = [] }, write (pos 204) nothing)

abbrev pub snapshot : FaultPlan → FaultSnapshot
snapshot p = record {
  status = p.status;
  delay_millis = p.delay_millis;
  close_after_commit = p.close_after_commit;
  malformed_json = p.malformed_json;
}

-- One use of a plan is spent.
unfoldable pub spend : Text → FaultPlan → Server → Server × Option FaultSnapshot
unfolding insert erase ◌-ℤ◌
spend operation p s =
    let left = p.times -ℤ pos 1 in
    if leb_ℤ p.times (pos 0)
    then (s, none)
    else if eq_ℤ left (pos 0)
    then (record s { faults = erase operation s.faults }, some (snapshot p))
    else (
      record s { faults = insert operation (record p { times = left }) s.faults },
      some (snapshot p),
    )

-- takeFault.
unfoldable pub take_fault : Text → Server → Server × Option FaultSnapshot
unfolding lookup spend
take_fault operation s = elim (lookup operation s.faults) [
  | none ↦ (s, none)
  | some p ↦ spend operation p s
]

-- time.Duration(fault.DelayMillis)*time.Millisecond.
unfoldable pub delay : FaultSnapshot → ℤ
unfolding wrap_64 ◌*ℤ◌
delay f = wrap_64 (f.delay_millis *ℤ pos 1_000_000)

abbrev pub injected_failure : Text
injected_failure = text "injected fixture failure"

-- The client gave up during the delay.
unfoldable pub gives_up : Request → FaultSnapshot → Bool
unfolding delay
gives_up r f = ltb_ℤ (pos 0) f.delay_millis && not (r.outlasts (delay f))

-- preCommitFault: the outcome, if the request ends here. The same two tests stand at the head of
-- handlePutReference and handleDeleteReference.
unfoldable pub pre_commit_fault :
    Request → Text → Text → Option FaultSnapshot → Server → Option (Server × Reply)
unfolding gives_up record_event respond
pre_commit_fault r operation intent_id none s = none
pre_commit_fault r operation intent_id (some f) s =
    if gives_up r f
    then some (record_event r operation intent_id (pos 499) (some f) s, unwritten)
    else if eq_ℤ f.status (pos 0)
    then none
    else some (respond r operation intent_id f.status (message injected_failure) (some f) s)
