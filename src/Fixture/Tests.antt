-- ===== src/Fixture/Tests.antt =====
-- Small runs of internal/fixture/server.go, and its theorems at concrete inputs.
use aero_arc_testing_harness.Prelude.{
  pos, ◌≡◌, ◌≢◌, if◌then◌else◌, refl, false, List, [], ◌∷◌, none, some, Text, text, arith, lookup,
  text_eq, insert, decimal_int, decimal, increment, erase, has_prefix, values, trim_right, ◌-ℤ◌,
  ◌+ℤ◌, wrap_64,
}
use aero_arc_testing_harness.Fixture.Operation
use aero_arc_testing_harness.Fixture.Types.{
  FaultPlan, Reference, Server, Request, changed, details, decoded, sent, stale_ovn, found, new,
}
use aero_arc_testing_harness.Fixture.Wire.{write_json, respond, record_event}
use aero_arc_testing_harness.Fixture.Faults.{
  refused, handle_fault, snapshot, take_fault, spend, pre_commit_fault,
}
use aero_arc_testing_harness.Fixture.References.{
  put, ovn_of, put_reference, bump, handle_rotate_ovn, handle_create_reference, put_refusal,
  handle_update_reference, subscriber, conclude,
}
use aero_arc_testing_harness.Fixture.Router.{Route, handle, run}
use aero_arc_testing_harness.Fixture.Invariant.{IsWellFormed}
use aero_arc_testing_harness.Fixture.Preservation.{run-new-IsWellFormed}
use aero_arc_testing_harness.Fixture.Budget.{handle_fault-taken, taken, budget}
use aero_arc_testing_harness.Fixture.Journal.{handle-IsRecorded, IsRecorded}
use aero_arc_testing_harness.Fixture.Transparency.{handle-references, handle-reply, unarmed, stops}
use aero_arc_testing_harness.Fixture.Locking.{lost_update}
use aero_arc_testing_harness.Fixture.Versions.{superseded_ovn}
use aero_arc_testing_harness.Fixture.Contents.{create-get}
use aero_arc_testing_harness.Fixture.Samples.{
  intent, request, accepted, config, rotated_history, rotated, failing, entry,
}

-- What a run of the handlers computes with.
program : Unit {0}
unfolding handle run new lookup insert erase increment decimal_int decimal ovn_of text_eq rotated
    put_reference bump handle_rotate_ovn handle_create_reference put_refusal ◌-ℤ◌ ◌+ℤ◌ subscriber
    trim_right wrap_64 conclude respond record_event write_json pre_commit_fault take_fault
    handle_fault refused spend has_prefix values
program = tt

lookup-rotated : lookup intent rotated.references ≡ some entry
unfolding program
lookup-rotated = refl

rotated_valid : IsWellFormed rotated
unfolding rotated
rotated_valid = run-new-IsWellFormed config rotated_history

-- An update under the OVN from before the rotation is answered with a conflict.
stale_test :
    (handle
      (Route.update_reference (decoded accepted))
      (request intent (text "ovn-i1-1"))
      rotated).1
    ≡ sent (pos 409) (stale_ovn (text "ovn-i1-2"))
unfolding program handle_update_reference
stale_test = refl

run-new-IsWellFormed_example : IsWellFormed (run rotated_history (new config))
run-new-IsWellFormed_example = run-new-IsWellFormed config rotated_history

lost_update_example :
    let r = request intent (text "ovn-i1-2") in
    let s' = (put r accepted false none rotated).0 in
    put r accepted false none s'
    ≡ respond r Operation.update_reference intent
        (pos 409)
        (stale_ovn (ovn_of intent (increment (pos 2))))
        none
        s'
lost_update_example =
    let r = request intent (text "ovn-i1-2") in
    lost_update r r accepted accepted none none rotated rotated_valid lookup-rotated refl refl refl

superseded_ovn_example :
    let r = request intent (text "ovn-i1-1") in
    let s = run ((Route.rotate_ovn, r) ∷ []) rotated in
    (current : Reference) × (lookup intent s.references ≡ some current)
    × (put r accepted false none s
        ≡ respond r Operation.update_reference intent (pos 409) (stale_ovn current.ovn) none s)
unfolding ovn_of decimal_int decimal
superseded_ovn_example =
    let r = request intent (text "ovn-i1-1") in
    superseded_ovn ((Route.rotate_ovn, r) ∷ []) 1 2 r accepted none rotated rotated_valid (refl, tt)
      lookup-rotated refl (omega arith) (omega arith) refl

-- `rotated` with a plan for its queries.
abbrev armed : Server
armed = (handle_fault (decoded failing) rotated).0

abbrev queries : List (Route × Request)
queries =
    (Route.query_references, request [] [])
    ∷ (Route.get_reference, request [] [])
    ∷ (Route.query_references, request [] [])
    ∷ (Route.query_references, request [] [])
    ∷ []

handle_fault-taken_example :
    taken (text "dss.query_references") queries armed
    ≡ budget 2 (snapshot failing) (text "dss.query_references") queries
unfolding program
handle_fault-taken_example = handle_fault-taken 2 failing queries rotated refl refl (
  (Operation.query_references, refl),
  (
    (Operation.get_reference, refl),
    ((Operation.query_references, refl), ((Operation.query_references, refl), tt)),
  ),
)

handle-IsRecorded_example :
    IsRecorded
      (request intent [])
      Operation.get_reference
      intent
      (take_fault Operation.get_reference rotated).1
      rotated.events
      rotated.sequence
      (handle Route.get_reference (request intent []) rotated)
handle-IsRecorded_example = handle-IsRecorded Route.get_reference (request intent []) rotated refl

handle-references_example :
    let r = request intent [] in
    (handle Route.query_references r armed).0.references ≡ (
      if stops r (take_fault Operation.query_references armed).1
      then armed.references
      else (handle Route.query_references r (unarmed armed)).0.references)
handle-references_example = handle-references Route.query_references (request intent []) armed refl

handle-reply_example :
    let r = request intent [] in
    (handle Route.get_reference r armed).1 ≡ (handle Route.get_reference r (unarmed armed)).1
unfolding program
handle-reply_example = handle-reply Route.get_reference (request intent []) armed refl refl refl

create-get_example :
    let r = request (text "i2") [] in
    let stored = put_reference r accepted (pos 1) rotated in
    let (s', reply) = handle (Route.create_reference (decoded accepted)) r rotated in
    (reply ≡ sent (pos 201) (changed stored (subscriber rotated)))
    × ((handle Route.get_reference r s').1 ≡ sent (pos 200) (found stored))
    × ((handle Route.peer_details_of r s').1 ≡ sent (pos 200) (details stored))
    × (stored.volumes ≡ accepted.extents)
    × ((id : Text) → id ≢ text "i2" → lookup id s'.references ≡ lookup id rotated.references)
unfolding program
create-get_example =
    create-get (request (text "i2") []) (request (text "i2") []) accepted rotated refl refl refl

-- A plan with the status 7, which handleFault accepts.
abbrev odd : FaultPlan
odd = record failing { status = pos 7 }
