-- ===== src/Fixture/Races.antt =====
-- A race of handleReset of internal/fixture/server.go, which sets the counter of the journal after
-- it has left the mutex, with the request of an endpoint.
use aero_arc_testing_harness.Prelude.{
  ℕ, suc, ◌+◌, ◌<◌, ◌≡◌, refl, sym, subst, ap, ◌∙◌, List, [], ◌∷◌, ◌++◌, Option, none, some, Text,
  length, lookup, arith, two_64,
}
use aero_arc_testing_harness.Fixture.Types.{
  FaultSnapshot, decoded, undecodable, Event, Server, Request,
}
use aero_arc_testing_harness.Fixture.Wire.{next_sequence}
use aero_arc_testing_harness.Fixture.Faults.{take_fault}
use aero_arc_testing_harness.Fixture.Router.{Route, run}
use aero_arc_testing_harness.Fixture.Endpoints.{operation_of, intent_of}
use aero_arc_testing_harness.Fixture.Budget.{IsServing}
use aero_arc_testing_harness.Fixture.Numbers.{next_sequence-small, IsNumbered, run-IsNumbered}
use aero_arc_testing_harness.Fixture.Threads.{
  append_event, recording, resetting, locked, put_locked, decoded_locked, delete_locked, finishing,
  after_fault, endpoint_thread, control_thread, thread,
}
use aero_arc_testing_harness.Fixture.Interleaving.{
  Move, arrive, advance, progress, advanced, moved, play,
}

-- A request that comes, and is answered, while a reset is between its two sections.
abbrev pub overtaking : Request → Route → Request → List Move
overtaking r route q =
    arrive Route.reset r
    ∷ advance 0
    ∷ arrive route q
    ∷ advance 0
    ∷ advance 0
    ∷ advance 0
    ∷ advance 0
    ∷ advance 1
    ∷ []

-- The section of an endpoint leaves the journal and its counter alone.
locked-journal :
    (route : Route) (r : Request) (fault : Option FaultSnapshot) (s : Server)
    → ((locked route r fault s).0.events ≡ s.events)
      × ((locked route r fault s).0.sequence ≡ s.sequence)
unfolding locked put_locked decoded_locked delete_locked
locked-journal (Route.create_reference (decoded body)) r fault s = (ground arith, ground arith)
locked-journal (Route.update_reference (decoded body)) r fault s = (ground arith, ground arith)
locked-journal (Route.create_reference (undecodable e)) r fault s = (refl, refl)
locked-journal (Route.update_reference (undecodable e)) r fault s = (refl, refl)
locked-journal _ r fault s = (ground arith, ground arith)

-- What the race leaves: one event in the journal, that of the request, under the number after the
-- count before the reset, and the counter at 0.
pub record IsOvertaken (route : Route) (q : Request) (operation : Text) (count : ℕ) (s : Server)
    : Type 0 where
  pub event : Event
  pub alone : s.events ≡ event ∷ []
  pub cleared : s.sequence ≡ 0
  pub number_is : event.sequence ≡ next_sequence count
  pub operation_is : event.operation ≡ operation
  pub intent_is : event.intent_id ≡ intent_of route q
  pub method_is : event.method ≡ q.method
  pub path_is : event.path ≡ q.request_uri
  pub time_is : event.at ≡ q.recorded_at

overtaking-IsOvertaken :
    (r : Request) (route : Route) (q : Request) (s : Server) {operation : Text}
    → operation_of route ≡ some operation
    → IsOvertaken route q operation s.sequence (play (overtaking r route q) (s, [])).0
unfolding play moved advanced progress thread control_thread endpoint_thread resetting after_fault
    finishing recording append_event take_fault lookup
overtaking-IsOvertaken r route q s {operation} named =
    let cleared = record s { references = []; faults = []; events = [] } in
    let (events, sequence) = locked-journal route q none cleared in
    let event : Event = record {
      sequence = next_sequence (locked route q none cleared).0.sequence;
      at = q.recorded_at;
      operation = operation;
      method = q.method;
      path = q.request_uri;
      intent_id = intent_of route q;
      status = (locked route q none cleared).1.status;
      fault = none;
    } in
    rw (named, play, thread)
      (record {
        event = event;
        alone = ap (λ l. l ++ event ∷ []) events;
        cleared = refl;
        number_is = ap next_sequence sequence;
        operation_is = refl;
        intent_is = refl;
        method_is = refl;
        path_is = refl;
        time_is = refl;
      })

some_IsNumbered :
    (history : List (Route × Request)) (s : Server) (n : ℕ)
    → IsServing history
    → length history ≡ suc n
    → s.sequence ≡ 0
    → suc n < two_64
    → IsNumbered history s (suc n)
some_IsNumbered [] s n serving many zero_there small = absurd (omega (arith, many))
some_IsNumbered ((route, r) ∷ rest) s n serving many zero_there small =
    let counted : s.sequence + length ((route, r) ∷ rest) ≡ suc n = omega arith in
    subst (IsNumbered ((route, r) ∷ rest) s) counted
      (run-IsNumbered route r rest s serving (omega arith))

-- A request to an endpoint is answered while a reset is between clearing the journal and setting
-- the counter back, and then as many requests to endpoints are handled, one after the other, as
-- the server had counted before the reset and one more; that number is below 2^64. Then after the
-- reset the journal has one event, which is that of the overtaking request, under the number that
-- follows the count before the reset, while the counter is 0; and at the end the journal begins
-- with that event, and ends in another one with the same number.
pub play-overtaking :
    (r : Request) (route : Route) (q : Request) (s : Server) (history : List (Route × Request))
    {operation : Text}
    → operation_of route ≡ some operation
    → suc s.sequence < two_64
    → IsServing history
    → length history ≡ suc s.sequence
    → let after = (play (overtaking r route q) (s, [])).0 in
      (race : IsOvertaken route q operation s.sequence after) × (between : List Event)
      × (last : Event) × ((run history after).events ≡ race.event ∷ (between ++ last ∷ []))
      × (suc (length between) ≡ length history)
      × (race.event.sequence ≡ suc s.sequence)
      × (last.sequence ≡ race.event.sequence)
play-overtaking r route q s history named small serving many =
    let race = overtaking-IsOvertaken r route q s named in
    let after = (play (overtaking r route q) (s, [])).0 in
    let next = some_IsNumbered history after s.sequence serving many race.cleared small in
    let number = race.number_is ∙ next_sequence-small s.sequence small in
    (
      race,
      next.between,
      next.last,
      next.appended ∙ ap (λ l. l ++ (next.between ++ next.last ∷ [])) race.alone,
      next.many,
      number,
      next.number_is ∙ sym number,
    )
