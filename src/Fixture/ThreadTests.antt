-- ===== src/Fixture/ThreadTests.antt =====
-- The interleavings of internal/fixture/server.go at concrete inputs.
use aero_arc_testing_harness.Prelude.{suc, ◌≡◌, refl, arith, List, [], ◌∷◌, ◌++◌, length, text}
use aero_arc_testing_harness.Fixture.Operation
use aero_arc_testing_harness.Fixture.Types.{Event, Server, Request, decoded, new}
use aero_arc_testing_harness.Fixture.Router.{Route, handle, run}
use aero_arc_testing_harness.Fixture.Wire.{record_event, respond}
use aero_arc_testing_harness.Fixture.Faults.{take_fault, pre_commit_fault}
use aero_arc_testing_harness.Fixture.References.{
  unless_faulted, put_decoded, put, conclude, handle_create_reference, handle_rotate_ovn,
}
use aero_arc_testing_harness.Fixture.Transparency.{unarmed}
use aero_arc_testing_harness.Fixture.Atomic.{Ground}
use aero_arc_testing_harness.Fixture.Interleaving.{Move, arrive, advance, play}
use aero_arc_testing_harness.Fixture.Specification.{Slot, arrived, Runs, IsMatched}
use aero_arc_testing_harness.Fixture.Linear.{play-atomic}
use aero_arc_testing_harness.Fixture.Preservation.{run-new-IsWellFormed}
use aero_arc_testing_harness.Fixture.Interleaved.{AreStored, play-AreStored}
use aero_arc_testing_harness.Fixture.Races.{IsOvertaken, overtaking, play-overtaking}
use aero_arc_testing_harness.Fixture.Samples.{
  intent, request, accepted, config, rotated_history, rotated,
}

abbrev update : Route
update = Route.update_reference (decoded accepted)

-- Two updates under one OVN, both past their faults before either takes the mutex.
abbrev rivals : List Move
rivals =
    arrive update (request intent (text "ovn-i1-2"))
    ∷ arrive update (request intent (text "ovn-i1-2"))
    ∷ advance 0
    ∷ advance 1
    ∷ advance 1
    ∷ advance 0
    ∷ []

-- The server after a rotation, where no fault may be armed.
abbrev calm : Ground
calm = record { server = unarmed rotated; Source = λ operation fault. ⊥ }

play-atomic_example :
    (slots : List Slot) × Runs calm rotated.references
      (arrived rivals [])
      (play rivals (unarmed rotated, [])).0.references
      slots
    × IsMatched calm (play rivals (unarmed rotated, [])).1 slots
play-atomic_example = play-atomic calm rivals tt (tt, (tt, tt))

-- After the race, as many requests as the server had recorded before it, and one more.
abbrev next_scenario : List (Route × Request)
next_scenario =
    (Route.query_references, request [] []) ∷ (Route.query_subscriptions, request [] []) ∷ []

abbrev raced : Server
raced = (play (overtaking (request [] []) Route.get_reference (request intent [])) (rotated, [])).0

rotated_count : rotated.sequence ≡ 1
unfolding rotated run handle handle_create_reference unless_faulted put_decoded put conclude respond
    record_event handle_rotate_ovn pre_commit_fault take_fault new
rotated_count = refl

play-overtaking_example :
    (race : IsOvertaken Route.get_reference
      (request intent [])
      Operation.get_reference
      rotated.sequence
      raced)
    × (between : List Event) × (last : Event) × ((run next_scenario raced).events
        ≡ race.event ∷ (between ++ last ∷ []))
    × (suc (length between) ≡ length next_scenario)
    × (race.event.sequence ≡ suc rotated.sequence)
    × (last.sequence ≡ race.event.sequence)
play-overtaking_example =
    play-overtaking (request [] []) Route.get_reference (request intent []) rotated next_scenario
      refl (rw rotated_count (ground arith)) ((_, refl), ((_, refl), tt)) (rw rotated_count refl)

play-AreStored_example : AreStored (play rivals (rotated, [])).0.references
unfolding rotated
play-AreStored_example = play-AreStored rivals rotated (run-new-IsWellFormed config rotated_history)
