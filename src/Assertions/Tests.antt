-- ===== src/Assertions/Tests.antt =====
-- Snapshots and rounds, and the results at them for assertions/invariants.go.
use aero_arc_testing_harness.Prelude.{
  pos, ◌≤ℤ◌, refl, true, false, List, [], ◌∷◌, All, text, arith, ◌≡◌, ◌≢◌, ◌↔◌, ok, some,
}
use mathlib.Core.List.Perm
use aero_arc_testing_harness.Prelude.{map, lookup}
use aero_arc_testing_harness.Fixture.Types.{Reference, sent, references}
use aero_arc_testing_harness.Fixture.Router.{Route, handle}
use aero_arc_testing_harness.Fixture.Samples.{intent, request, rotated, rotated_history, config}
use aero_arc_testing_harness.Fixture.Preservation.{run-new-IsWellFormed}
use aero_arc_testing_harness.Assertions.Probe.{observe_dss_reference, reference}
use aero_arc_testing_harness.Assertions.Authority.{listed, observable, observe-state}
use aero_arc_testing_harness.Assertions.Types.{Snapshot, Result}
use aero_arc_testing_harness.Assertions.Checks.{
  active_requires_dss_activated, blocked_version_has_no_dss_reference,
  active_requires_dss_activated_iff, IsBacked, blocked_version_has_no_dss_reference_iff,
}
use aero_arc_testing_harness.Assertions.Probe.{
  observed, unobserved, query_dss_reference, unread_publication_passes, LocalRow, no_reference,
  unscanned, snapshot, begin_snapshot,
}
use aero_arc_testing_harness.Assertions.Eventually.{Round, running, second, eventually}
use aero_arc_testing_harness.Assertions.Convergence.{
  IsSound, eventually-IsSound, eventually-ends, Within, eventually-Within, ConvergesWith,
  eventually-converges,
}

abbrev accepted : LocalRow
accepted = record { version = pos 3; status = text "accepted" }

abbrev pending : Snapshot
pending =
    begin_snapshot (pos 7) (text "intent") (record { version = pos 3; status = text "active" })

abbrev backed : Snapshot
backed = record pending {
  published_version = pos 3;
  confirmed_dss_state = text "Activated";
  dss_reference_exists = true;
  dss_state = text "Activated";
}

abbrev checks : List (Snapshot → Result)
checks = active_requires_dss_activated ∷ blocked_version_has_no_dss_reference ∷ []

abbrev unreachable : Round
unreachable = record { seen = unobserved (query_dss_reference (text "timeout")); ends = false }

abbrev waiting : Round
waiting = record { seen = observed pending; ends = false }

abbrev done : Round
done = record { seen = observed backed; ends = false }

abbrev rounds : List Round
rounds = unreachable ∷ waiting ∷ done ∷ []

active_requires_dss_activated_iff_example :
    ((active_requires_dss_activated pending).passed ≡ true)
    ↔ (pending.local_status ≡ text "active" → IsBacked pending)
active_requires_dss_activated_iff_example = active_requires_dss_activated_iff pending

blocked_version_has_no_dss_reference_iff_example :
    ((blocked_version_has_no_dss_reference backed).passed ≡ true)
    ↔ ¬ (
        (backed.publication_sync_status ≡ text "blocked")
        × (backed.dss_reference_exists ≡ true)
        × (backed.desired_version ≤ℤ backed.dss_version))
blocked_version_has_no_dss_reference_iff_example = blocked_version_has_no_dss_reference_iff backed

unread_publication_passes_example :
    (s : Snapshot) × (snapshot
        (pos 7)
        (text "intent")
        (ok accepted)
        (unscanned, some (text "locked"))
        (ok no_reference)
      ≡ observed s)
    × ((blocked_version_has_no_dss_reference s).passed ≡ true)
    × (s.dss_version ≡ no_reference.version)
    × (s.dss_reference_exists ≡ no_reference.exists)
unread_publication_passes_example =
    unread_publication_passes (pos 7) (text "intent") accepted (text "locked") no_reference

eventually-IsSound_example : IsSound checks (eventually checks second rounds)
eventually-IsSound_example = eventually-IsSound checks second rounds

eventually-ends_example : (eventually checks second rounds).ending ≢ running
unfolding active_requires_dss_activated blocked_version_has_no_dss_reference
eventually-ends_example = eventually-ends checks second rounds refl

eventually-Within_example : All (Within second) (eventually checks (pos 0) rounds).timers
eventually-Within_example =
    eventually-Within checks second (pos 0) rounds (omega arith) (omega arith)

eventually-converges_example :
    ConvergesWith checks (pending ∷ []) backed 2 (eventually checks second rounds)
unfolding active_requires_dss_activated blocked_version_has_no_dss_reference
eventually-converges_example =
    eventually-converges checks second (unreachable ∷ waiting ∷ []) done [] backed refl refl refl

observe-state_example :
    (l : List Reference) × (handle Route.state (request intent []) rotated
      ≡ (rotated, sent (pos 200) (references l)))
    × (observe_dss_reference intent (ok (pos 200, ok (map listed l)))
        ≡ reference (observable (lookup intent rotated.references)))
unfolding rotated
observe-state_example =
    observe-state intent (request intent []) rotated (run-new-IsWellFormed config rotated_history)
      (λ l. Perm.refl l)
