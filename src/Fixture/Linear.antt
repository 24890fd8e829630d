-- ===== src/Fixture/Linear.antt =====
-- The references of internal/fixture/server.go under every interleaving of its handlers, against
-- their specification.
use aero_arc_testing_harness.Prelude.{
  ℕ, zero, suc, pos, ap, Bool-cases, All-insert, ◌≡◌, refl, sym, subst, ◌∙◌, inl, inr, List, [],
  ◌∷◌, Option, none, some, arith, Option-cases, Dict, Text,
}
use aero_arc_testing_harness.Fixture.Types.{
  FaultPlan, status_ok, Server, Reference, Request, Reply, Decoded, decoded, undecodable,
}
use aero_arc_testing_harness.Fixture.Wire.{write_json}
use aero_arc_testing_harness.Fixture.Faults.{snapshot, refused, handle_fault, handle_clear_faults}
use aero_arc_testing_harness.Fixture.References.{handle_rotate_ovn, handle_state}
use aero_arc_testing_harness.Fixture.Router.{Route, handle, handle_reset, handle_events}
use aero_arc_testing_harness.Fixture.Endpoints.{operation_of}
use aero_arc_testing_harness.Fixture.Frame.{handle_fault-references}
use aero_arc_testing_harness.Fixture.Threads.{
  Thread, ended, section, resetting, control_thread, thread,
}
use aero_arc_testing_harness.Fixture.Interleaving.{
  Task, Move, arrive, advance, progress, advanced, moved, play,
}
use aero_arc_testing_harness.Fixture.Atomic.{
  Ground, AreSourced, IsFramed, effect, IsPending, endpoint-IsPending,
}
use aero_arc_testing_harness.Fixture.Specification.{
  Slot, waiting, over, arrived, Atomically, stays, commits, leaves, beyond, Runs, begun, joins,
  goes_on, Fits, IsMatched,
}

module _ (g : Ground) where
  -- A control request has one section with an effect.
  single :
      (route : Route) (r : Request) (h : Server → Server × Reply)
      → ((s : Server)
          → IsFramed g s
          → IsFramed g (h s).0 × ((h s).0.references ≡ effect g.server route r s.references))
      → IsPending g route r (section (λ s. (h s).0) (λ s. ended (h s).1))
  single route r h kept s f = ((kept s f).0, inr ((kept s f).1, tt))

  -- A plan that a request arms is one that may be armed.
  abbrev pub IsSourced : Route → Type 0
  IsSourced (Route.arm_fault (decoded p)) = g.Source p.operation (snapshot p)
  IsSourced _ = Unit

  arm-IsFramed :
      (p : Decoded FaultPlan) (s : Server)
      → IsSourced (Route.arm_fault p)
      → IsFramed g s
      → IsFramed g (handle_fault p s).0
  unfolding handle_fault
  arm-IsFramed (undecodable err) s may f = f
  arm-IsFramed (decoded p) s may f = elim (Bool-cases (refused p)) [
    | inl bad ↦ rw (handle_fault, bad) f
    | inr fine ↦
        rw (handle_fault, fine)
          (record {
            manager = f.manager;
            peer = f.peer;
            plans =
                All-insert (λ (x : Text × FaultPlan). g.Source x.0 (snapshot x.1)) p.operation p
                  s.faults may f.plans;
          })
  ]

  rotate-references :
      (r : Request) (s : Server)
      → (handle_rotate_ovn r s).0
        ≡ record s { references = effect g.server Route.rotate_ovn r s.references }
  unfolding handle_rotate_ovn handle
  rotate-references r s = ground arith

  abbrev IsSteered : Route → Request → Option Text → Type 0
  IsSteered route r (some operation) = Unit
  IsSteered route r none = IsPending g route r (control_thread route r)

  control_thread-IsSteered :
      (route : Route) (r : Request) → IsSourced route → IsSteered route r (operation_of route)
  unfolding control_thread resetting handle handle_reset handle_clear_faults handle_events
      handle_state
  control_thread-IsSteered Route.health r may =
      single Route.health r (λ s. (s, write_json (pos 200) status_ok)) (λ s f. (f, refl))
  control_thread-IsSteered Route.reset r may = λ s f. (
    record { manager = f.manager; peer = f.peer; plans = tt },
    inr (
      refl,
      λ s' f'. (record { manager = f'.manager; peer = f'.peer; plans = f'.plans }, refl, tt),
    ),
  )
  control_thread-IsSteered (Route.arm_fault p) r may =
      single (Route.arm_fault p) r (handle_fault p) (λ s f. (
        arm-IsFramed p s may f,
        handle_fault-references p s
            ∙ sym (
                handle_fault-references p
                  (record g.server { references = s.references; faults = [] })),
      ))
  control_thread-IsSteered Route.clear_faults r may =
      single Route.clear_faults r handle_clear_faults
        (λ s f. (record { manager = f.manager; peer = f.peer; plans = tt }, refl))
  control_thread-IsSteered Route.list_events r may =
      single Route.list_events r handle_events (λ s f. (f, refl))
  control_thread-IsSteered Route.state r may =
      single Route.state r (handle_state r) (λ s f. (f, refl))
  control_thread-IsSteered Route.rotate_ovn r may =
      single Route.rotate_ovn r (handle_rotate_ovn r) (λ s f.
        let same = rotate-references r s in
        (
          subst (IsFramed g) (sym same)
              (record { manager = f.manager; peer = f.peer; plans = f.plans }),
          ap (λ (x : Server). x.references) same,
        ))
  control_thread-IsSteered _ r may = tt

  thread-IsPending :
      (route : Route) (r : Request) → IsSourced route → IsPending g route r (thread route r)
  unfolding thread
  thread-IsPending route r may = elim (Option-cases (operation_of route)) [
    | inr (operation, e) ↦ endpoint-IsPending g route r e
    | inl control ↦
        rw (thread, control)
          (subst (IsSteered route r) control (control_thread-IsSteered route r may))
  ]

  -- The plans that the moves arm are ones that may be armed.
  abbrev pub AllSourced : List Move → Type 0
  AllSourced [] = Unit
  AllSourced (arrive route r ∷ moves) = IsSourced route × AllSourced moves
  AllSourced (advance place ∷ moves) = AllSourced moves

  -- What a move comes to in the specification.
  abbrev Follows : Server → List Slot → Server × List Task → Type 0
  Follows s slots c =
      IsFramed g c.0
      × (slots' : List Slot) × Atomically g s.references slots c.0.references slots'
      × IsMatched g c.1 slots'

  progress-Follows :
      (t : Task) (tasks : List Task) (x : Slot) (slots : List Slot) (s : Server)
      → IsFramed g s
      → Fits g t.rest x
      → IsMatched g tasks slots
      → Follows s
          (x ∷ slots)
          ((progress t.rest s).0, record t { rest = (progress t.rest s).1 } ∷ tasks)
  unfolding progress
  progress-Follows t tasks x slots s f fits m = go t.rest x fits
    where
      go :
          (th : Thread) (x : Slot)
          → Fits g th x
          → Follows s (x ∷ slots) ((progress th s).0, record t { rest = (progress th s).1 } ∷ tasks)
      go (ended reply) (waiting route r) h = absurd h
      go (ended reply) over h = (f, over ∷ slots, stays s.references (over ∷ slots), (tt, m))
      go (section body k) over h =
          let (kept, same, idle) = h s f in
          (
            kept,
            over ∷ slots,
            subst (λ refs. Atomically g s.references (over ∷ slots) refs (over ∷ slots)) (sym same)
                (stays s.references (over ∷ slots)),
            (idle, m),
          )
      go (section body k) (waiting route r) h = elim (h s f).1 [
        | inr (effect_done, idle) ↦ (
          (h s f).0,
          over ∷ slots,
          subst (λ refs. Atomically g s.references (waiting route r ∷ slots) refs (over ∷ slots))
              (sym effect_done) (commits s.references slots route r),
          (idle, m),
        )
        | inl (same, inr (idle, stop)) ↦ (
          (h s f).0,
          over ∷ slots,
          subst (λ refs. Atomically g s.references (waiting route r ∷ slots) refs (over ∷ slots))
              (sym same) (leaves s.references slots route r stop),
          (idle, m),
        )
        | inl (same, inl pending) ↦ (
          (h s f).0,
          waiting route r ∷ slots,
          subst
              (λ refs.
                Atomically g s.references (waiting route r ∷ slots) refs (waiting route r ∷ slots))
              (sym same) (stays s.references (waiting route r ∷ slots)),
          (pending, m),
        )
      ]

  advanced-Follows :
      (place : ℕ) (s : Server) (tasks : List Task) (slots : List Slot)
      → IsFramed g s
      → IsMatched g tasks slots
      → Follows s slots (advanced place s tasks)
  unfolding advanced
  advanced-Follows place s [] slots f m = (f, slots, stays s.references slots, m)
  advanced-Follows place s (t ∷ tasks) [] f m = absurd m
  advanced-Follows zero s (t ∷ tasks) (x ∷ slots) f m = progress-Follows t tasks x slots s f m.0 m.1
  advanced-Follows (suc place) s (t ∷ tasks) (x ∷ slots) f m =
      let (f', slots', a, m') = advanced-Follows place s tasks slots f m.1 in
      (f', x ∷ slots', beyond x a, (m.0, m'))

  play-Runs :
      (moves : List Move) (start : Dict Reference) (requests : List (Route × Request)) (s : Server)
      (tasks : List Task) (slots : List Slot)
      → IsFramed g s
      → AllSourced moves
      → IsMatched g tasks slots
      → Runs g start requests s.references slots
      → (slots' : List Slot) × Runs g start
          (arrived moves requests)
          (play moves (s, tasks)).0.references
          slots'
        × IsMatched g (play moves (s, tasks)).1 slots'
  unfolding play moved
  play-Runs [] start requests s tasks slots f may m run = (slots, run, m)
  play-Runs (arrive route r ∷ moves) start requests s tasks slots f may m run =
      play-Runs moves start ((route, r) ∷ requests) s
        (record { route = route; request = r; rest = thread route r } ∷ tasks)
        (waiting route r ∷ slots) f may.1 (thread-IsPending route r may.0, m) (joins route r run)
  play-Runs (advance place ∷ moves) start requests s tasks slots f may m run =
      let (f', slots', a, m') = advanced-Follows place s tasks slots f m in
      let c = advanced place s tasks in
      play-Runs moves start requests c.0 c.1 slots' f' may m' (goes_on run a)

-- However the threads of requests to a server are interleaved, section by section, the references
-- are those of a run in which each request that has arrived takes the effect on them that it has
-- when it is handled in one go with no fault armed, once, at one moment after its arrival and
-- before its answer; only a request that a fault of its own operation, which was armed at the start
-- or which one of the requests arms, can stop may be answered with no effect.
pub play-atomic :
    (g : Ground) (moves : List Move)
    → AreSourced g g.server.faults
    → AllSourced g moves
    → (slots : List Slot) × Runs g g.server.references
        (arrived moves [])
        (play moves (g.server, [])).0.references
        slots
      × IsMatched g (play moves (g.server, [])).1 slots
play-atomic g moves plans may =
    play-Runs g moves g.server.references [] g.server [] []
      (record { manager = refl; peer = refl; plans = plans }) may tt begun
