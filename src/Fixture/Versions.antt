-- ===== src/Fixture/Versions.antt =====
-- The version of a reference of internal/fixture/server.go over a history of requests.
use aero_arc_testing_harness.Prelude.{
  ℕ, ◌+◌, ◌<◌, ◌≤◌, pos, ◌≡◌, refl, sym, ◌∙◌, ap, Bool, true, false, List, [], ◌∷◌, Option, none,
  some, ◌⊎◌, inl, inr, Text, text_eq, text_eq_iff, arith, lookup, insert, lookup-insert, increment,
  increment-pos, two_63, Option-cases, Bool-cases, length,
}
use aero_arc_testing_harness.Fixture.Operation
use aero_arc_testing_harness.Fixture.Types.{
  FaultSnapshot, Reference, Server, Request, PutRequest, decoded, undecodable, stale_ovn,
}
use aero_arc_testing_harness.Fixture.Wire.{respond}
use aero_arc_testing_harness.Fixture.Faults.{take_fault, handle_fault, handle_clear_faults}
use aero_arc_testing_harness.Fixture.References.{
  ovn_of, bump, put, put_decoded, put_refusal, put_reference, handle_rotate_ovn, handle_state,
}
use aero_arc_testing_harness.Fixture.Router.{Route, handle, run, handle_events}
use aero_arc_testing_harness.Fixture.Endpoints.{operation_of, intent_of, served, handle-served}
use aero_arc_testing_harness.Fixture.Frame.{
  unless_faulted_cases, take_fault-frame, pre_commit-faults, served-reads, respond-references,
  handle_fault-references,
}
use aero_arc_testing_harness.Fixture.Invariant.{IsWellFormed}
use aero_arc_testing_harness.Fixture.Preservation.{handle-IsWellFormed}
use aero_arc_testing_harness.Fixture.Locking.{
  ovn_of-injective, put_committed, put_refused, update_stale, entry-IsStored,
}

-- The routes that remove no entry.
abbrev pub keeps_entries : Route → Bool
keeps_entries Route.reset = false
keeps_entries Route.delete_reference = false
keeps_entries _ = true

-- An entry is still there, at its version or the next.
record Follows (current : Reference) (found : Option Reference) : Type 0 where
  entry : Reference
  found_is : found ≡ some entry
  version_is : (entry.version ≡ current.version) ⊎ (entry.version ≡ increment current.version)

module _ (id : Text) (current : Reference) where
  Follows-self : (found : Option Reference) → found ≡ some current → Follows current found
  Follows-self found e = record { entry = current; found_is = e; version_is = inl refl }

  -- An entry written under some key, with the next version if it is this one's.
  Follows-insert :
      (k : Text) (v : Reference) (s : Server)
      → lookup id s.references ≡ some current
      → (k ≡ id → v.version ≡ increment current.version)
      → Follows current (lookup id (insert k v s.references))
  Follows-insert k v s e next = elim (Bool-cases (text_eq k id)) [
    | inl same ↦ record {
      entry = v;
      found_is = rw (lookup-insert k id v s.references, same);
      version_is = inr (next ((text_eq_iff k id).0 same));
    }
    | inr other ↦ Follows-self _ (rw (lookup-insert k id v s.references, other) e)
  ]

  put-Follows :
      (r : Request) (body : PutRequest) (create : Bool) (fault : Option FaultSnapshot) (s : Server)
      → lookup id s.references ≡ some current
      → Follows current (lookup id (put r body create fault s).0.references)
  put-Follows r body create fault s e =
      elim (Option-cases (put_refusal create r.ovn (lookup r.intent_id s.references))) [
        | inl committed ↦
            rw (put_committed r body create fault s committed)
              (Follows-insert r.intent_id _ s e (λ same. unfold put_reference in rw (same, e)))
        | inr ((status, payload), refused) ↦
            rw (put_refused r body create fault s refused)
              (rw (respond-references r _ _ status payload fault s) (Follows-self _ e))
      ]

  served-Follows :
      (route : Route) (r : Request) (fault : Option FaultSnapshot) (s : Server)
      → keeps_entries route ≡ true
      → lookup id s.references ≡ some current
      → Follows current (lookup id (served route r fault s).0.references)
  unfolding served put_decoded
  served-Follows (Route.create_reference (decoded body)) r fault s k e =
      put-Follows r body true fault s e
  served-Follows (Route.create_reference (undecodable err)) r fault s k e =
      rw (put_decoded, respond-references) (Follows-self _ e)
  served-Follows (Route.update_reference (decoded body)) r fault s k e =
      put-Follows r body false fault s e
  served-Follows (Route.update_reference (undecodable err)) r fault s k e =
      rw (put_decoded, respond-references) (Follows-self _ e)
  served-Follows Route.delete_reference r fault s k e = cc
  served-Follows route r fault s k e = Follows-self _ (rw (served-reads route r fault s refl) e)

  handle_rotate_ovn-Follows :
      (r : Request) (s : Server)
      → lookup id s.references ≡ some current
      → Follows current (lookup id (handle_rotate_ovn r s).0.references)
  unfolding handle_rotate_ovn
  handle_rotate_ovn-Follows r s e = elim (Option-cases (lookup r.intent_id s.references)) [
    | inl missing ↦ rw (missing, handle_rotate_ovn) (Follows-self _ e)
    | inr (v, there) ↦
        rw (there, handle_rotate_ovn)
          (Follows-insert r.intent_id _ s e (λ same. unfold bump in ground arith))
  ]

  control-Follows :
      (route : Route) (r : Request) (s : Server)
      → operation_of route ≡ none
      → keeps_entries route ≡ true
      → lookup id s.references ≡ some current
      → Follows current (lookup id (handle route r s).0.references)
  unfolding handle handle_clear_faults handle_events handle_state handle_fault
  control-Follows Route.reset r s o k e = cc
  control-Follows Route.rotate_ovn r s o k e = handle_rotate_ovn-Follows r s e
  control-Follows (Route.arm_fault p) r s o k e =
      Follows-self _ (rw (handle_fault-references p s) e)
  control-Follows Route.health r s o k e = Follows-self _ e
  control-Follows Route.clear_faults r s o k e = Follows-self _ e
  control-Follows Route.list_events r s o k e = Follows-self _ e
  control-Follows Route.state r s o k e = Follows-self _ e
  control-Follows _ r s o k e = cc

  handle-Follows :
      (route : Route) (r : Request) (s : Server)
      → keeps_entries route ≡ true
      → lookup id s.references ≡ some current
      → Follows current (lookup id (handle route r s).0.references)
  handle-Follows route r s k e = elim (Option-cases (operation_of route)) [
    | inl o ↦ control-Follows route r s o k e
    | inr (operation, o) ↦
        let (s', fault) = take_fault operation s in
        let same = ap (λ (t : Server). lookup id t.references) (take_fault-frame operation s) ∙ e in
        rw (handle-served route r s o) (
          unless_faulted_cases (λ out. Follows current (lookup id out.0.references)) r operation
            (intent_of route r) (served route r) s
            (λ outcome ended. Follows-self _ (
              ap (lookup id) (pre_commit-faults r operation (intent_of route r) fault s' ended).1
              ∙ same))
            (λ _. served-Follows route r fault s' k same))
  ]

abbrev pub IsKeeping : List (Route × Request) → Type 0
IsKeeping [] = Unit
IsKeeping ((route, r) ∷ rest) = (keeps_entries route ≡ true) × IsKeeping rest

-- An entry after a history, at a version no smaller than before.
record IsGrown (id : Text) (v : ℕ) (s : Server) : Type 0 where
  valid : IsWellFormed s
  entry : Reference
  found_is : lookup id s.references ≡ some entry
  version : ℕ
  version_is : entry.version ≡ pos version
  grown : v ≤ version

IsGrown-mono : {id : Text} {s : Server} (v w : ℕ) → v ≤ w → IsGrown id w s → IsGrown id v s
IsGrown-mono v w h g = record {
  valid = g.valid;
  entry = g.entry;
  found_is = g.found_is;
  version = g.version;
  version_is = g.version_is;
  grown = omega arith;
}

run-IsGrown :
    (history : List (Route × Request)) (id : Text) (v : ℕ) (s : Server) {current : Reference}
    → IsWellFormed s
    → IsKeeping history
    → lookup id s.references ≡ some current
    → current.version ≡ pos v
    → v + length history < two_63
    → IsGrown id v (run history s)
unfolding run
run-IsGrown [] id v s {current} w k e h room = record {
  valid = w;
  entry = current;
  found_is = e;
  version = v;
  version_is = h;
  grown = omega arith;
}
run-IsGrown ((route, r) ∷ rest) id v s {current} w k e h room =
    let w' = handle-IsWellFormed route r s w in
    let next = handle-Follows id current route r s k.0 e in
    elim next.version_is [
      | inl same ↦ run-IsGrown rest id v _ w' k.1 next.found_is (same ∙ h) (omega arith)
      | inr more ↦ IsGrown-mono v (v + 1) (omega arith) (
          run-IsGrown rest id (v + 1) _ w' k.1 next.found_is
            (more ∙ ap increment h ∙ increment-pos v (omega arith)) (omega arith))
    ]

-- A superseded OVN stays refused: from a well-formed server whose entry for an intent is at version
-- v, and after any history without a reset and without a deletion that is too short to wrap the
-- version around, an update under the OVN of a version before v finds the entry still there and
-- is answered with a conflict that names its current OVN.
pub superseded_ovn :
    (history : List (Route × Request)) (u v : ℕ) (r : Request) (body : PutRequest)
    (fault : Option FaultSnapshot) (s : Server) {current : Reference}
    → IsWellFormed s
    → IsKeeping history
    → lookup r.intent_id s.references ≡ some current
    → current.version ≡ pos v
    → v + length history < two_63
    → u < v
    → r.ovn ≡ ovn_of r.intent_id (pos u)
    → (entry : Reference) × (lookup r.intent_id (run history s).references ≡ some entry)
      × (put r body false fault (run history s)
          ≡ respond r Operation.update_reference r.intent_id
              (pos 409)
              (stale_ovn entry.ovn)
              fault
              (run history s))
superseded_ovn history u v r body fault s w k e h room older stale =
    let g = run-IsGrown history r.intent_id v s w k e h room in
    let stored = entry-IsStored g.valid r.intent_id g.found_is in
    (
      g.entry,
      g.found_is,
      update_stale r body fault _ g.found_is λ same.
          let one_version : pos u ≡ pos g.version =
            ovn_of-injective r.intent_id (pos u) g.entry.version (sym stale ∙ same ∙ stored.stamped)
            ∙ g.version_is in
          let grown : v ≤ g.version = g.grown in ground arith,
    )
