-- ===== src/Fixture/Contents.antt =====
-- What the endpoints of internal/fixture/server.go say of the references that are stored.
use mathlib.Core.List.Perm
use mathlib.Core.Logic.Or
use mathlib.Core.Logic.{◌↔◌}
use mathlib.Core.List.{Mem, Perm, mem-cons, not-mem-nil}
use aero_arc_testing_harness.Prelude.{
  pos, ◌≡◌, ◌≢◌, refl, sym, ◌∙◌, ap, ◌&&◌, List, [], ◌∷◌, Option, none, some, ◌⊎◌, inl, inr, Text,
  text_eq, text_eq_refl, text_eq-ne, arith, lookup, insert, values, lookup-insert, lookup-erase,
  increment, Dict, Distinct, All, Option-cases, Bool-cases, if◌then◌else◌,
}
use aero_arc_testing_harness.Fixture.Operation
use aero_arc_testing_harness.Fixture.Types.{
  references, FaultSnapshot, Reference, Server, Request, PutRequest, Reply, sent, found, changed,
  details, decoded,
}
use aero_arc_testing_harness.Fixture.Wire.{respond, written, record_event}
use aero_arc_testing_harness.Fixture.References.{
  put, put_refusal, put_reference, get_reference, conclude, query_references, delete, put_decoded,
  subscriber,
}
use aero_arc_testing_harness.Fixture.Router.{Route, handle, peer_details}
use aero_arc_testing_harness.Fixture.Endpoints.{served}
use aero_arc_testing_harness.Fixture.Transparency.{handle-unarmed}
use aero_arc_testing_harness.Fixture.Invariant.{IsWellFormed, IsStored}
use aero_arc_testing_harness.Fixture.Locking.{conclude-references}

-- A delete takes the entry away exactly when the request's OVN is the current one, and touches no other.
pub lookup-delete :
    (id : Text) (r : Request) (fault : Option FaultSnapshot) (s : Server)
    → ((lookup r.intent_id s.references ≡ none)
        × (lookup id (delete r fault s).0.references ≡ lookup id s.references))
      ⊎ ((current : Reference) × (lookup r.intent_id s.references ≡ some current)
          × (lookup id (delete r fault s).0.references ≡ (
              if text_eq r.ovn current.ovn && text_eq r.intent_id id
              then none
              else lookup id s.references)))
unfolding delete respond record_event
lookup-delete id r fault s = elim (Option-cases (lookup r.intent_id s.references)) [
  | inl e ↦ inl (e, rw (e, delete))
  | inr (v, e) ↦ elim (Bool-cases (text_eq r.ovn v.ovn)) [
    | inl fresh ↦ inr (
      v,
      e,
      rw (e, delete, fresh, conclude-references) (lookup-erase r.intent_id id s.references),
    )
    | inr stale ↦ inr (v, e, rw (e, delete, stale))
  ]
]

Reference-set : IsSet (Option Reference)
Reference-set = hlevel

keys_differ :
    (j k : Text) (m : Dict Reference) {v : Reference}
    → lookup j m ≡ none
    → lookup k m ≡ some v
    → j ≢ k
keys_differ j k m absent there same = cc (ap (λ (x : Text). lookup x m) same)

-- The stored values are those found under their own id.
pub mem-values :
    (m : Dict Reference) (v : Reference)
    → All IsStored m
    → Distinct m
    → Mem v (values m) ↔ (lookup v.id m ≡ some v)
unfolding lookup values
mem-values [] v a d = (λ m. absurd (not-mem-nil m), λ e. cc)
mem-values ((j, w) ∷ m) v a d = (
  λ listed.
      Or.elim (Reference-set _ _) (mem-cons.0 listed)
        (λ (first : v ≡ w).
          rw (ap (text_eq j) (ap (λ (x : Reference). x.id) first ∙ a.0.keyed), text_eq_refl j)
            (ap some (sym first)))
        (λ later.
          let e = (mem-values m v a.1 d.1).0 later in
          rw (text_eq-ne j v.id (keys_differ j v.id m d.0 e)) e),
  λ e. elim (Bool-cases (text_eq j v.id)) [
    | inl same ↦ let first : v ≡ w = ground arith in mem-cons.1 (Or.inl first)
    | inr other ↦ mem-cons.1 (Or.inr ((mem-values m v a.1 d.1).1 (rw other at e)))
  ],
)

-- A query without a fault answers with every stored reference and no other: a reference is
-- in the list, in whatever order the map is ranged over, exactly if it is the one stored under its
-- id.
pub query-lists :
    (r : Request) (s : Server) (v : Reference)
    → IsWellFormed s
    → lookup Operation.query_references s.faults ≡ none
    → ((l : List Reference) → Perm (r.range l) l)
    → ((handle Route.query_references r s).1
        ≡ sent (pos 200) (references (r.range (values s.references))))
      × (Mem v (r.range (values s.references)) ↔ (lookup v.id s.references ≡ some v))
query-lists r s v w free ranges =
    let listed = mem-values s.references v w.stored w.distinct in
    (
      ap (λ (o : Server × Reply). o.1) (handle-unarmed Route.query_references r s refl free)
          ∙ (unfold served query_references respond written in refl),
      (
        λ m. listed.0 ((Perm.mem_iff (ranges _)).0 m),
        λ e. (Perm.mem_iff (ranges _)).1 (listed.1 e),
      ),
    )

no_fault : (operation : Text) (s : Server) → s.faults ≡ [] → lookup operation s.faults ≡ none
unfolding lookup
no_fault operation s free = rw free

-- What an accepted create comes to without a fault.
pub created :
    (r : Request) (body : PutRequest) (s : Server)
    → lookup Operation.create_reference s.faults ≡ none
    → lookup r.intent_id s.references ≡ none
    → let stored = put_reference r body (pos 1) s in
      handle (Route.create_reference (decoded body)) r s
      ≡ respond r Operation.create_reference r.intent_id
          (pos 201)
          (changed stored (subscriber s))
          none
          (record s { references = insert r.intent_id stored s.references })
unfolding put_decoded put conclude put_refusal served increment
created r body s free absent =
    handle-unarmed (Route.create_reference (decoded body)) r s refl free
    ∙ rw (absent, put) (rw absent refl)

module _ (r : Request) (s : Server) (free : s.faults ≡ []) {v : Reference}
    (there : lookup r.intent_id s.references ≡ some v) where
  read_entry : (handle Route.get_reference r s).1 ≡ sent (pos 200) (found v)
  unfolding served get_reference respond written
  read_entry =
      ap (λ (o : Server × Reply). o.1)
        (handle-unarmed Route.get_reference r s refl (no_fault _ s free))
      ∙ rw (there, get_reference)

  read_details : (handle Route.peer_details_of r s).1 ≡ sent (pos 200) (details v)
  unfolding served peer_details respond written
  read_details =
      ap (λ (o : Server × Reply). o.1)
        (handle-unarmed Route.peer_details_of r s refl (no_fault _ s free))
      ∙ rw (there, peer_details)

-- Where no fault is armed, a create of an intent that is not there is answered with the stored
-- reference, at version 1, and a read and the peer's details then give that same reference, with
-- the extents that the create brought; no other intent's entry is touched.
pub create-get :
    (create read : Request) (body : PutRequest) (s : Server)
    → s.faults ≡ []
    → lookup create.intent_id s.references ≡ none
    → read.intent_id ≡ create.intent_id
    → let stored = put_reference create body (pos 1) s in
      let (s', reply) = handle (Route.create_reference (decoded body)) create s in
      (reply ≡ sent (pos 201) (changed stored (subscriber s)))
      × ((handle Route.get_reference read s').1 ≡ sent (pos 200) (found stored))
      × ((handle Route.peer_details_of read s').1 ≡ sent (pos 200) (details stored))
      × (stored.volumes ≡ body.extents)
      × ((id : Text) → id ≢ create.intent_id → lookup id s'.references ≡ lookup id s.references)
unfolding put_reference
create-get create read body s free absent same =
    let id = create.intent_id in
    let stored = put_reference create body (pos 1) s in
    let s' =
      record_event create Operation.create_reference id (pos 201) none
        (record s { references = insert id stored s.references }) in
    let found_is : lookup read.intent_id s'.references ≡ some stored =
      unfold record_event in rw (same, lookup-insert id id stored s.references, text_eq_refl id) in
    let free' : s'.faults ≡ [] = unfold record_event in free in
    rw (created create body s (no_fault _ s free) absent) (
      unfold respond written in refl,
      unfold respond in read_entry read s' free' found_is,
      unfold respond in read_details read s' free' found_is,
      refl,
      λ other ne.
          unfold respond record_event in
          rw (lookup-insert id other stored s.references, text_eq-ne id other (λ e. ne (sym e))),
    )
