-- ===== src/Fixture/Locking.antt =====
-- The optimistic locking of references by their OVN in internal/fixture/server.go.
use aero_arc_testing_harness.Prelude.{
  ℤ, pos, ◌≡◌, ◌≢◌, sym, ◌∙◌, Bool, false, Option, none, some, inl, inr, Text, text, text_eq-ne,
  text_eq_refl, append_cancel_left, decimal_int-injective, lookup, insert, lookup-insert, increment,
  increment-ne, lookup-All, Bool-cases,
}
use aero_arc_testing_harness.Fixture.Operation
use aero_arc_testing_harness.Fixture.Types.{
  FaultSnapshot, Reference, Server, Request, PutRequest, Body, stale_ovn,
}
use aero_arc_testing_harness.Fixture.Wire.{respond, record_event, closes}
use aero_arc_testing_harness.Fixture.References.{
  ovn_of, put, put_refusal, put_reference, put_operation, conclude, version_of,
}
use aero_arc_testing_harness.Fixture.Invariant.{IsWellFormed, IsStored}

-- Two versions of one intent have two OVNs.
pub ovn_of-injective : (id : Text) (u v : ℤ) → ovn_of id u ≡ ovn_of id v → u ≡ v
unfolding ovn_of
ovn_of-injective id u v h = decimal_int-injective u v (
    append_cancel_left (text "-") _ _
      (append_cancel_left id _ _ (append_cancel_left (text "ovn-") _ _ h)))

pub conclude-references :
    (r : Request) (operation : Text) (status : ℤ) (payload : Body) (fault : Option FaultSnapshot)
    (s : Server)
    → (conclude r operation status payload fault s).0.references ≡ s.references
unfolding conclude respond record_event
conclude-references r operation status payload fault s = elim (Bool-cases (closes fault)) [
  | inl e ↦ rw e
  | inr e ↦ rw e
]

-- A put that is not turned down stores the reference that it builds, and says so.
pub put_committed :
    (r : Request) (body : PutRequest) (create : Bool) (fault : Option FaultSnapshot) (s : Server)
    → put_refusal create r.ovn (lookup r.intent_id s.references) ≡ none
    → (put r body create fault s).0.references
      ≡ insert r.intent_id
          (put_reference r body (increment (version_of (lookup r.intent_id s.references))) s)
          s.references
unfolding put
put_committed r body create fault s e = rw (e, put) (conclude-references r _ _ _ fault _)

pub put_refused :
    (r : Request) (body : PutRequest) (create : Bool) (fault : Option FaultSnapshot) (s : Server)
    {status : ℤ} {payload : Body}
    → put_refusal create r.ovn (lookup r.intent_id s.references) ≡ some (status, payload)
    → put r body create fault s
      ≡ respond r (put_operation create) r.intent_id status payload fault s
unfolding put
put_refused r body create fault s e = rw (e, put)

-- An update under an OVN that is not the current one is turned down.
pub update_stale :
    (r : Request) (body : PutRequest) (fault : Option FaultSnapshot) (s : Server)
    {current : Reference}
    → lookup r.intent_id s.references ≡ some current
    → r.ovn ≢ current.ovn
    → put r body false fault s
      ≡ respond r Operation.update_reference r.intent_id (pos 409) (stale_ovn current.ovn) fault s
unfolding put_refusal
update_stale r body fault s {current} e other =
    put_refused r body false fault s (rw (e, put_refusal, text_eq-ne r.ovn current.ovn other))

-- The entry of a well-formed server, and why its OVN is not that of its next version.
module _ {s : Server} (w : IsWellFormed s) (id : Text) {current : Reference}
    (e : lookup id s.references ≡ some current) where
  pub entry-IsStored : IsStored (id, current)
  entry-IsStored = lookup-All IsStored id s.references w.stored e

  next_ovn-ne : current.ovn ≢ ovn_of id (increment current.version)
  next_ovn-ne same =
      let entry = entry-IsStored in
      increment-ne current.version entry.in_range
        (ovn_of-injective id _ _ (sym same ∙ entry.stamped))

  update_accepted :
      (ovn : Text) → ovn ≡ current.ovn → put_refusal false ovn (lookup id s.references) ≡ none
  unfolding put_refusal
  update_accepted ovn o = rw (e, put_refusal, o, text_eq_refl current.ovn)

module _ (first second : Request) (b c : PutRequest) (f g : Option FaultSnapshot) (s : Server) where
  -- Two updates of one intent under one OVN: once the first is committed, whatever its fault, the
  -- second is answered with a conflict that names the OVN of the first one's result, and changes
  -- nothing but the journal.
  pub lost_update :
      {current : Reference}
      → IsWellFormed s
      → lookup first.intent_id s.references ≡ some current
      → first.ovn ≡ current.ovn
      → second.intent_id ≡ first.intent_id
      → second.ovn ≡ first.ovn
      → let s' = (put first b false f s).0 in
        put second c false g s'
        ≡ respond second Operation.update_reference second.intent_id
            (pos 409)
            (stale_ovn (ovn_of first.intent_id (increment current.version)))
            g
            s'
  unfolding put_reference
  lost_update {current} w e o i o' =
      let id = first.intent_id in
      let stored = put_reference first b (increment current.version) s in
      let now_stored : lookup second.intent_id (put first b false f s).0.references ≡ some stored =
        rw (
          put_committed first b false f s (update_accepted w id e first.ovn o),
          i,
          e,
          lookup-insert id id stored s.references,
          text_eq_refl id,
        ) in
      update_stale second c g _ now_stored (λ same. next_ovn-ne w id e (sym o ∙ sym o' ∙ same))
