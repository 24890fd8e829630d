-- ===== src/Fixture/Edges.antt =====
-- Corners of internal/fixture/server.go: injected statuses that are no final status, and the OVN
-- of an intent that is created again.
use aero_arc_testing_harness.Prelude.{
  ℕ, zero, suc, ◌<◌, ◌≤◌, pos, ◌≡◌, sym, ◌∙◌, ap, true, false, Option, none, some, Text, text_eq,
  text_eq_iff, text_eq_refl, arith, lookup, lookup-insert, inl, inr, increment, eq_ℤ, if◌then◌else◌,
}
use aero_arc_testing_harness.Fixture.Types.{
  FaultPlan, FaultSnapshot, Reference, Server, Request, PutRequest, decoded, Reply, aborted, sent,
  message, incomplete, Body,
}
use aero_arc_testing_harness.Fixture.Wire.{write, written, write_json, respond}
use aero_arc_testing_harness.Fixture.Faults.{
  refused, handle_fault, snapshot, take_fault, pre_commit_fault, gives_up, injected_failure,
}
use aero_arc_testing_harness.Fixture.References.{ovn_of, put, put_refusal, put_reference, delete}
use aero_arc_testing_harness.Fixture.Router.{Route, handle}
use aero_arc_testing_harness.Fixture.Endpoints.{operation_of, intent_of, served, handle-served}
use aero_arc_testing_harness.Fixture.Frame.{unless_faulted_cases}
use aero_arc_testing_harness.Fixture.Locking.{put_committed}
use aero_arc_testing_harness.Fixture.Contents.{lookup-delete}
use aero_arc_testing_harness.Fixture.Budget.{armed-left, lookup-take_fault_self}

-- What reaches the client when a plan with a status and without a delay is taken.
abbrev pub injected_body : FaultPlan → Body
injected_body p = if p.malformed_json then incomplete else message injected_failure

take_fault-armed :
    (p : FaultPlan) (s : Server) {n : ℕ}
    → refused p ≡ false
    → p.times ≡ pos n
    → (take_fault p.operation (handle_fault (decoded p) s).0).1 ≡ some (snapshot p)
unfolding handle_fault
take_fault-armed p s {n = zero} accepted h = unfold refused in ground arith
take_fault-armed p s {n = suc n} accepted h =
    rw accepted
      (lookup-take_fault_self (suc n) p.operation p _ (armed-left (suc n) p s accepted h)).1

-- A fault with a status whose delay is waited out is answered with that status.
handle-injected :
    (route : Route) (r : Request) (s : Server) (f : FaultSnapshot) {operation : Text}
    → operation_of route ≡ some operation
    → (take_fault operation s).1 ≡ some f
    → gives_up r f ≡ false
    → eq_ℤ f.status (pos 0) ≡ false
    → (handle route r s).1 ≡ written f.status (message injected_failure) (some f)
unfolding respond pre_commit_fault
handle-injected route r s f {operation} e taken waits code =
    let id = intent_of route r in
    let (s', fault) = take_fault operation s in
    let outcome_is : pre_commit_fault r operation id fault s'
        ≡ some (respond r operation id f.status (message injected_failure) (some f) s') =
      ap (λ (x : Option FaultSnapshot). pre_commit_fault r operation id x s') taken
      ∙ rw (waits, code, pre_commit_fault) in
    rw (handle-served route r s e) (
      unless_faulted_cases (λ out. out.1 ≡ written f.status (message injected_failure) (some f)) r
        operation id (served route r) s
        (λ outcome ended.
          let same : outcome
              ≡ respond r operation id f.status (message injected_failure) (some f) s' =
            cc in
          ap (λ (o : Server × Reply). o.1) same)
        (λ going. cc))

-- A plan that is accepted with a status but no delay makes the next request for its operation end
-- in what net/http makes of that status: below 100 the handler panics and the connection is
-- aborted, and from 102 to 199 the client gets a 200.
pub injected_status :
    (route : Route) (r : Request) (p : FaultPlan) (s : Server) {n status : ℕ}
    → operation_of route ≡ some p.operation
    → refused p ≡ false
    → p.times ≡ pos n
    → p.delay_millis ≡ pos 0
    → p.status ≡ pos (suc status)
    → let reply = (handle route r (handle_fault (decoded p) s).0).1 in
      (suc status < 100 → reply ≡ aborted)
      × (102 ≤ suc status → suc status < 200 → reply ≡ sent (pos 200) (injected_body p))
unfolding written write write_json gives_up
injected_status route r p s e accepted h no_delay code =
    let answer =
      handle-injected route r (handle_fault (decoded p) s).0 (snapshot p) e
        (take_fault-armed p s accepted h) (ground arith) (ground arith) in
    (λ low. answer ∙ ground arith, λ low high. answer ∙ ground arith)

-- What a committed put or delete leaves under its intent.
module _ (r : Request) (body : PutRequest) (f : Option FaultSnapshot) (s : Server) where
  create_stores :
      lookup r.intent_id s.references ≡ none
      → lookup r.intent_id (put r body true f s).0.references
        ≡ some (put_reference r body (pos 1) s)
  unfolding put_refusal increment
  create_stores absent =
      let id = r.intent_id in
      let stored = put_reference r body (pos 1) s in
      rw (
        put_committed r body true f s (rw (absent, put_refusal)),
        absent,
        lookup-insert id id stored s.references,
        text_eq_refl id,
      )

  update_stores :
      {current : Reference}
      → lookup r.intent_id s.references ≡ some current
      → r.ovn ≡ current.ovn
      → lookup r.intent_id (put r body false f s).0.references
        ≡ some (put_reference r body (increment current.version) s)
  unfolding put_refusal
  update_stores {current} there o =
      let id = r.intent_id in
      let stored = put_reference r body (increment current.version) s in
      let fresh : text_eq r.ovn current.ovn ≡ true = (text_eq_iff r.ovn current.ovn).1 o in
      rw (
        put_committed r body false f s (rw (there, put_refusal, fresh)),
        there,
        lookup-insert id id stored s.references,
        text_eq_refl id,
      )

delete_removes :
    (r : Request) (f : Option FaultSnapshot) (s : Server) {current : Reference}
    → lookup r.intent_id s.references ≡ some current
    → r.ovn ≡ current.ovn
    → lookup r.intent_id (delete r f s).0.references ≡ none
delete_removes r f s {current} there o = elim (lookup-delete r.intent_id r f s) [
  | inl (absent, _) ↦ cc
  | inr (found, e, after) ↦
      let fresh : text_eq r.ovn found.ovn ≡ true =
        (text_eq_iff r.ovn found.ovn).1 (o ∙ ground arith) in
      after ∙ rw (fresh, text_eq_refl r.intent_id)
]

renamed :
    {a b : Text} (s : Server) {found : Option Reference}
    → a ≡ b
    → lookup a s.references ≡ found
    → lookup b s.references ≡ found
renamed s e h = rw e at h

-- A version starts over: create an intent, delete it under its OVN and create it again, and it has
-- the OVN that it had at first, so that a put under an OVN from before the deletion is accepted.
pub recreated_ovn :
    (create delete_it create_again update : Request) (first second third : PutRequest)
    (f g h k : Option FaultSnapshot) (s : Server)
    → lookup create.intent_id s.references ≡ none
    → delete_it.intent_id ≡ create.intent_id
    → create_again.intent_id ≡ create.intent_id
    → update.intent_id ≡ create.intent_id
    → delete_it.ovn ≡ ovn_of create.intent_id (pos 1)
    → update.ovn ≡ delete_it.ovn
    → let s₁ = (put create first true f s).0 in
      let s₂ = (delete delete_it g s₁).0 in
      let s₃ = (put create_again second true h s₂).0 in
      let s₄ = (put update third false k s₃).0 in
      (lookup create.intent_id s₂.references ≡ none)
      × (lookup create.intent_id s₄.references ≡ some (put_reference update third (pos 2) s₃))
unfolding put_reference increment
recreated_ovn create delete_it create_again update first second third f g h k s absent i j l o p =
    let s₁ = (put create first true f s).0 in
    let s₂ = (delete delete_it g s₁).0 in
    let s₃ = (put create_again second true h s₂).0 in
    let made = renamed s₁ (sym i) (create_stores create first f s absent) in
    let gone = renamed s₂ i (delete_removes delete_it g s₁ made o) in
    let again = create_stores create_again second h s₂ (renamed s₂ (sym j) gone) in
    let ovn_is : update.ovn ≡ ovn_of create_again.intent_id (pos 1) =
      p ∙ o ∙ ap (λ id. ovn_of id (pos 1)) (sym j) in
    (
      gone,
      renamed (put update third false k s₃).0 l
          (update_stores update third k s₃ (renamed s₃ (j ∙ sym l) again) ovn_is),
    )
