-- ===== src/Injection/Delivery.antt =====
-- What the injector of faults/fixture/injector.go brings about in the fixture server of
-- internal/fixture/server.go.
use aero_arc_testing_harness.Prelude.{
  ℕ, ℤ, pos, negsuc, ◌≡◌, refl, sym, ap, ◌∙◌, false, List, [], none, ◌⊎◌, inl, inr, Text, text,
  eq_ℤ, if◌then◌else◌, Outcome, ok, failed, insert, arith, Bool-cases, Option-cases, ◌≤ℤ◌, ◌==◌,
}
use aero_arc_testing_harness.Fixture.Types.{
  FaultPlan, Server, Request, Decoded, decoded, undecodable, Reply, sent, closed, aborted,
  unwritten,
}
use aero_arc_testing_harness.Fixture.Wire.{write, write_json}
use aero_arc_testing_harness.Fixture.Faults.{handle_fault, handle_clear_faults, refused, snapshot}
use aero_arc_testing_harness.Fixture.Router.{Route}
use aero_arc_testing_harness.Fixture.Budget.{IsServing, taken, budget, handle_fault-taken}
use aero_arc_testing_harness.Injection.Fault.{
  Fault, Receipt, InjectError, request_failed, sum_cases, validate, validate_iff,
}
use aero_arc_testing_harness.Injection.ByFixture.{plan_of, confirm, enable, disable}

-- The status that an HTTP client sees of a reply.
abbrev pub status_of : Reply → Outcome ℤ
status_of (sent status body) = ok status
status_of closed = failed (text "EOF")
status_of aborted = failed (text "EOF")
status_of unwritten = ok (pos 200)

-- What becomes of a request to the fixture server: its answer comes back; the request cannot be
-- made or does not get there; or the server handles it and the answer is lost, as when the
-- client's deadline passes before.
pub data Transport : Type 0 where
  delivered : Transport
  request_lost answer_lost : (error : Text) → Transport

-- One request over a transport, to a server that handles it by `handled`.
abbrev pub over : Transport → (Server → Server × Reply) → Server → Server × Outcome ℤ
over delivered handled s = let (s', reply) = handled s in (s', status_of reply)
over (request_lost e) handled s = (s, failed e)
over (answer_lost e) handled s = ((handled s).0, failed e)

-- The arming and the clearing request, to a fixture server; `carry` is the encoding of the plan
-- by one side and its decoding by the other.
abbrev pub arm :
    Transport → (FaultPlan → Decoded FaultPlan) → FaultPlan → Server → Server × Outcome ℤ
arm transport carry p = over transport (handle_fault (carry p))

abbrev pub clear : Transport → Server → Server × Outcome ℤ
clear transport = over transport handle_clear_faults

-- How often a fault with a count happens.
abbrev pub uses : ℤ → ℕ
uses (pos n) = if n == 0 then 1 else n
uses (negsuc n) = 0

times-uses : (c : ℤ) → pos 0 ≤ℤ c → (if eq_ℤ c (pos 0) then pos 1 else c) ≡ pos (uses c)
times-uses (pos n) h = ground arith
times-uses (negsuc n) h = ground arith

-- The parts of a plan that are the fault's.
plan_of-eq :
    (f : Fault) (p : FaultPlan)
    → plan_of f ≡ inr p
    → (p.operation ≡ f.operation)
      × (p.times ≡ (if eq_ℤ f.count (pos 0) then pos 1 else f.count))
      × (validate f ≡ none)
unfolding plan_of
plan_of-eq f p h = elim (Option-cases (validate f)) [
  | inl valid ↦ let k = rw (plan_of, valid) at h in (ground arith, ground arith, valid)
  | inr (e, invalid) ↦ let k = rw (plan_of, invalid) at h in cc
]

decoded_cases :
    {A : Type 0} (d : Decoded A) → ((m : Text) × (d ≡ undecodable m)) ⊎ ((a : A) × (d ≡ decoded a))
decoded_cases (decoded a) = inr (a, refl)
decoded_cases (undecodable m) = inl (m, refl)

-- A receipt means that the server took the plan.
confirm-receipt :
    (transport : Transport) (carry : FaultPlan → Decoded FaultPlan) (now : ℤ) (f : Fault)
    (p : FaultPlan) (s : Server) (receipt : Receipt)
    → carry p ≡ decoded p
    → confirm now f (arm transport carry p s).1 ≡ inr receipt
    → (refused p ≡ false) × ((arm transport carry p s).0 ≡ (handle_fault (decoded p) s).0)
unfolding confirm handle_fault write write_json
confirm-receipt delivered carry now f p s receipt c h = elim (Bool-cases (refused p)) [
  | inl rejected ↦ let k = rw (c, rejected) at h in cc
  | inr accepted ↦ (accepted, rw (c, accepted) refl)
]
confirm-receipt (request_lost e) carry now f p s receipt c h = cc
confirm-receipt (answer_lost e) carry now f p s receipt c h = cc

enable-eq :
    (transport : Transport) (carry : FaultPlan → Decoded FaultPlan) (now : ℤ) (f : Fault)
    (s s' : Server) (receipt : Receipt)
    → ((p : FaultPlan) → carry p ≡ decoded p)
    → enable (arm transport carry) now f s ≡ (s', inr receipt)
    → (p : FaultPlan) × (plan_of f ≡ inr p)
      × (refused p ≡ false)
      × (s' ≡ (handle_fault (decoded p) s).0)
unfolding enable
enable-eq transport carry now f s s' receipt c h = elim (sum_cases (plan_of f)) [
  | inl (e, bad) ↦ let k = rw (enable, bad) at h in cc
  | inr (p, good) ↦
      let k = rw (enable, good) at h in
      let (accepted, kept) =
        confirm-receipt transport carry now f p s receipt (c p) (ap (λ x. x.1) k) in
      (p, good, accepted, sym (ap (λ x. x.0) k) ∙ kept)
]

-- If Enable returns a receipt, the fault is injected into exactly the first requests for its
-- operation, as many as its count says and one if the count is zero, with the effect of the plan
-- that was made of it, and into none after those, however these requests are mixed with requests
-- to other endpoints; the control plane is left alone meanwhile. The plan reaches the server as
-- it was encoded, if it reaches it.
pub enable-taken :
    (transport : Transport) (carry : FaultPlan → Decoded FaultPlan) (now : ℤ) (f : Fault)
    (s s' : Server) (receipt : Receipt) (history : List (Route × Request))
    → ((p : FaultPlan) → carry p ≡ decoded p)
    → enable (arm transport carry) now f s ≡ (s', inr receipt)
    → IsServing history
    → (p : FaultPlan) × (plan_of f ≡ inr p)
      × (taken f.operation history s' ≡ budget (uses f.count) (snapshot p) f.operation history)
enable-taken transport carry now f s s' receipt history c h serving =
    let (p, made, accepted, kept) = enable-eq transport carry now f s s' receipt c h in
    let (named, timed, valid) = plan_of-eq f p made in
    let t : p.times ≡ pos (uses f.count) =
      timed ∙ times-uses f.count (((validate_iff f).0 valid).counted) in
    (p, made, rw (kept, ← named) (handle_fault-taken (uses f.count) p history s accepted t serving))

-- That the server armed the plan of a fault although Enable returns this error.
pub record IsArmedUnseen (transport : Transport) (carry : FaultPlan → Decoded FaultPlan) (f : Fault)
    (s s' : Server) (e : InjectError) : Type 0 where
  pub why : Text
  pub plan : FaultPlan
  pub read : FaultPlan
  pub lost : transport ≡ answer_lost why
  pub error : e ≡ request_failed why
  pub made : plan_of f ≡ inr plan
  pub carried : carry plan ≡ decoded read
  pub accepted : refused read ≡ false
  pub armed : s' ≡ record s { faults = insert read.operation read s.faults }

confirm-refused :
    (transport : Transport) (carry : FaultPlan → Decoded FaultPlan) (now : ℤ) (f : Fault)
    (p : FaultPlan) (s : Server) (e : InjectError)
    → plan_of f ≡ inr p
    → confirm now f (arm transport carry p s).1 ≡ inl e
    → ((arm transport carry p s).0 ≡ s)
      ⊎ IsArmedUnseen transport carry f s (arm transport carry p s).0 e
unfolding confirm handle_fault write write_json
confirm-refused (request_lost why) carry now f p s e made h = inl refl
confirm-refused delivered carry now f p s e made h = elim (decoded_cases (carry p)) [
  | inl (m, garbled) ↦ inl (rw garbled refl)
  | inr (q, read) ↦ elim (Bool-cases (refused q)) [
    | inl rejected ↦ inl (rw (read, rejected) refl)
    | inr accepted ↦ let k = rw (read, accepted) at h in cc
  ]
]
confirm-refused (answer_lost why) carry now f p s e made h = elim (decoded_cases (carry p)) [
  | inl (m, garbled) ↦ inl (rw garbled refl)
  | inr (q, read) ↦ elim (Bool-cases (refused q)) [
    | inl rejected ↦ inl (rw (read, rejected) refl)
    | inr accepted ↦ inr (record {
      why = why;
      plan = p;
      read = q;
      lost = refl;
      error = cc;
      made = made;
      carried = read;
      accepted = accepted;
      armed = rw (read, accepted) refl;
    })
  ]
]

-- If Enable returns an error, then either the server is as it was, or the answer to the arming
-- request was lost: in that case the error is the one of the request, and the server has accepted
-- and armed the plan that was made of the fault, as it decoded it.
pub enable-refused :
    (transport : Transport) (carry : FaultPlan → Decoded FaultPlan) (now : ℤ) (f : Fault)
    (s : Server) (e : InjectError)
    → (enable (arm transport carry) now f s).1 ≡ inl e
    → ((enable (arm transport carry) now f s).0 ≡ s)
      ⊎ IsArmedUnseen transport carry f s (enable (arm transport carry) now f s).0 e
unfolding enable
enable-refused transport carry now f s e h = elim (sum_cases (plan_of f)) [
  | inl (e', bad) ↦ inl (rw (enable, bad))
  | inr (p, good) ↦
      let k = rw (enable, good) at h in
      rw (enable, good) (confirm-refused transport carry now f p s e good k)
]

-- After Disable no fault is armed, whatever was armed before, and it reports no error, when its
-- request gets there and is answered.
pub disable-faults :
    (receipt : Receipt) (s : Server)
    → disable (clear delivered) receipt s ≡ (record s { faults = [] }, none)
unfolding disable handle_clear_faults write
disable-faults receipt s = refl
