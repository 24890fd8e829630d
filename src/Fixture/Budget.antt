-- ===== src/Fixture/Budget.antt =====
-- How often a fault plan of internal/fixture/server.go is used.
use aero_arc_testing_harness.Prelude.{
  ℕ, zero, suc, pos, ◌≡◌, ◌≢◌, refl, ap, ◌∙◌, Bool, true, false, List, [], ◌∷◌, Option, none, some,
  inl, inr, Text, text_eq, text_eq_iff, text_eq-ne, arith, lookup, insert, erase, lookup-insert,
  lookup-erase, if◌then◌else◌, Bool-cases, Option-cases, ◌-ℤ◌, text_eq_refl,
}
use aero_arc_testing_harness.Fixture.Types.{FaultPlan, FaultSnapshot, Server, Request, decoded}
use aero_arc_testing_harness.Fixture.Router.{Route, handle}
use aero_arc_testing_harness.Fixture.Endpoints.{operation_of}
use aero_arc_testing_harness.Fixture.Frame.{handle-faults, take_fault-none}
use aero_arc_testing_harness.Fixture.Faults.{handle_fault, refused, snapshot, spend, take_fault}

take_fault-armed :
    (n : ℕ) (operation : Text) (p : FaultPlan) (s : Server)
    → lookup operation s.faults ≡ some p
    → p.times ≡ pos (suc (suc n))
    → (take_fault operation s ≡ (
      record s { faults = insert operation (record p { times = pos (suc n) }) s.faults },
      some (snapshot p),
    ))
unfolding take_fault spend ◌-ℤ◌
take_fault-armed n operation p s e h = rw (e, take_fault, h) (ground arith)

take_fault-last :
    (operation : Text) (p : FaultPlan) (s : Server)
    → lookup operation s.faults ≡ some p
    → p.times ≡ pos 1
    → (take_fault operation s ≡ (record s { faults = erase operation s.faults }, some (snapshot p)))
unfolding take_fault spend ◌-ℤ◌
take_fault-last operation p s e h = rw (e, take_fault, h) (ground arith)

-- A history of requests to the endpoints: the control plane is left alone meanwhile.
abbrev pub IsServing : List (Route × Request) → Type 0
IsServing [] = Unit
IsServing ((route, r) ∷ rest) = ((o : Text) × (operation_of route ≡ some o)) × IsServing rest

concerns : Text → Route → Bool
unfolding text_eq
concerns operation route = elim (operation_of route) [ none ↦ false | some o ↦ text_eq o operation ]

-- The faults that the requests for one operation take in a history.
pub taken : Text → List (Route × Request) → Server → List (Option FaultSnapshot)
taken operation [] s = []
taken operation ((route, r) ∷ rest) s =
    let later = taken operation rest (handle route r s).0 in
    if concerns operation route then (take_fault operation s).1 ∷ later else later

-- What they should be: so many times the fault, and then none.
abbrev pub due : ℕ → FaultSnapshot → Option FaultSnapshot
due zero f = none
due (suc n) f = some f

abbrev pub one_less : ℕ → ℕ
one_less zero = zero
one_less (suc n) = n

pub budget : ℕ → FaultSnapshot → Text → List (Route × Request) → List (Option FaultSnapshot)
budget n f operation [] = []
budget n f operation ((route, r) ∷ rest) =
    let spent = budget (one_less n) f operation rest in
    let kept = budget n f operation rest in
    if concerns operation route then due n f ∷ spent else kept

-- Taking the fault of one operation leaves the plans of the others.
lookup-take_fault :
    (o operation : Text) (s : Server)
    → o ≢ operation
    → lookup operation (take_fault o s).0.faults ≡ lookup operation s.faults
unfolding take_fault spend
lookup-take_fault o operation s other = elim (Option-cases (lookup o s.faults)) [
  | inl e ↦ rw (e, take_fault)
  | inr (p, e) ↦
      rw (e, take_fault)
        (ground (
          arith,
          text_eq-ne o operation other,
          lookup-erase o operation s.faults,
          lookup-insert o operation (record p { times = p.times -ℤ pos 1 }) s.faults,
        ))
]

concerns-eq :
    {o : Text} (operation : Text) (route : Route)
    → operation_of route ≡ some o
    → concerns operation route ≡ text_eq o operation
unfolding concerns
concerns-eq operation route e = rw (e, concerns)

-- What a request leaves of the plans for the operation that it takes its fault from.
lookup-handle :
    {o : Text} (operation : Text) (route : Route) (r : Request) (s : Server)
    → operation_of route ≡ some o
    → lookup operation (handle route r s).0.faults ≡ lookup operation (take_fault o s).0.faults
lookup-handle operation route r s e = ap (lookup operation) (handle-faults route r s e)

-- The name that a route takes its fault under, once it is known to be the one looked for.
named_as :
    {o : Text} (operation : Text) (route : Route)
    → operation_of route ≡ some o
    → text_eq o operation ≡ true
    → operation_of route ≡ some operation
named_as {o} operation route named same = named ∙ ap some ((text_eq_iff o operation).0 same)

-- A plan with so many uses left.
abbrev pub left : ℕ → FaultPlan → Option FaultPlan
left zero p = none
left (suc n) p = some (record p { times = pos (suc n) })

pub lookup-take_fault_self :
    (n : ℕ) (operation : Text) (p : FaultPlan) (s : Server)
    → lookup operation s.faults ≡ left n p
    → (lookup operation (take_fault operation s).0.faults ≡ left (one_less n) p)
      × ((take_fault operation s).1 ≡ due n (snapshot p))
lookup-take_fault_self zero operation p s e = rw (take_fault-none operation s e) (e, refl)
lookup-take_fault_self (suc zero) operation p s e =
    rw (take_fault-last operation _ s e refl) (simp (lookup-erase, text_eq_refl), refl)
lookup-take_fault_self (suc (suc n)) operation p s e =
    rw (take_fault-armed n operation _ s e refl) (simp (lookup-insert, text_eq_refl), refl)

taken-budget :
    (n : ℕ) (operation : Text) (p : FaultPlan) (history : List (Route × Request)) (s : Server)
    → IsServing history
    → lookup operation s.faults ≡ left n p
    → taken operation history s ≡ budget n (snapshot p) operation history
unfolding taken budget
taken-budget n operation p [] s serving e = refl
taken-budget n operation p ((route, r) ∷ rest) s ((o, named), serving) e =
    elim (Bool-cases (text_eq o operation)) [
      | inl same ↦
          let named' = named_as operation route named same in
          let (kept, fault) = lookup-take_fault_self n operation p s e in
          rw (concerns-eq operation route named, same, fault)
            (ap (◌∷◌ (due n (snapshot p))) (
              taken-budget (one_less n) operation p rest _ serving
                (lookup-handle operation route r s named' ∙ kept)))
      | inr other ↦
          rw (concerns-eq operation route named, other)
            (taken-budget n operation p rest _ serving (
              lookup-handle operation route r s named
              ∙ lookup-take_fault o operation s (ground (arith, text_eq_iff o operation))
              ∙ e))
    ]

pub armed-left :
    (n : ℕ) (p : FaultPlan) (s : Server)
    → refused p ≡ false
    → p.times ≡ pos n
    → lookup p.operation (insert p.operation p s.faults) ≡ left n p
unfolding refused
armed-left zero p s accepted h = ground arith
armed-left (suc n) p s accepted h =
    rw (lookup-insert p.operation p.operation p s.faults, text_eq_refl p.operation) (ground arith)

-- A plan that handleFault accepts with a count of n is taken by exactly the first n requests for
-- its operation, with the fault that it describes, and by none after those, however these
-- requests are mixed with requests to other endpoints; the control plane is left alone meanwhile.
pub handle_fault-taken :
    (n : ℕ) (p : FaultPlan) (history : List (Route × Request)) (s : Server)
    → refused p ≡ false
    → p.times ≡ pos n
    → IsServing history
    → taken p.operation history (handle_fault (decoded p) s).0
      ≡ budget n (snapshot p) p.operation history
unfolding handle_fault
handle_fault-taken n p history s accepted h serving =
    rw accepted (taken-budget n p.operation p history _ serving (armed-left n p s accepted h))
