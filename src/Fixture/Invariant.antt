-- ===== src/Fixture/Invariant.antt =====
-- What holds of the fixture server of internal/fixture/server.go after any history of requests.
use aero_arc_testing_harness.Prelude.{
  ℕ, suc, ◌+◌, ◌%◌, ℤ, pos, IsInt, ◌≡◌, refl, false, List, [], ◌∷◌, ◌++◌, Option, some, inl, inr,
  Text, arith, length, length-append, All, Dict, lookup, insert, erase, All-insert, All-erase,
  lookup-All, Distinct, insert-Distinct, erase-Distinct, two_64, increment-IsInt, leb_ℤ, eq_ℤ, ◌-ℤ◌,
  Option-cases, Bool-cases,
}
use aero_arc_testing_harness.Fixture.Types.{
  FaultPlan, FaultSnapshot, Event, Reference, Server, Decoded, decoded, undecodable, Request,
}
use aero_arc_testing_harness.Fixture.Wire.{record_event}
use aero_arc_testing_harness.Fixture.Faults.{refused, handle_fault, spend, take_fault}
use aero_arc_testing_harness.Fixture.References.{ovn_of, bump, handle_rotate_ovn}

-- The entries of a journal are numbered from the count of those before them.
abbrev pub Numbered : ℕ → List Event → Type 0
Numbered n [] = Unit
Numbered n (e ∷ es) = (e.sequence ≡ (n + 1) % two_64) × Numbered (suc n) es

-- An entry of the map of references: its id is its key, and its OVN is that of its version.
pub record IsStored (entry : Text × Reference) : Type 0 where
  pub keyed : entry.1.id ≡ entry.0
  pub stamped : entry.1.ovn ≡ ovn_of entry.0 entry.1.version
  pub in_range : IsInt entry.1.version

-- An entry of the map of fault plans.
pub record IsArmed (entry : Text × FaultPlan) : Type 0 where
  pub keyed : entry.1.operation ≡ entry.0
  pub admissible : refused entry.1 ≡ false

pub record IsWellFormed (s : Server) : Type 0 where
  pub stored : All IsStored s.references
  pub distinct : Distinct s.references
  pub armed : All IsArmed s.faults
  pub numbered : Numbered 0 s.events
  pub counted : s.sequence ≡ length s.events % two_64

Numbered-snoc :
    (n : ℕ) (es : List Event) (e : Event)
    → Numbered n es
    → e.sequence ≡ (n + length es + 1) % two_64
    → Numbered n (es ++ e ∷ [])
Numbered-snoc n [] e h p = (omega arith, tt)
Numbered-snoc n (x ∷ es) e h p = (h.0, Numbered-snoc (suc n) es e h.1 (omega arith))

spent-admissible :
    (p : FaultPlan)
    → refused p ≡ false
    → eq_ℤ (p.times -ℤ pos 1) (pos 0) ≡ false
    → refused (record p { times = p.times -ℤ pos 1 }) ≡ false
unfolding refused ◌-ℤ◌
spent-admissible p h more = ground arith

module _ {s : Server} (w : IsWellFormed s) where
  pub record_event-IsWellFormed :
      (r : Request) (operation intent_id : Text) (status : ℤ) (fault : Option FaultSnapshot)
      → IsWellFormed (record_event r operation intent_id status fault s)
  unfolding record_event
  record_event-IsWellFormed r operation intent_id status fault = record {
    stored = w.stored;
    distinct = w.distinct;
    armed = w.armed;
    numbered = Numbered-snoc 0 s.events _ w.numbered (omega (arith, w.counted));
    counted = omega (arith, w.counted, length-append s.events);
  }

  set_references-IsWellFormed :
      (refs : Dict Reference)
      → All IsStored refs
      → Distinct refs
      → IsWellFormed (record s { references = refs })
  set_references-IsWellFormed refs h d = record {
    stored = h;
    distinct = d;
    armed = w.armed;
    numbered = w.numbered;
    counted = w.counted;
  }

  pub set_faults-IsWellFormed :
      (faults : Dict FaultPlan) → All IsArmed faults → IsWellFormed (record s { faults = faults })
  set_faults-IsWellFormed faults h = record {
    stored = w.stored;
    distinct = w.distinct;
    armed = h;
    numbered = w.numbered;
    counted = w.counted;
  }

  pub store-IsWellFormed :
      (id : Text) (v : Reference)
      → IsStored (id, v)
      → IsWellFormed (record s { references = insert id v s.references })
  store-IsWellFormed id v h =
      set_references-IsWellFormed _ (All-insert IsStored id v s.references h w.stored)
        (insert-Distinct id v s.references w.distinct)

  pub remove-IsWellFormed :
      (id : Text) → IsWellFormed (record s { references = erase id s.references })
  remove-IsWellFormed id =
      set_references-IsWellFormed _ (All-erase IsStored id s.references w.stored)
        (erase-Distinct id s.references w.distinct)

  spend-IsWellFormed :
      (operation : Text) (p : FaultPlan)
      → lookup operation s.faults ≡ some p
      → IsWellFormed (spend operation p s).0
  unfolding spend
  spend-IsWellFormed operation p e =
      let armed = lookup-All IsArmed operation s.faults w.armed e in
      elim (Bool-cases (leb_ℤ p.times (pos 0))) [
        | inl none_left ↦ rw none_left w
        | inr some_left ↦ rw some_left (elim (Bool-cases (eq_ℤ (p.times -ℤ pos 1) (pos 0))) [
          | inl last ↦
              rw last (set_faults-IsWellFormed _ (All-erase IsArmed operation s.faults w.armed))
          | inr more ↦ rw more (
              set_faults-IsWellFormed _ (
                All-insert IsArmed operation _ s.faults
                  (record {
                    keyed = armed.keyed;
                    admissible = spent-admissible p armed.admissible more;
                  })
                  w.armed))
        ])
      ]

  pub take_fault-IsWellFormed : (operation : Text) → IsWellFormed (take_fault operation s).0
  unfolding take_fault
  take_fault-IsWellFormed operation = elim (Option-cases (lookup operation s.faults)) [
    | inl e ↦ rw (e, take_fault) w
    | inr (p, e) ↦ rw (e, take_fault) (spend-IsWellFormed operation p e)
  ]

  bump-IsStored :
      (id : Text) (v : Reference) → lookup id s.references ≡ some v → IsStored (id, bump id v)
  unfolding bump
  bump-IsStored id v e = record {
    keyed = (lookup-All IsStored id s.references w.stored e).keyed;
    stamped = refl;
    in_range = increment-IsInt v.version;
  }

  pub handle_rotate_ovn-IsWellFormed : (r : Request) → IsWellFormed (handle_rotate_ovn r s).0
  unfolding handle_rotate_ovn
  handle_rotate_ovn-IsWellFormed r = elim (Option-cases (lookup r.intent_id s.references)) [
    | inl e ↦ rw (e, handle_rotate_ovn) w
    | inr (v, e) ↦
        rw (e, handle_rotate_ovn) (store-IsWellFormed r.intent_id _ (bump-IsStored r.intent_id v e))
  ]

  pub handle_fault-IsWellFormed : (p : Decoded FaultPlan) → IsWellFormed (handle_fault p s).0
  unfolding handle_fault
  handle_fault-IsWellFormed (undecodable err) = w
  handle_fault-IsWellFormed (decoded p) = elim (Bool-cases (refused p)) [
    | inl e ↦ rw (e, handle_fault) w
    | inr e ↦
        rw (e, handle_fault)
          (set_faults-IsWellFormed _ (
            All-insert IsArmed p.operation p s.faults (record { keyed = refl; admissible = e })
              w.armed))
  ]
