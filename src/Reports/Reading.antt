-- ===== src/Reports/Reading.antt =====
-- What the first loop of Parse in reports/report.go makes of a stream of events.
use aero_arc_testing_harness.Prelude.{
  ◌≡◌, refl, ◌∙◌, ap, arith, Bool, true, ◌&&◌, ◌||◌, not, List, [], ◌∷◌, map, Option, none, some,
  inl, inr, Text, text_eq, text_eq_iff, if◌then◌else◌, Dict, lookup, lookup-insert, ok, All,
  All-insert, lookup-All, Distinct, insert-Distinct, Bool-cases, Option-cases,
}
use aero_arc_testing_harness.Fixture.Types.{Decoded, decoded, undecodable}
use aero_arc_testing_harness.Reports.Types.{TestResult, GoTestEvent}
use aero_arc_testing_harness.Reports.Parse.{
  Parsing, running, result_key, is_terminal, updated, or_fresh, take_event, read_events,
}

-- The loop over lines that all decode.
abbrev pub read_all : List GoTestEvent → Parsing → Parsing
read_all [] p = p
read_all (e ∷ rest) p = read_all rest (take_event e p)

pub read_events-decoded :
    (es : List GoTestEvent) (p : Parsing)
    → read_events (map (λ e. decoded e) es) p ≡ ok (read_all es p)
unfolding read_events
read_events-decoded [] p = refl
read_events-decoded (e ∷ rest) p = read_events-decoded rest (take_event e p)

pub read_events-ok :
    (lines : List (Decoded GoTestEvent)) (p q : Parsing)
    → read_events lines p ≡ ok q
    → (es : List GoTestEvent) × (lines ≡ map (λ e. decoded e) es) × (q ≡ read_all es p)
unfolding read_events
read_events-ok [] p q h = ([], refl, ground arith)
read_events-ok (undecodable m ∷ rest) p q h = cc
read_events-ok (decoded e ∷ rest) p q h =
    let (es, split, r) = read_events-ok rest (take_event e p) q h in
    (e ∷ es, ap (◌∷◌ (decoded e)) split, r)

-- Whether an event is about the test of a key.
abbrev pub concerns : Text → GoTestEvent → Bool
concerns key e = not (text_eq e.test []) && text_eq (result_key e.pkg e.test) key

-- What a stream says of the test of a key, read for that test alone.
pub replay : Text → List GoTestEvent → Option TestResult → Option TestResult
replay key [] r = r
replay key (e ∷ rest) r =
    replay key rest (if concerns key e then some (updated e (or_fresh e r)) else r)

abbrev pub history : Text → List GoTestEvent → Option TestResult
history key es = replay key es none

lookup-take_event :
    (key : Text) (e : GoTestEvent) (p : Parsing)
    → lookup key (take_event e p).results ≡ (
        if concerns key e
        then some (updated e (or_fresh e (lookup key p.results)))
        else lookup key p.results)
unfolding take_event
lookup-take_event key e p = elim (Bool-cases (text_eq e.test [])) [
  | inl whole ↦ rw whole refl
  | inr named ↦
      rw (named, lookup-insert (result_key e.pkg e.test) key _ p.results)
        (ground (arith, text_eq_iff (result_key e.pkg e.test) key))
]

pub lookup-read_all :
    (key : Text) (es : List GoTestEvent) (p : Parsing)
    → lookup key (read_all es p).results ≡ replay key es (lookup key p.results)
unfolding replay
lookup-read_all key [] p = refl
lookup-read_all key (e ∷ rest) p =
    lookup-read_all key rest (take_event e p) ∙ ap (replay key rest) (lookup-take_event key e p)

-- A result is stored under the key of its test, and running or ended.
pub record IsResult (entry : Text × TestResult) : Type 0 where
  pub keyed : entry.0 ≡ result_key entry.1.pkg entry.1.name
  pub valid : (text_eq entry.1.status running || is_terminal entry.1.status) ≡ true

updated-parts :
    (e : GoTestEvent) (r : TestResult)
    → ((updated e r).pkg ≡ r.pkg)
      × ((updated e r).name ≡ r.name)
      × ((updated e r).status ≡ (if is_terminal e.action then e.action else r.status))
unfolding updated
updated-parts e r = ground arith

updated-IsResult :
    (key : Text) (e : GoTestEvent) (r : TestResult)
    → IsResult (key, r)
    → IsResult (key, updated e r)
updated-IsResult key e r h =
    let (p, n, t) = updated-parts e r in
    record {
      keyed = rw (p, n) h.keyed;
      valid = rw t (elim (Bool-cases (is_terminal e.action)) [
        | inl ends ↦ rw (ends, ends) (ground arith)
        | inr goes ↦ rw goes h.valid
      ]);
    }

-- The result that an event about a test goes on from.
or_fresh-IsResult :
    (e : GoTestEvent) (results : Dict TestResult)
    → All IsResult results
    → let key = result_key e.pkg e.test in IsResult (key, or_fresh e (lookup key results))
unfolding text_eq
or_fresh-IsResult e results h = elim (Option-cases (lookup (result_key e.pkg e.test) results)) [
  | inl new ↦ rw new (record { keyed = refl; valid = refl })
  | inr (r, old) ↦ rw old (lookup-All IsResult (result_key e.pkg e.test) results h old)
]

pub read_all-IsResult :
    (es : List GoTestEvent) (p : Parsing)
    → All IsResult p.results
    → Distinct p.results
    → All IsResult (read_all es p).results × Distinct (read_all es p).results
unfolding take_event
read_all-IsResult [] p h d = (h, d)
read_all-IsResult (e ∷ rest) p h d =
    let key = result_key e.pkg e.test in
    let r = updated e (or_fresh e (lookup key p.results)) in
    elim (Bool-cases (text_eq e.test [])) [
      | inl whole ↦ read_all-IsResult rest (take_event e p) (rw whole h) (rw whole d)
      | inr named ↦
          read_all-IsResult rest (take_event e p)
            (rw named (
              All-insert IsResult key r p.results
                (updated-IsResult key e _ (or_fresh-IsResult e p.results h)) h))
            (rw named (insert-Distinct key r p.results d))
    ]
