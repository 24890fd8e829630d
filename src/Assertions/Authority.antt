-- ===== src/Assertions/Authority.antt =====
-- The observer of assertions/invariants.go over the state endpoint of internal/fixture/server.go.
use aero_arc_testing_harness.Prelude.{
  pos, ◌≡◌, ◌≢◌, refl, sym, ap, ◌∙◌, List, [], ◌∷◌, map, Option, none, some, inl, inr, Text,
  text_eq, text_eq_iff, lookup, lookup-All, values, subst, ok, arith, Bool-cases, Option-cases,
}
use mathlib.Core.List.{Mem, Mem-prop, mem-cons, not-mem-nil, Perm}
use mathlib.Core.Logic.Or
use mathlib.Core.List.Perm
use aero_arc_testing_harness.Fixture.Types.{Reference, Server, Request, sent, references}
use aero_arc_testing_harness.Fixture.Wire.{write, write_json}
use aero_arc_testing_harness.Fixture.References.{handle_state}
use aero_arc_testing_harness.Fixture.Router.{Route, handle}
use aero_arc_testing_harness.Fixture.Invariant.{IsWellFormed, IsStored}
use aero_arc_testing_harness.Fixture.Contents.{mem-values}
use aero_arc_testing_harness.Assertions.Types.{DssReference}
use aero_arc_testing_harness.Assertions.Probe.{
  ListedReference, no_reference, reference_of, find_reference, observe_dss_reference, reference,
}

-- A reference as it is listed: the JSON names of both types agree.
abbrev pub listed : Reference → ListedReference
listed v = record {
  id = v.id;
  version = v.version;
  state = v.state;
  ovn = v.ovn;
  manager = v.manager;
  uss_base_url = v.uss_base_url;
}

-- What there is to observe of an entry.
abbrev pub observable : Option Reference → DssReference
observable none = no_reference
observable (some v) = reference_of (listed v)

find_reference-listed :
    (id : Text) (v : Reference) (l : List Reference)
    → Mem v l
    → ((y : Reference) → Mem y l → y.id ≡ id → y ≡ v)
    → v.id ≡ id
    → find_reference id (map listed l) ≡ reference_of (listed v)
unfolding find_reference
find_reference-listed id v [] m only e = absurd (not-mem-nil m)
find_reference-listed id v (x ∷ rest) m only e = elim (Bool-cases (text_eq x.id id)) [
  | inl same ↦ rw same (
      ap (λ y. reference_of (listed y))
        (only x (mem-cons.1 (Or.inl refl)) ((text_eq_iff x.id id).0 same)))
  | inr differ ↦ rw differ (
      find_reference-listed id v rest
        (Or.elim Mem-prop (mem-cons.0 m)
          (λ (first : v ≡ x).
            let i : x.id ≡ id = ap (λ (y : Reference). y.id) (sym first) ∙ e in
            let t = (text_eq_iff x.id id).1 i in cc)
          (λ n. n))
        (λ y n. only y (mem-cons.1 (Or.inr n))) e)
]

find_reference-absent :
    (id : Text) (l : List Reference)
    → ((y : Reference) → Mem y l → y.id ≢ id)
    → find_reference id (map listed l) ≡ no_reference
unfolding find_reference
find_reference-absent id [] none_has = refl
find_reference-absent id (x ∷ rest) none_has = elim (Bool-cases (text_eq x.id id)) [
  | inl same ↦ absurd (none_has x (mem-cons.1 (Or.inl refl)) ((text_eq_iff x.id id).0 same))
  | inr differ ↦
      rw differ (find_reference-absent id rest (λ y n. none_has y (mem-cons.1 (Or.inr n))))
]

-- On a well-formed fixture server the observer sees exactly the reference stored under the intent's
-- id, with its version, state, OVN, manager and URL, or that there is none; the order in which the
-- server ranges over its map does not matter, and the request changes nothing.
pub observe-state :
    (id : Text) (r : Request) (s : Server)
    → IsWellFormed s
    → ((l : List Reference) → Perm (r.range l) l)
    → (l : List Reference) × (handle Route.state r s ≡ (s, sent (pos 200) (references l)))
      × (observe_dss_reference id (ok (pos 200, ok (map listed l)))
          ≡ reference (observable (lookup id s.references)))
unfolding handle handle_state write write_json observe_dss_reference
observe-state id r s w ranges =
    let has = λ (v : Reference). mem-values s.references v w.stored w.distinct in
    let all_of = λ (v : Reference). Perm.mem_iff {a = v} (ranges (values s.references)) in
    (
      r.range (values s.references),
      refl,
      ap reference (elim (Option-cases (lookup id s.references)) [
        | inl absent ↦ rw absent (
            find_reference-absent id (r.range (values s.references)) λ y m e.
              let found : lookup id s.references ≡ some y =
                subst (λ k. lookup k s.references ≡ some y) e ((has y).0 ((all_of y).0 m)) in
              cc)
        | inr (v, present) ↦
            let named : v.id ≡ id = (lookup-All IsStored id s.references w.stored present).keyed in
            rw present (
              find_reference-listed id v (r.range (values s.references))
                ((all_of v).1
                  ((has v).1 (subst (λ k. lookup k s.references ≡ some v) (sym named) present)))
                (λ y m e.
                  let found : lookup id s.references ≡ some y =
                    subst (λ k. lookup k s.references ≡ some y) e ((has y).0 ((all_of y).0 m)) in
                  let same : v ≡ y = ground arith in sym same)
                named)
      ]),
    )
