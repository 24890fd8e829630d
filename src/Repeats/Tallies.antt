-- ===== src/Repeats/Tallies.antt =====
-- What cmd/e2e-repeat-report/main.go counts for each scenario.
use aero_arc_testing_harness.Prelude.{
  ℕ, ℤ, ◌+◌, ◌<◌, ◌≡◌, refl, sym, ◌∙◌, ap, arith, Bool, true, false, ◌&&◌, List, [], ◌∷◌, ◌++◌,
  Option, none, some, inl, inr, Text, text, text_eq, text_eq_iff, if◌then◌else◌, Dict, lookup,
  insert, lookup-insert, Distinct, insert-Distinct, Bool-cases, length, count, sum_of,
}
use mathlib.Core.List.{append-nil, append_assoc}
use aero_arc_testing_harness.Repeats.Types.{TestResult, ScenarioAggregate}
use aero_arc_testing_harness.Repeats.Aggregate.{new_scenario, or_new, executed, take_tests}

abbrev pub is_named : Text → TestResult → Bool
is_named k t = text_eq t.name k

abbrev pub has_ended : Text → Text → TestResult → Bool
has_ended k status t = text_eq t.name k && text_eq t.status status

abbrev pub elapsed_of : Text → List TestResult → List ℤ
elapsed_of k [] = []
elapsed_of k (t ∷ ts) = if text_eq t.name k then t.elapsed ∷ elapsed_of k ts else elapsed_of k ts

-- The tests of one name, counted alone.
abbrev pub tally : Text → List TestResult → ScenarioAggregate → ScenarioAggregate
tally k [] a = a
tally k (t ∷ ts) a = tally k ts (if text_eq t.name k then executed t a else a)

replay : Text → List TestResult → Option ScenarioAggregate → Option ScenarioAggregate
replay k [] r = r
replay k (t ∷ ts) r = replay k ts (if text_eq t.name k then some (executed t (or_new k r)) else r)

lookup-take_tests :
    (k : Text) (ts : List TestResult) (m : Dict ScenarioAggregate)
    → lookup k (take_tests ts m) ≡ replay k ts (lookup k m)
unfolding take_tests replay
lookup-take_tests k [] m = refl
lookup-take_tests k (t ∷ ts) m =
    lookup-take_tests k ts (insert t.name (executed t (or_new t.name (lookup t.name m))) m)
    ∙ ap (replay k ts) (
        lookup-insert t.name k (executed t (or_new t.name (lookup t.name m))) m
        ∙ ground (arith, text_eq_iff t.name k))

replay-some :
    (k : Text) (ts : List TestResult) (a : ScenarioAggregate)
    → replay k ts (some a) ≡ some (tally k ts a)
unfolding replay
replay-some k [] a = refl
replay-some k (t ∷ ts) a = elim (Bool-cases (text_eq t.name k)) [
  | inl this ↦ rw this (replay-some k ts (executed t a))
  | inr other ↦ rw other (replay-some k ts a)
]

replay-none :
    (k : Text) (ts : List TestResult) (a : ScenarioAggregate)
    → replay k ts none ≡ some a
    → (a ≡ tally k ts (new_scenario k)) × (0 < count (is_named k) ts)
unfolding replay
replay-none k [] a h = cc
replay-none k (t ∷ ts) a h = elim (Bool-cases (text_eq t.name k)) [
  | inl this ↦
      let e = replay-some k ts (executed t (new_scenario k)) in
      let j = rw (replay, this) at h in (rw this (ground (arith, j, e)), rw this (omega arith))
  | inr other ↦
      let (e, some_named) = replay-none k ts a (rw (replay, other) at h) in
      (rw other e, rw other (omega (arith, some_named)))
]

-- What a scenario counts more after some tests.
pub record Counts (k : Text) (ts : List TestResult) (a b : ScenarioAggregate) : Type 0 where
  pub name : b.name ≡ a.name
  pub executions : b.executions ≡ a.executions + count (is_named k) ts
  pub passed : b.passed ≡ a.passed + count (has_ended k (text "pass")) ts
  pub failed : b.failed ≡ a.failed + count (has_ended k (text "fail")) ts
  pub durations : b.durations ≡ a.durations ++ elapsed_of k ts

executed-parts :
    (t : TestResult) (a : ScenarioAggregate)
    → ((executed t a).name ≡ a.name)
      × ((executed t a).executions ≡ a.executions + 1)
      × ((executed t a).passed ≡ a.passed + (if text_eq t.status (text "pass") then 1 else 0))
      × ((executed t a).failed ≡ a.failed + (if text_eq t.status (text "fail") then 1 else 0))
      × ((executed t a).durations ≡ a.durations ++ t.elapsed ∷ [])
unfolding executed
executed-parts t a =
    ground (arith, text_eq_iff t.status (text "pass"), text_eq_iff t.status (text "fail"))

Counts-this :
    (k : Text) (t : TestResult) (ts : List TestResult) (a b : ScenarioAggregate)
    → text_eq t.name k ≡ true
    → Counts k ts (executed t a) b
    → Counts k (t ∷ ts) a b
Counts-this k t ts a b this h =
    let (n, e, p, f, d) = executed-parts t a in
    record {
      name = h.name ∙ n;
      executions = rw this (omega (arith, h.executions, e));
      passed = rw this (omega (arith, h.passed, p));
      failed = rw this (omega (arith, h.failed, f));
      durations = rw this (
          h.durations
          ∙ ap (λ l. l ++ elapsed_of k ts) d
          ∙ append_assoc a.durations (t.elapsed ∷ []) (elapsed_of k ts));
    }

Counts-other :
    (k : Text) (t : TestResult) (ts : List TestResult) (a b : ScenarioAggregate)
    → text_eq t.name k ≡ false
    → Counts k ts a b
    → Counts k (t ∷ ts) a b
Counts-other k t ts a b other h = record {
  name = h.name;
  executions = rw other (omega (arith, h.executions));
  passed = rw other (omega (arith, h.passed));
  failed = rw other (omega (arith, h.failed));
  durations = rw other h.durations;
}

pub tally-Counts :
    (k : Text) (ts : List TestResult) (a : ScenarioAggregate) → Counts k ts a (tally k ts a)
tally-Counts k [] a = record {
  name = refl;
  executions = omega arith;
  passed = omega arith;
  failed = omega arith;
  durations = sym (append-nil a.durations);
}
tally-Counts k (t ∷ ts) a = elim (Bool-cases (text_eq t.name k)) [
  | inl this ↦ rw this (Counts-this k t ts a _ this (tally-Counts k ts (executed t a)))
  | inr other ↦ rw other (Counts-other k t ts a _ other (tally-Counts k ts a))
]

pub take_tests-Distinct :
    (ts : List TestResult) (m : Dict ScenarioAggregate) → Distinct m → Distinct (take_tests ts m)
unfolding take_tests
take_tests-Distinct [] m d = d
take_tests-Distinct (t ∷ ts) m d =
    take_tests-Distinct ts _
      (insert-Distinct t.name (executed t (or_new t.name (lookup t.name m))) m d)

abbrev pub entry_executions : Text × ScenarioAggregate → ℕ
entry_executions e = e.1.executions

insert-total :
    (k : Text) (v : ScenarioAggregate) (m : Dict ScenarioAggregate)
    → v.executions ≡ (or_new k (lookup k m)).executions + 1
    → sum_of entry_executions (insert k v m) ≡ sum_of entry_executions m + 1
unfolding lookup insert
insert-total k v [] h = omega (arith, h)
insert-total k v ((j, a) ∷ m) h = elim (Bool-cases (text_eq j k)) [
  | inl here ↦ let e = rw here at h in rw here (omega (arith, e))
  | inr there ↦ let e = rw there at h in rw there (omega (arith, insert-total k v m e))
]

executed-total :
    (t : TestResult) (m : Dict ScenarioAggregate)
    → sum_of entry_executions (insert t.name (executed t (or_new t.name (lookup t.name m))) m)
      ≡ sum_of entry_executions m + 1
executed-total t m = insert-total t.name _ m (executed-parts t (or_new t.name (lookup t.name m))).1

pub take_tests-total :
    (ts : List TestResult) (m : Dict ScenarioAggregate)
    → sum_of entry_executions (take_tests ts m) ≡ sum_of entry_executions m + length ts
unfolding take_tests
take_tests-total [] m = omega arith
take_tests-total (t ∷ ts) m = omega (
  arith,
  take_tests-total ts (insert t.name (executed t (or_new t.name (lookup t.name m))) m),
  executed-total t m,
)

-- An entry of the map that the tests are collected in counts the tests of its name.
pub lookup-Counts :
    (k : Text) (ts : List TestResult) (a : ScenarioAggregate)
    → lookup k (take_tests ts []) ≡ some a
    → Counts k ts (new_scenario k) a × (0 < count (is_named k) ts)
unfolding lookup
lookup-Counts k ts a h =
    let (e, some_named) = replay-none k ts a (sym (lookup-take_tests k ts []) ∙ h) in
    (rw e (tally-Counts k ts (new_scenario k)), some_named)
