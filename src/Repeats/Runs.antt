-- ===== src/Repeats/Runs.antt =====
-- What aggregate of cmd/e2e-repeat-report/main.go reports of the runs in a directory.
use mathlib.Core.List.Perm
use mathlib.Core.List.{append-nil, append_assoc, Perm, Pairwise}
use aero_arc_testing_harness.Prelude.{
  ℤ, pos, ◌+◌, ◌<◌, ◌≡◌, ◌≢◌, refl, sym, subst, ◌∙◌, ap, arith, Bool, true, false, not, List, [],
  ◌∷◌, ◌++◌, none, some, inl, inr, Text, text_less, text_order, if◌then◌else◌, eq_ℤ, Dict, lookup,
  lookup-own, All, All-map, All-sort, All-perm, All-mem, length, length-append, count, sum_of,
  sum_of-perm, sort, sort-perm, sort-IsAscending, IsAscending, Pairwise-Distinct, ok, Bool-cases,
  Option-cases, ◌==◌,
}
use aero_arc_testing_harness.Fixture.Types.{decoded, undecodable}
use aero_arc_testing_harness.Repeats.Types.{
  TestResult, RunSummary, ScenarioAggregate, RepeatSummary, Entry, returned,
}
use aero_arc_testing_harness.Repeats.Aggregate.{
  Aggregation, take_tests, take_run, take_entries, take_scenarios, scenario_name, begin_aggregation,
  conclude_runs, aggregate,
}
use aero_arc_testing_harness.Repeats.Tallies.{
  entry_executions, take_tests-Distinct, take_tests-total, lookup-Counts,
}
use aero_arc_testing_harness.Repeats.Scenarios.{
  IsTally, IsCounted, take_scenarios-Matches, Matches-total, Matches-IsTally, Matches-Differ,
}

-- The runs of a directory: its directories that have a summary.
abbrev pub runs_of : List Entry → List RunSummary
runs_of [] = []
runs_of (e ∷ rest) = elim e.is_dir [
  | false ↦ runs_of rest
  | true ↦ elim e.payload [
    | none ↦ runs_of rest
    | some (undecodable m) ↦ runs_of rest
    | some (decoded run) ↦ run ∷ runs_of rest
  ]
]

abbrev pub tests_of : List RunSummary → List TestResult
tests_of [] = []
tests_of (run ∷ runs) = run.tests ++ tests_of runs

abbrev pub has_passed : RunSummary → Bool
has_passed run = eq_ℤ run.failed (pos 0)

abbrev pub failed_ids : List RunSummary → List Text
failed_ids [] = []
failed_ids (run ∷ runs) = if has_passed run then failed_ids runs else run.run_id ∷ failed_ids runs

take_runs : List RunSummary → Aggregation → Aggregation
take_runs [] s = s
take_runs (run ∷ runs) s = take_runs runs (take_run run s)

take_entries-take_runs :
    (entries : List Entry) (s : Aggregation)
    → All (λ (e : Entry). (m : Text) → e.payload ≢ some (undecodable m)) entries
    → take_entries entries s ≡ ok (take_runs (runs_of entries) s)
unfolding take_entries take_runs
take_entries-take_runs [] s h = refl
take_entries-take_runs (e ∷ rest) s h = elim (Bool-cases e.is_dir) [
  | inr file ↦ rw file (take_entries-take_runs rest s h.1)
  | inl directory ↦ elim (Option-cases e.payload) [
    | inl unreadable ↦ rw (directory, unreadable) (take_entries-take_runs rest s h.1)
    | inr (undecodable m, bad) ↦ absurd (h.0 m bad)
    | inr (decoded run, good) ↦
        rw (directory, good) (take_entries-take_runs rest (take_run run s) h.1)
  ]
]

-- What some runs add to the counters.
record Adds (runs : List RunSummary) (s t : Aggregation) : Type 0 where
  run_count : t.result.runs ≡ s.result.runs + length runs
  passing : t.result.passing_runs ≡ s.result.passing_runs + count has_passed runs
  failing : t.result.failing_runs ≡ s.result.failing_runs + count (λ run. not (has_passed run)) runs
  executions : t.result.scenario_executions ≡ s.result.scenario_executions + length (tests_of runs)
  ids : t.result.failed_run_ids ≡ s.result.failed_run_ids ++ failed_ids runs
  scenarios : t.by_scenario ≡ take_tests (tests_of runs) s.by_scenario

take_run-parts :
    (run : RunSummary) (s : Aggregation)
    → let r = take_run run s in
      (r.result.runs ≡ s.result.runs + 1)
      × (r.result.passing_runs ≡ s.result.passing_runs + (if has_passed run then 1 else 0))
      × (r.result.failing_runs ≡ s.result.failing_runs + (if has_passed run then 0 else 1))
      × (r.result.scenario_executions ≡ s.result.scenario_executions + length run.tests)
      × (r.result.failed_run_ids
          ≡ s.result.failed_run_ids ++ (if has_passed run then [] else run.run_id ∷ []))
      × (r.by_scenario ≡ take_tests run.tests s.by_scenario)
unfolding take_run
take_run-parts run s = elim (Bool-cases (has_passed run)) [
  | inl good ↦
      rw good (refl, refl, omega arith, refl, sym (append-nil s.result.failed_run_ids), refl)
  | inr bad ↦ rw bad (refl, omega arith, refl, refl, refl, refl)
]

take_tests-append :
    (ts us : List TestResult) (m : Dict ScenarioAggregate)
    → take_tests us (take_tests ts m) ≡ take_tests (ts ++ us) m
unfolding take_tests
take_tests-append [] us m = refl
take_tests-append (t ∷ ts) us m = take_tests-append ts us _

failed_ids-cons :
    (run : RunSummary) (runs : List RunSummary)
    → (if has_passed run then [] else run.run_id ∷ []) ++ failed_ids runs ≡ failed_ids (run ∷ runs)
failed_ids-cons run runs = elim (Bool-cases (has_passed run)) [
  | inl good ↦ rw good refl
  | inr bad ↦ rw bad refl
]

take_runs-Adds : (runs : List RunSummary) (s : Aggregation) → Adds runs s (take_runs runs s)
unfolding take_runs take_tests
take_runs-Adds [] s = record {
  run_count = omega arith;
  passing = omega arith;
  failing = omega arith;
  executions = omega arith;
  ids = sym (append-nil s.result.failed_run_ids);
  scenarios = refl;
}
take_runs-Adds (run ∷ runs) s =
    let h = take_runs-Adds runs (take_run run s) in
    let (r, p, f, e, i, m) = take_run-parts run s in
    record {
      run_count = omega (arith, h.run_count, r);
      passing = omega (arith, h.passing, p);
      failing = ground (arith, h.failing, f);
      executions = omega (arith, h.executions, e, length-append run.tests (tests_of runs));
      ids =
          h.ids
          ∙ ap (λ l. l ++ failed_ids runs) i
          ∙ append_assoc s.result.failed_run_ids _ (failed_ids runs)
          ∙ ap (λ l. s.result.failed_run_ids ++ l) (failed_ids-cons run runs);
      scenarios =
          h.scenarios
          ∙ ap (take_tests (tests_of runs)) m
          ∙ take_tests-append run.tests (tests_of runs) s.by_scenario;
    }

-- The report of some runs: how many they are, how many of them passed and failed, which failed,
-- and what was executed, in all and for each scenario, each scenario once, in order.
pub record IsReport (runs : List RunSummary) (r : RepeatSummary) : Type 0 where
  pub run_count : r.runs ≡ length runs
  pub passing : r.passing_runs ≡ count has_passed runs
  pub failing : r.failing_runs ≡ count (λ run. not (has_passed run)) runs
  pub ids : Perm r.failed_run_ids (failed_ids runs)
  pub ids_ascending : IsAscending (λ t. t) text_less r.failed_run_ids
  pub executions : r.scenario_executions ≡ length (tests_of runs)
  pub total : sum_of (λ b. b.executions) r.scenarios ≡ length (tests_of runs)
  pub scenarios : All (IsTally (tests_of runs)) r.scenarios
  pub ascending : IsAscending scenario_name text_less r.scenarios
  pub differ : Pairwise (λ a b. scenario_name a ≢ scenario_name b) r.scenarios

names-Differ :
    (tests : List TestResult) (m : Dict ScenarioAggregate)
    → All (IsCounted tests) m
    → Pairwise (λ (a b : Text × ScenarioAggregate). a.0 ≢ b.0) m
    → Pairwise (λ (a b : Text × ScenarioAggregate). a.1.name ≢ b.1.name) m
names-Differ tests [] c p = Pairwise.nil
names-Differ tests (e ∷ m) c (Pairwise.cons d p) =
    Pairwise.cons
      (λ x listed same.
        let keyed =
          All-map (IsCounted tests) (λ (y : Text × ScenarioAggregate). y.1.name ≡ y.0)
            (λ y h. h.0.name) m c.1 in
        d x listed (
          sym c.0.0.name
          ∙ same
          ∙ All-mem (λ (y : Text × ScenarioAggregate). y.1.name ≡ y.0) (λ y. hlevel) m keyed x
              listed))
      (names-Differ tests m c.1 p)

-- The scenarios, whichever order the map is ranged over in.
scenarios-Matches :
    (range : Dict ScenarioAggregate → Dict ScenarioAggregate) (tests : List TestResult)
    → ((m : Dict ScenarioAggregate) → Perm (range m) m)
    → length tests < 281_474_976_710_656
    → (l : List ScenarioAggregate) × (take_scenarios (range (take_tests tests [])) ≡ some l)
      × (sum_of (λ b. b.executions) l ≡ length tests)
      × All (IsTally tests) l
      × Pairwise (λ a b. scenario_name a ≢ scenario_name b) l
scenarios-Matches range tests ranges bounded =
    let m = take_tests tests [] in
    let d = take_tests-Distinct tests [] tt in
    let back = Perm.symm (ranges m) in
    let own =
      All-perm (λ e. lookup e.0 m ≡ some e.1) (λ e. hlevel) m (range m) back (lookup-own m d) in
    let counted : All (IsCounted tests) (range m) =
      All-map _ (IsCounted tests) (λ e found. lookup-Counts e.0 tests e.1 found) (range m) own in
    let differ =
      (Perm.Pairwise-iff {R = λ (a b : Text × ScenarioAggregate). a.0 ≢ b.0} (λ a b. hlevel)
          (λ a b n e. n (sym e)) back).0
        (Pairwise-Distinct m d) in
    let (l, e, matches) = take_scenarios-Matches tests (range m) bounded counted in
    (
      l,
      e,
      omega (
        arith,
        Matches-total (range m) l matches,
        sum_of-perm entry_executions (range m) m (ranges m),
        take_tests-total tests [],
      ),
      Matches-IsTally tests (range m) l counted matches,
      Matches-Differ (range m) l matches (names-Differ tests (range m) counted differ),
    )

-- The report is right and is always there, as far as every summary.json that can be read decodes:
-- if there is a run at all and fewer than 2 ^ 48 tests, then aggregate does not panic and returns,
-- whichever order the map is ranged over in, a report of exactly the runs in the directory: each
-- run is counted once, as passing or failing by whether its summary has failures; those that fail
-- are named; each scenario is listed once, by its name, with all its executions, those passed and
-- those failed, the longest duration and the 95th percentile by nearest rank.
pub aggregate-IsReport :
    (now : ℤ) (root : Text) (range : Dict ScenarioAggregate → Dict ScenarioAggregate)
    (entries : List Entry)
    → ((m : Dict ScenarioAggregate) → Perm (range m) m)
    → All (λ (e : Entry). (m : Text) → e.payload ≢ some (undecodable m)) entries
    → 0 < length (runs_of entries)
    → length (tests_of (runs_of entries)) < 281_474_976_710_656
    → (r : RepeatSummary) × (aggregate now root range (ok entries) ≡ returned (ok r))
      × IsReport (runs_of entries) r
unfolding aggregate conclude_runs
aggregate-IsReport now root range entries ranges decodes some_run bounded =
    let runs = runs_of entries in
    let s = take_runs runs (begin_aggregation now) in
    let h = take_runs-Adds runs (begin_aggregation now) in
    let (l, e, total, tallies, differ) = scenarios-Matches range (tests_of runs) ranges bounded in
    let found : take_scenarios (range s.by_scenario) ≡ some l =
      ap (λ m. take_scenarios (range m)) h.scenarios ∙ e in
    let not_empty : (s.result.runs == 0) ≡ false = ground (arith, some_run, h.run_count) in
    let r : RepeatSummary = record s.result {
      scenarios = sort scenario_name text_less l;
      failed_run_ids = sort (λ t. t) text_less s.result.failed_run_ids;
    } in
    let listed = sort-perm scenario_name text_less l in
    (
      r,
      rw
          (
            aggregate,
            take_entries-take_runs entries (begin_aggregation now) decodes,
            conclude_runs,
            not_empty,
            found,
          )
          refl,
      record {
        run_count = omega (arith, h.run_count);
        passing = omega (arith, h.passing);
        failing = omega (arith, h.failing);
        ids =
            subst (Perm r.failed_run_ids) h.ids
              (sort-perm (λ (t : Text). t) text_less s.result.failed_run_ids);
        ids_ascending =
            sort-IsAscending (λ (t : Text). t) text_less text_order s.result.failed_run_ids;
        executions = omega (arith, h.executions);
        total = sum_of-perm (λ (b : ScenarioAggregate). b.executions) r.scenarios l listed ∙ total;
        scenarios = All-sort scenario_name text_less (IsTally (tests_of runs)) l tallies;
        ascending = sort-IsAscending scenario_name text_less text_order l;
        differ =
            (Perm.Pairwise-iff (λ a b. hlevel) (λ a b n e. n (sym e)) (Perm.symm listed)).0 differ;
      },
    )
