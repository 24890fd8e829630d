-- ===== src/Repeats/Scenarios.antt =====
-- The scenarios that cmd/e2e-repeat-report/main.go reports.
use mathlib.Core.List.{Perm, Pairwise}
use aero_arc_testing_harness.Prelude.{
  ◌+◌, ◌*◌, ◌-◌, ◌/◌, ◌<◌, ◌≤◌, ◌≡◌, ◌≢◌, refl, sym, subst, ◌∙◌, ap, arith, List, [], ◌∷◌, some,
  Text, text, Dict, ltb_ℤ, All, All-mem, All-of_mem, length, count, sum_of, IsAscending,
}
use aero_arc_testing_harness.Repeats.Types.{TestResult, ScenarioAggregate}
use aero_arc_testing_harness.Repeats.Aggregate.{
  new_scenario, get_elem?, take_scenarios, scenario_name,
}
use aero_arc_testing_harness.Repeats.Tallies.{
  is_named, has_ended, elapsed_of, Counts, entry_executions,
}
use aero_arc_testing_harness.Repeats.Statistics.{HasStatistics, with_statistics-HasStatistics}

-- A scenario of the report against the tests of all runs: how often its tests were executed, have
-- passed and failed; their durations in ascending order, with the longest, and the one at the rank
-- of 95 percent.
pub record IsTally (tests : List TestResult) (b : ScenarioAggregate) : Type 0 where
  pub executed : 0 < b.executions
  pub executions : b.executions ≡ count (is_named b.name) tests
  pub passed : b.passed ≡ count (has_ended b.name (text "pass")) tests
  pub failed : b.failed ≡ count (has_ended b.name (text "fail")) tests
  pub durations : Perm b.durations (elapsed_of b.name tests)
  pub ascending : IsAscending (λ d. d) ltb_ℤ b.durations
  pub longest : get_elem? b.durations (length b.durations - 1) ≡ some b.max_seconds
  pub p95 : get_elem? b.durations ((19 * length b.durations + 19) / 20 - 1) ≡ some b.p95_seconds

abbrev pub IsCounted : List TestResult → Text × ScenarioAggregate → Type 0
IsCounted tests e = Counts e.0 tests (new_scenario e.0) e.1 × (0 < count (is_named e.0) tests)

HasStatistics-IsTally :
    (tests : List TestResult) (e : Text × ScenarioAggregate) (b : ScenarioAggregate)
    → IsCounted tests e
    → HasStatistics e.1 b
    → IsTally tests b
HasStatistics-IsTally tests e b (h, named) s =
    let key : b.name ≡ e.0 = s.name ∙ h.name in
    record {
      executed = omega (arith, named, s.executions, h.executions);
      executions = rw key (omega (arith, s.executions, h.executions));
      passed = rw key (omega (arith, s.passed, h.passed));
      failed = rw key (omega (arith, s.failed, h.failed));
      durations = rw key (subst (Perm b.durations) h.durations s.durations);
      ascending = s.ascending;
      longest = s.longest;
      p95 = s.p95;
    }

count-le : (k : Text) (ts : List TestResult) → count (is_named k) ts ≤ length ts
count-le k [] = omega arith
count-le k (t ∷ ts) = ground (arith, count-le k ts)

length-elapsed_of :
    (k : Text) (ts : List TestResult) → length (elapsed_of k ts) ≡ count (is_named k) ts
length-elapsed_of k [] = refl
length-elapsed_of k (t ∷ ts) = ground (arith, length-elapsed_of k ts)

-- A list of scenarios has the statistics of the entries of a map.
abbrev pub Matches : Dict ScenarioAggregate → List ScenarioAggregate → Type 0
Matches [] [] = Unit
Matches (e ∷ m) (b ∷ l) = HasStatistics e.1 b × Matches m l
Matches [] (b ∷ l) = ⊥
Matches (e ∷ m) [] = ⊥

pub take_scenarios-Matches :
    (tests : List TestResult) (m : Dict ScenarioAggregate)
    → length tests < 281_474_976_710_656
    → All (IsCounted tests) m
    → (l : List ScenarioAggregate) × (take_scenarios m ≡ some l) × Matches m l
unfolding take_scenarios
take_scenarios-Matches tests [] bounded h = ([], refl, tt)
take_scenarios-Matches tests ((k, a) ∷ m) bounded h =
    let (c, named) = h.0 in
    let len = ap length c.durations ∙ length-elapsed_of k tests in
    let (b, e, s) =
      with_statistics-HasStatistics a (omega (arith, named, len))
        (omega (arith, bounded, len, count-le k tests)) in
    let (l, es, ss) = take_scenarios-Matches tests m bounded h.1 in
    (b ∷ l, rw (e, es) refl, (s, ss))

pub Matches-total :
    (m : Dict ScenarioAggregate) (l : List ScenarioAggregate)
    → Matches m l
    → sum_of (λ b. b.executions) l ≡ sum_of entry_executions m
Matches-total [] (b ∷ l) h = elim h [ ]
Matches-total (e ∷ m) [] h = elim h [ ]
Matches-total [] [] h = refl
Matches-total (e ∷ m) (b ∷ l) h = omega (arith, h.0.executions, Matches-total m l h.1)

pub Matches-IsTally :
    (tests : List TestResult) (m : Dict ScenarioAggregate) (l : List ScenarioAggregate)
    → All (IsCounted tests) m
    → Matches m l
    → All (IsTally tests) l
Matches-IsTally tests [] (b ∷ l) c h = elim h [ ]
Matches-IsTally tests (e ∷ m) [] c h = elim h [ ]
Matches-IsTally tests [] [] c h = tt
Matches-IsTally tests (e ∷ m) (b ∷ l) c h =
    (HasStatistics-IsTally tests e b c.0 h.0, Matches-IsTally tests m l c.1 h.1)

names-differ :
    (k : Text) (m : Dict ScenarioAggregate) (l : List ScenarioAggregate)
    → Matches m l
    → All (λ (e : Text × ScenarioAggregate). k ≢ e.1.name) m
    → All (λ b. k ≢ b.name) l
names-differ k [] [] h d = tt
names-differ k [] (b ∷ l) h d = elim h [ ]
names-differ k (e ∷ m) [] h d = elim h [ ]
names-differ k (e ∷ m) (b ∷ l) h d = (λ same. d.0 (same ∙ h.0.name), names-differ k m l h.1 d.1)

pub Matches-Differ :
    (m : Dict ScenarioAggregate) (l : List ScenarioAggregate)
    → Matches m l
    → Pairwise (λ (a b : Text × ScenarioAggregate). a.1.name ≢ b.1.name) m
    → Pairwise (λ a b. scenario_name a ≢ scenario_name b) l
Matches-Differ [] [] h p = Pairwise.nil
Matches-Differ [] (b ∷ l) h p = elim h [ ]
Matches-Differ (e ∷ m) [] h p = elim h [ ]
Matches-Differ (e ∷ m) (b ∷ l) h (Pairwise.cons d p) =
    Pairwise.cons
      (All-mem (λ (c : ScenarioAggregate). b.name ≢ c.name) (λ c. hlevel) l
        (names-differ b.name m l h.1
          (All-of_mem _ m (λ x listed same. d x listed (sym h.0.name ∙ same)))))
      (Matches-Differ m l h.1 p)
