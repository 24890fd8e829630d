-- ===== src/Repeats/Statistics.antt =====
-- The statistics that cmd/e2e-repeat-report/main.go takes of the durations of a scenario.
use mathlib.Core.List.{Perm}
use aero_arc_testing_harness.Prelude.{
  ℕ, zero, suc, ℤ, ◌+◌, ◌*◌, ◌-◌, ◌/◌, ◌<◌, ◌≡◌, refl, sym, ◌∙◌, ap, arith, false, List, [], ◌∷◌,
  some, ltb_ℤ, eq_ℤ_iff, length, sort, sort-perm, length-sort, IsStrictOrder, IsAscending,
  sort-IsAscending,
}
use aero_arc_testing_harness.Repeats.Types.{ScenarioAggregate}
use aero_arc_testing_harness.Repeats.Aggregate.{get_elem?, percentile_index, with_statistics}
use aero_arc_testing_harness.Repeats.Percentile.{percentile_index_lem}

ltb_ℤ-connected : (a b : ℤ) → ltb_ℤ a b ≡ false → ltb_ℤ b a ≡ false → a ≡ b
ltb_ℤ-connected a b h k = (eq_ℤ_iff a b).0 (ground (arith, h, k))

ltb_ℤ_order : IsStrictOrder ltb_ℤ
ltb_ℤ_order = record {
  asym = λ a b h. ground (arith, h);
  trans = λ a b c h k. ground (arith, h, k);
  connected = ltb_ℤ-connected;
}

get_elem?_lt : (l : List ℤ) (i : ℕ) → i < length l → (x : ℤ) × (get_elem? l i ≡ some x)
get_elem?_lt [] i h = elim h [ ]
get_elem?_lt (x ∷ l) zero h = (x, refl)
get_elem?_lt (x ∷ l) (suc i) h = get_elem?_lt l i (omega (arith, h))

-- The durations are those of another scenario in ascending order, with the last of them and the
-- one at the rank of 95 percent.
pub record HasStatistics (a b : ScenarioAggregate) : Type 0 where
  pub name : b.name ≡ a.name
  pub executions : b.executions ≡ a.executions
  pub passed : b.passed ≡ a.passed
  pub failed : b.failed ≡ a.failed
  pub durations : Perm b.durations a.durations
  pub ascending : IsAscending (λ d. d) ltb_ℤ b.durations
  pub longest : get_elem? b.durations (length b.durations - 1) ≡ some b.max_seconds
  pub p95 : get_elem? b.durations ((19 * length b.durations + 19) / 20 - 1) ≡ some b.p95_seconds

pub with_statistics-HasStatistics :
    (a : ScenarioAggregate)
    → 0 < length a.durations
    → length a.durations < 281_474_976_710_656
    → (b : ScenarioAggregate) × (with_statistics a ≡ some b) × HasStatistics a b
unfolding with_statistics
with_statistics-HasStatistics a positive bounded =
    let sorted = sort (λ (d : ℤ). d) ltb_ℤ a.durations in
    let len = length-sort (λ (d : ℤ). d) ltb_ℤ a.durations in
    let rank =
      percentile_index_lem (length sorted) (omega (arith, positive, len))
        (omega (arith, bounded, len)) in
    let (longest, e) = get_elem?_lt sorted (length sorted - 1) (omega (arith, positive, len)) in
    let (p95, f) =
      get_elem?_lt sorted (percentile_index (length sorted)) (omega (arith, positive, len, rank)) in
    let same : percentile_index (length sorted) ≡ (19 * length sorted + 19) / 20 - 1 =
      omega (arith, rank) in
    (
      record a { durations = sorted; max_seconds = longest; p95_seconds = p95 },
      rw (with_statistics, e, f) refl,
      record {
        name = refl;
        executions = refl;
        passed = refl;
        failed = refl;
        durations = sort-perm (λ (d : ℤ). d) ltb_ℤ a.durations;
        ascending = sort-IsAscending (λ (d : ℤ). d) ltb_ℤ ltb_ℤ_order a.durations;
        longest = e;
        p95 = ap (get_elem? sorted) (sym same) ∙ f;
      },
    )
