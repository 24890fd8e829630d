-- ===== src/Reports/Summaries.antt =====
-- What a summary of Parse in reports/report.go says of the stream that it was parsed from.
use mathlib.Core.List.Perm
use mathlib.Core.List.{Perm}
use aero_arc_testing_harness.Prelude.{
  ℤ, ◌+◌, ◌≡◌, refl, sym, ◌∙◌, ap, arith, Bool, true, List, [], ◌∷◌, map, Option, none, inl, inr,
  Text, text_eq_iff, if◌then◌else◌, Dict, ok, All, Distinct, Option-cases, outcome_cases,
  ok-injective, length, count, sort, pair_less, pair_order, count-sort, length-sort, All-sort,
  sort-perm-eq, All-perm,
}
use aero_arc_testing_harness.Fixture.Types.{Decoded, decoded}
use aero_arc_testing_harness.Reports.Types.{TestResult, Summary, GoTestEvent}
use aero_arc_testing_harness.Reports.Parse.{
  Parsing, pass, fail, skip, is_terminal, collect, test_key, begin_summary, begin_parsing,
  read_events, summarize, parse,
}
use aero_arc_testing_harness.Reports.Reading.{IsResult, read_all, read_all-IsResult, read_events-ok}
use aero_arc_testing_harness.Reports.Listing.{
  has_status, has_failed, leaves, Lists-collect, leaves-ended, leaves-perm, Separate,
  Pairwise-Separate, Pairwise-leaves,
}

-- How a map of results may be ranged over.
abbrev pub Ranges : (Dict TestResult → Dict TestResult) → Type 0
Ranges range = (m : Dict TestResult) → Perm (range m) m

-- A parse that succeeds has read every line and met no error.
pub parse-ok :
    (now : ℤ) (run_id : Text) (range : Dict TestResult → Dict TestResult)
    (lines : List (Decoded GoTestEvent)) (scan_error : Option Text) (s : Summary)
    → parse now run_id range lines scan_error ≡ ok s
    → (es : List GoTestEvent) × (lines ≡ map (λ e. decoded e) es)
      × (scan_error ≡ none)
      × (s ≡ summarize now run_id range (read_all es begin_parsing))
unfolding parse
parse-ok now run_id range lines scan_error s h =
    elim (outcome_cases (read_events lines begin_parsing)) [
      | inl (e, bad) ↦ let k = rw (parse, bad) at h in cc
      | inr (p, good) ↦ elim (Option-cases scan_error) [
        | inr (e, bad) ↦ let k = rw (parse, good, bad) at h in cc
        | inl clean ↦
            let k = rw (parse, good, clean) at h in
            let (es, split, read) = read_events-ok lines begin_parsing p good in
            (es, split, clean, sym (ok-injective k) ∙ ap (summarize now run_id range) read)
      ]
    ]

-- The counters of a summary are those of its tests, each of which has ended.
pub record IsCounted (s : Summary) : Type 0 where
  pub passed : s.passed ≡ count (has_status pass) s.tests
  pub failed : s.failed ≡ count (has_status fail) s.tests
  pub skipped : s.skipped ≡ count (has_status skip) s.tests
  pub counted : s.passed + s.failed + s.skipped ≡ length s.tests
  pub ended : All (λ r. is_terminal r.status ≡ true) s.tests

count-statuses :
    (l : List TestResult)
    → All (λ r. is_terminal r.status ≡ true) l
    → count (has_status pass) l + count (has_status fail) l + count (has_status skip) l ≡ length l
unfolding is_terminal
count-statuses [] h = omega arith
count-statuses (r ∷ l) h =
    let one : (if has_status pass r then 1 else 0)
          + (if has_status fail r then 1 else 0)
          + (if has_status skip r then 1 else 0)
        ≡ 1 =
      ground
        (arith, text_eq_iff r.status pass, text_eq_iff r.status fail, text_eq_iff r.status skip) in
    omega (arith, one, count-statuses l h.1)

-- The results of a stream are well formed, and stay so in any order.
pub results-IsResult :
    (es : List GoTestEvent)
    → All IsResult (read_all es begin_parsing).results
      × Distinct (read_all es begin_parsing).results
results-IsResult es = read_all-IsResult es begin_parsing tt tt

summarize-IsCounted :
    (now : ℤ) (run_id : Text) (range : Dict TestResult → Dict TestResult) (p : Parsing)
    → Ranges range
    → All IsResult p.results
    → IsCounted (summarize now run_id range p)
unfolding summarize
summarize-IsCounted now run_id range p ranges h =
    let m = range p.results in
    let l = leaves p.results m in
    let c = Lists-collect p.results m (begin_summary now run_id p.duration) in
    let s = collect p.results m (begin_summary now run_id p.duration) in
    let ended =
      leaves-ended p.results m
        (All-perm IsResult (λ e. hlevel) p.results m (Perm.symm (ranges p.results)) h) in
    let sorted =
      λ (f : TestResult → Bool). count-sort test_key pair_less f s.tests ∙ ap (count f) c.tests in
    record {
      passed = omega (arith, c.passed, sorted (has_status pass));
      skipped = omega (arith, c.skipped, sorted (has_status skip));
      failed =
          omega (
            arith,
            c.passed,
            c.skipped,
            c.counted,
            sorted (has_status fail),
            count-statuses l ended,
          );
      counted = omega (arith, c.counted, length-sort test_key pair_less s.tests, ap length c.tests);
      ended = All-sort test_key pair_less _ s.tests (rw c.tests ended);
    }

-- Whatever the stream is and in whatever order the map is ranged over: if Parse succeeds, every
-- test of the summary has passed, failed or been skipped; its three counters are the numbers of
-- these tests, and add up to all of them.
pub parse-IsCounted :
    (now : ℤ) (run_id : Text) (range : Dict TestResult → Dict TestResult)
    (lines : List (Decoded GoTestEvent)) (scan_error : Option Text) (s : Summary)
    → Ranges range
    → parse now run_id range lines scan_error ≡ ok s
    → IsCounted s
parse-IsCounted now run_id range lines scan_error s ranges h =
    let (es, split, clean, e) = parse-ok now run_id range lines scan_error s h in
    rw e (summarize-IsCounted now run_id range _ ranges (results-IsResult es).0)

TestResult-set : IsSet TestResult
TestResult-set = hlevel

summarize-range :
    (now : ℤ) (run_id : Text) (range other : Dict TestResult → Dict TestResult) (p : Parsing)
    → Ranges range
    → Ranges other
    → All IsResult p.results
    → Distinct p.results
    → summarize now run_id range p ≡ summarize now run_id other p
unfolding summarize
summarize-range now run_id range other p ranges others h d =
    let begin = begin_summary now run_id p.duration in
    let s = collect p.results (range p.results) begin in
    let t = collect p.results (other p.results) begin in
    let a = Lists-collect p.results (range p.results) begin in
    let b = Lists-collect p.results (other p.results) begin in
    let order = Perm.trans (ranges p.results) (Perm.symm (others p.results)) in
    let differ = Pairwise-leaves p.results (range p.results) (
      (Perm.Pairwise-iff {R = Separate} (λ a b. hlevel) (λ a b n e. n (sym e))
          (Perm.symm (ranges p.results))).0
        (Pairwise-Separate p.results h d)) in
    let sorted : sort test_key pair_less (leaves p.results (range p.results))
        ≡ sort test_key pair_less (leaves p.results (other p.results)) =
      sort-perm-eq test_key pair_less pair_order TestResult-set (leaves p.results (range p.results))
        (leaves p.results (other p.results))
        (leaves-perm p.results (range p.results) (other p.results) order) differ in
    let counts = λ (f : TestResult → Bool).
      sym (count-sort test_key pair_less f (leaves p.results (range p.results)))
      ∙ ap (count f) sorted
      ∙ count-sort test_key pair_less f (leaves p.results (other p.results)) in
    let pass_eq : s.passed ≡ t.passed =
      omega (arith, a.passed, b.passed, counts (has_status pass)) in
    let fail_eq : s.failed ≡ t.failed = omega (arith, a.failed, b.failed, counts has_failed) in
    let skip_eq : s.skipped ≡ t.skipped =
      omega (arith, a.skipped, b.skipped, counts (has_status skip)) in
    let tests_eq =
      ap (sort test_key pair_less) a.tests ∙ sorted ∙ sym (ap (sort test_key pair_less) b.tests) in
    λ i. record {
      run_id = (a.run_id ∙ sym b.run_id) i;
      generated_at = (a.generated_at ∙ sym b.generated_at) i;
      passed = pass_eq i;
      failed = fail_eq i;
      skipped = skip_eq i;
      duration = (a.duration ∙ sym b.duration) i;
      tests = tests_eq i;
      checkpoints = (a.checkpoints ∙ sym b.checkpoints) i;
    }

-- What Parse returns, error or summary, does not hang on the order in which the map of results is
-- ranged over.
pub parse-range :
    (now : ℤ) (run_id : Text) (range other : Dict TestResult → Dict TestResult)
    (lines : List (Decoded GoTestEvent)) (scan_error : Option Text)
    → Ranges range
    → Ranges other
    → parse now run_id range lines scan_error ≡ parse now run_id other lines scan_error
unfolding parse
parse-range now run_id range other lines scan_error ranges others =
    elim (outcome_cases (read_events lines begin_parsing)) [
      | inl (e, bad) ↦ rw (parse, bad) refl
      | inr (p, good) ↦ elim (Option-cases scan_error) [
        | inr (e, bad) ↦ rw (parse, good, bad) refl
        | inl clean ↦
            let (es, split, read) = read_events-ok lines begin_parsing p good in
            let (h, d) = results-IsResult es in
            rw (parse, good, clean)
              (ap ok
                (summarize-range now run_id range other p ranges others (rw read h) (rw read d)))
      ]
    ]
