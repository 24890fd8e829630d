-- ===== src/Reports/Junit.antt =====
-- toJUnit of reports/report.go. `%.3f` of a number of seconds is an argument.
use aero_arc_testing_harness.Prelude.{
  ℕ, ℤ, ◌≡◌, refl, sym, ◌∙◌, arith, Bool, true, false, ◌&&◌, List, [], ◌∷◌, Option, none, some,
  Text, text, text_eq, text_eq_iff, if◌then◌else◌, Dict, ok, length, count, All,
}
use aero_arc_testing_harness.Fixture.Types.{Decoded}
use aero_arc_testing_harness.Reports.Types.{TestResult, Summary, Checkpoint, GoTestEvent}
use aero_arc_testing_harness.Reports.Parse.{fail, skip, parse}
use aero_arc_testing_harness.Reports.Listing.{has_status}
use aero_arc_testing_harness.Reports.Summaries.{Ranges, parse-IsCounted}

pub record JunitFailure : Type 0 where
  pub message : Text
  pub body : Text

pub record JunitCase : Type 0 where
  pub name : Text
  pub class_name : Text
  pub time : Text
  pub failure : Option JunitFailure
  pub skipped : Option {0} Unit
  pub output : Text

pub record JunitSuite : Type 0 where
  pub name : Text
  pub tests : ℕ
  pub failures : ℕ
  pub skipped : ℕ
  pub time : Text
  pub test_cases : List JunitCase

pub record JunitSuites : Type 0 where
  pub name : Text
  pub tests : ℕ
  pub failures : ℕ
  pub skipped : ℕ
  pub time : Text
  pub suite : JunitSuite

module _ (three_decimals : ℤ → Text) where
  unfoldable pub case_of : TestResult → JunitCase
  case_of r =
      let item : JunitCase = record {
        name = r.name;
        class_name = r.pkg;
        time = three_decimals r.elapsed;
        failure = none;
        skipped = none;
        output = r.output;
      } in
      if text_eq r.status fail
      then record item {
        failure = some (record { message = text "scenario failed"; body = r.output });
      }
      else if text_eq r.status skip
      then record item { skipped = some tt }
      else item

  abbrev pub cases : List TestResult → List JunitCase
  cases [] = []
  cases (r ∷ rest) = case_of r ∷ cases rest

  unfoldable pub to_junit : Summary → JunitSuites
  to_junit s =
      let l = cases s.tests in
      record {
        name = s.run_id;
        tests = length l;
        failures = s.failed;
        skipped = s.skipped;
        time = three_decimals s.duration;
        suite = record {
          name = text "aero-arc-e2e";
          tests = length l;
          failures = s.failed;
          skipped = s.skipped;
          time = three_decimals s.duration;
          test_cases = l;
        };
      }

  abbrev has_failure : JunitCase → Bool
  has_failure c = elim c.failure [ none ↦ false | some f ↦ true ]

  abbrev is_skipped : JunitCase → Bool
  is_skipped c = elim c.skipped [ none ↦ false | some u ↦ true ]

  -- The counters of a suite are those of its elements, of which none has failed and is skipped.
  pub record IsConsistent (suite : JunitSuite) : Type 0 where
    pub tests : suite.tests ≡ length suite.test_cases
    pub failures : suite.failures ≡ count has_failure suite.test_cases
    pub skipped : suite.skipped ≡ count is_skipped suite.test_cases
    pub either : All (λ c. (has_failure c && is_skipped c) ≡ false) suite.test_cases

  case_of-elements :
      (r : TestResult)
      → (has_failure (case_of r) ≡ has_status fail r)
        × (is_skipped (case_of r) ≡ has_status skip r)
        × ((has_failure (case_of r) && is_skipped (case_of r)) ≡ false)
  unfolding case_of
  case_of-elements r = ground (arith, text_eq_iff r.status fail, text_eq_iff r.status skip)

  cases-elements :
      (l : List TestResult)
      → (count has_failure (cases l) ≡ count (has_status fail) l)
        × (count is_skipped (cases l) ≡ count (has_status skip) l)
        × All (λ c. (has_failure c && is_skipped c) ≡ false) (cases l)
  cases-elements [] = (refl, refl, tt)
  cases-elements (r ∷ l) =
      let (f, s, e) = case_of-elements r in
      let (fs, ss, es) = cases-elements l in (rw (f, fs) refl, rw (s, ss) refl, (e, es))

  -- The JUnit report of what Parse returns, with any checkpoints added: both levels carry the
  -- same counters, which are the numbers of the cases, of those with a failure and of the skipped
  -- ones; no case has failed and is skipped.
  pub to_junit-IsConsistent :
      (now : ℤ) (run_id : Text) (range : Dict TestResult → Dict TestResult)
      (lines : List (Decoded GoTestEvent)) (scan_error : Option Text) (s : Summary)
      (checkpoints : List Checkpoint)
      → Ranges range
      → parse now run_id range lines scan_error ≡ ok s
      → let r = to_junit (record s { checkpoints = checkpoints }) in
        IsConsistent r.suite
        × (r.tests ≡ r.suite.tests)
        × (r.failures ≡ r.suite.failures)
        × (r.skipped ≡ r.suite.skipped)
  unfolding to_junit
  to_junit-IsConsistent now run_id range lines scan_error s checkpoints ranges h =
      let c = parse-IsCounted now run_id range lines scan_error s ranges h in
      let (f, k, e) = cases-elements s.tests in
      (
        record {
          tests = refl;
          failures = c.failed ∙ sym f;
          skipped = c.skipped ∙ sym k;
          either = e;
        },
        refl,
        refl,
        refl,
      )
