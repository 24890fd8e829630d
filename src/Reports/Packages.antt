-- ===== src/Reports/Packages.antt =====
-- What Parse of reports/report.go makes of the events of a whole package, which name no test.
use aero_arc_testing_harness.Prelude.{
  ℤ, pos, ◌≡◌, refl, ◌∙◌, ap, arith, true, false, List, [], ◌∷◌, map, none, inl, inr, Text, text_eq,
  if◌then◌else◌, Dict, ok, Bool-cases, sort, pair_less,
}
use aero_arc_testing_harness.Fixture.Types.{decoded}
use aero_arc_testing_harness.Reports.Types.{TestResult, Summary, GoTestEvent}
use aero_arc_testing_harness.Reports.Parse.{
  Parsing, is_parent, closed, add_test, take_event, collect, test_key, begin_summary, begin_parsing,
  summarize, parse,
}
use aero_arc_testing_harness.Reports.Reading.{read_all, read_events-decoded}

-- The events about a test.
abbrev pub named : List GoTestEvent → List GoTestEvent
named [] = []
named (e ∷ es) = if text_eq e.test [] then named es else e ∷ named es

untimed : Parsing → Parsing
untimed p = record p { duration = pos 0 }

take_event-named :
    (e : GoTestEvent) (p : Parsing)
    → text_eq e.test [] ≡ false
    → take_event e (untimed p) ≡ untimed (take_event e p)
unfolding take_event untimed
take_event-named e p h = rw h refl

take_event-untimed :
    (e : GoTestEvent) (p : Parsing)
    → text_eq e.test [] ≡ true
    → untimed p ≡ untimed (take_event e p)
unfolding take_event untimed
take_event-untimed e p h = rw h refl

read_all-named :
    (es : List GoTestEvent) (p : Parsing)
    → read_all (named es) (untimed p) ≡ untimed (read_all es p)
read_all-named [] p = refl
read_all-named (e ∷ es) p = elim (Bool-cases (text_eq e.test [])) [
  | inl whole ↦
      rw whole (
        ap (read_all (named es)) (take_event-untimed e p whole)
        ∙ read_all-named es (take_event e p))
  | inr about ↦
      rw about
        (ap (read_all (named es)) (take_event-named e p about) ∙ read_all-named es (take_event e p))
]

timed : ℤ → Summary → Summary
timed d s = record s { duration = d }

add_test-timed :
    (d : ℤ) (r : TestResult) (s : Summary) → add_test r (timed d s) ≡ timed d (add_test r s)
unfolding add_test timed
add_test-timed d r s = ground arith

collect-timed :
    (d : ℤ) (all_results m : Dict TestResult) (s : Summary)
    → collect all_results m (timed d s) ≡ timed d (collect all_results m s)
unfolding collect
collect-timed d all_results [] s = refl
collect-timed d all_results ((key, r) ∷ m) s = elim (Bool-cases (is_parent key r all_results)) [
  | inl parent ↦ rw (collect, parent) (collect-timed d all_results m s)
  | inr leaf ↦
      rw (collect, leaf)
        (ap (collect all_results m) (add_test-timed d (closed r) s)
          ∙ collect-timed d all_results m (add_test (closed r) s))
]

parse-decoded :
    (now : ℤ) (run_id : Text) (range : Dict TestResult → Dict TestResult) (es : List GoTestEvent)
    → parse now run_id range (map (λ e. decoded e) es) none
      ≡ ok (summarize now run_id range (read_all es begin_parsing))
unfolding parse
parse-decoded now run_id range es = rw (parse, read_events-decoded es begin_parsing) refl

summarize-untimed :
    (now : ℤ) (run_id : Text) (range : Dict TestResult → Dict TestResult) (p : Parsing)
    → summarize now run_id range (untimed p) ≡ timed (pos 0) (summarize now run_id range p)
unfolding summarize timed untimed
summarize-untimed now run_id range p =
    ap (λ (s : Summary). record s { tests = sort test_key pair_less s.tests })
      (collect-timed (pos 0) p.results (range p.results) (begin_summary now run_id p.duration))

-- Whatever a stream of lines that decode says of whole packages, that they failed included, Parse
-- takes only the duration from it: with the events about packages left out it succeeds just the
-- same, and gives the same tests and the same counters, with the duration 0.
pub parse-named :
    (now : ℤ) (run_id : Text) (range : Dict TestResult → Dict TestResult) (es : List GoTestEvent)
    → (s : Summary) × (parse now run_id range (map (λ e. decoded e) es) none ≡ ok s)
      × (parse now run_id range (map (λ e. decoded e) (named es)) none
          ≡ ok (record s { duration = pos 0 }))
unfolding untimed timed
parse-named now run_id range es =
    let p = read_all es begin_parsing in
    (
      summarize now run_id range p,
      parse-decoded now run_id range es,
      parse-decoded now run_id range (named es)
          ∙ ap (λ q. ok (summarize now run_id range q)) (read_all-named es begin_parsing)
          ∙ ap ok (summarize-untimed now run_id range p),
    )
