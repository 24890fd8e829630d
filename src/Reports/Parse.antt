-- ===== src/Reports/Parse.antt =====
-- Parse of reports/report.go. The lines come as json.Unmarshal decodes them, with the error of
-- the scanner after the last; `range` is the order in which the map of results is ranged over.
use aero_arc_testing_harness.Prelude.{
  ℤ, pos, ◌+◌, Bool, false, ◌&&◌, ◌||◌, not, List, [], ◌∷◌, ◌++◌, Option, none, some, Text, text,
  text_eq, has_prefix, ltb_ℤ, if◌then◌else◌, Dict, lookup, insert, Outcome, ok, failed, sort,
  pair_less,
}
use aero_arc_testing_harness.Fixture.Types.{Decoded, decoded, undecodable}
use aero_arc_testing_harness.Reports.Types.{TestResult, Summary, GoTestEvent}

-- The variables of the first loop.
pub record Parsing : Type 0 where
  pub duration : ℤ
  pub results : Dict TestResult

abbrev pub begin_parsing : Parsing
begin_parsing = record { duration = pos 0; results = [] }

abbrev pub pass : Text
pass = text "pass"

abbrev pub fail : Text
fail = text "fail"

abbrev pub skip : Text
skip = text "skip"

abbrev pub running : Text
running = text "running"

abbrev pub result_key : Text → Text → Text
result_key pkg test = pkg ++ 0 ∷ test

abbrev pub fresh : GoTestEvent → TestResult
fresh e = record { pkg = e.pkg; name = e.test; status = running; elapsed = pos 0; output = [] }

unfoldable pub is_terminal : Text → Bool
unfolding text_eq
is_terminal action = text_eq action pass || text_eq action fail || text_eq action skip

-- What an event makes of the result of its test.
unfoldable pub updated : GoTestEvent → TestResult → TestResult
updated e r =
    let r' : TestResult =
      if text_eq e.output [] then r else record r { output = r.output ++ e.output } in
    if is_terminal e.action then record r' { status = e.action; elapsed = e.elapsed } else r'

abbrev pub or_fresh : GoTestEvent → Option TestResult → TestResult
or_fresh e none = fresh e
or_fresh e (some r) = r

-- One round of the loop over the lines.
unfoldable pub take_event : GoTestEvent → Parsing → Parsing
take_event e p =
    let key = result_key e.pkg e.test in
    if text_eq e.test []
    then record p { duration = if ltb_ℤ p.duration e.elapsed then e.elapsed else p.duration }
    else record p { results = insert key (updated e (or_fresh e (lookup key p.results))) p.results }

-- The loop, which a line that does not decode ends.
unfoldable pub read_events : List (Decoded GoTestEvent) → Parsing → Outcome Parsing
unfolding take_event text_eq lookup insert updated is_terminal
read_events [] p = ok p
read_events (undecodable e ∷ rest) p = failed (text "decode go test event: " ++ e)
read_events (decoded event ∷ rest) p = read_events rest (take_event event p)

-- Whether another result of the package has a name below this one's.
unfoldable pub is_parent : Text → TestResult → Dict TestResult → Bool
is_parent key candidate [] = false
is_parent key candidate ((other_key, other) ∷ rest) =
    (not (text_eq key other_key)
      && text_eq candidate.pkg other.pkg
      && has_prefix other.name (candidate.name ++ text "/"))
    || is_parent key candidate rest

-- A result whose test did not end fails.
unfoldable pub closed : TestResult → TestResult
closed r =
    if text_eq r.status running
    then record r {
      status = fail;
      output = r.output ++ text "test stream ended without a terminal event" ++ 10 ∷ [];
    }
    else r

-- A result is listed and counted.
unfoldable pub add_test : TestResult → Summary → Summary
add_test r s =
    let s' : Summary = record s { tests = s.tests ++ r ∷ [] } in
    if text_eq r.status pass
    then record s' { passed = s.passed + 1 }
    else if text_eq r.status skip
    then record s' { skipped = s.skipped + 1 }
    else record s' { failed = s.failed + 1 }

-- The loop over the results; `all_results` is the whole map, from which the parents are known.
unfoldable pub collect : Dict TestResult → Dict TestResult → Summary → Summary
collect all_results [] s = s
collect all_results ((key, r) ∷ rest) s =
    collect all_results rest (if is_parent key r all_results then s else add_test (closed r) s)

abbrev pub test_key : TestResult → Text × Text
test_key r = (r.pkg, r.name)

abbrev pub begin_summary : ℤ → Text → ℤ → Summary
begin_summary now run_id duration = record {
  run_id = run_id;
  generated_at = now;
  passed = 0;
  failed = 0;
  skipped = 0;
  duration = duration;
  tests = [];
  checkpoints = [];
}

-- What follows the loop over the lines.
unfoldable pub summarize :
    (now : ℤ) (run_id : Text) (range : Dict TestResult → Dict TestResult) → Parsing → Summary
summarize now run_id range p =
    let s = collect p.results (range p.results) (begin_summary now run_id p.duration) in
    record s { tests = sort test_key pair_less s.tests }

-- Parse.
unfoldable pub parse :
    (now : ℤ) (run_id : Text) (range : Dict TestResult → Dict TestResult)
    → List (Decoded GoTestEvent)
    → Option Text
    → Outcome Summary
parse now run_id range lines scan_error = elim (read_events lines begin_parsing) [
  | failed e ↦ failed e
  | ok p ↦ elim scan_error [
    | some e ↦ failed (text "read go test events: " ++ e)
    | none ↦ ok (summarize now run_id range p)
  ]
]
