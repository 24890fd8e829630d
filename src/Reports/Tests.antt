-- ===== src/Reports/Tests.antt =====
-- A stream of test events, and the results at it for reports/ and cmd/e2e-report.
use mathlib.Core.List.Perm
use aero_arc_testing_harness.Prelude.{
  ℕ, ℤ, pos, Dict, decimal_int, if◌then◌else◌, ◌&&◌, text_eq_refl, text_eq-ne, ◌≡◌, refl, true,
  List, [], ◌∷◌, ◌++◌, map, Option, none, some, Text, text, text_eq, has_prefix, lookup, insert,
  sort, pair_less, text_less, Outcome, ok,
}
use aero_arc_testing_harness.Fixture.Types.{Decoded, decoded, undecodable}
use aero_arc_testing_harness.Reports.Types.{
  TestResult, Checkpoint, empty, marshalled, Summary, GoTestEvent,
}
use aero_arc_testing_harness.Reports.Parse.{
  parse, read_events, take_event, updated, is_terminal, is_parent, closed, add_test, collect,
  summarize,
}
use aero_arc_testing_harness.Reports.Summaries.{Ranges, IsCounted, parse-IsCounted, parse-range}
use aero_arc_testing_harness.Reports.Leaves.{IsListing, parse-lists}
use aero_arc_testing_harness.Reports.Markdown.{Printing, backtick, markdown_details}
use aero_arc_testing_harness.Reports.Cells.{escape, is_inside, markdown_details-is_inside}
use aero_arc_testing_harness.Reports.Bundle.{
  Files, Encoders, Keeps, HasBundle, write_bundle, unless_failed, with_encoded,
}
use aero_arc_testing_harness.Reports.Command.{
  Opened, HasCheckpoints, main, with_checkpoints, adopt, load_timeline, finish, main-success,
}
use aero_arc_testing_harness.Reports.Timeline.{stamped, record_event, record_all, load}
use aero_arc_testing_harness.Reports.Roundtrip.{IsReadable, record_all-load}

abbrev event : Text → Text → Text → GoTestEvent
event action test output = record {
  action = action;
  pkg = text "e2e";
  test = test;
  elapsed = pos 2;
  output = output;
}

-- A test with two subtests, of which one passes and one does not end, and a package that fails.
abbrev stream : List GoTestEvent
stream =
    event (text "run") (text "T") []
    ∷ event (text "run") (text "T/b") []
    ∷ event (text "output") (text "T/b") (text "b")
    ∷ event (text "pass") (text "T/b") []
    ∷ event (text "run") (text "T/a") []
    ∷ event (text "fail") (text "T") []
    ∷ event (text "fail") [] []
    ∷ []

abbrev stream_summary : Summary
stream_summary = record {
  run_id = text "r1";
  generated_at = pos 9;
  passed = 1;
  failed = 1;
  skipped = 0;
  duration = pos 2;
  tests =
      record {
        pkg = text "e2e";
        name = text "T/a";
        status = text "fail";
        elapsed = pos 0;
        output = text "test stream ended without a terminal event" ++ 10 ∷ [];
      }
      ∷ record {
        pkg = text "e2e";
        name = text "T/b";
        status = text "pass";
        elapsed = pos 2;
        output = text "b";
      }
      ∷ [];
  checkpoints = [];
}

in_order : Ranges (λ m. m)
in_order m = Perm.rfl

stream-parsed :
    parse (pos 9) (text "r1") (λ m. m) (map (λ e. decoded e) stream) none ≡ ok stream_summary
unfolding parse read_events take_event updated is_terminal is_parent closed add_test collect
    summarize sort pair_less lookup insert text_eq text_less has_prefix
stream-parsed = refl

-- The first two entries the other way round.
abbrev swapped : Dict TestResult → Dict TestResult
swapped [] = []
swapped (a ∷ []) = a ∷ []
swapped (a ∷ b ∷ m) = b ∷ a ∷ m

swapped-Ranges : Ranges swapped
swapped-Ranges [] = Perm.rfl
swapped-Ranges (a ∷ []) = Perm.rfl
swapped-Ranges (a ∷ b ∷ m) = Perm.swap a b m

parse-IsCounted_example : IsCounted stream_summary
parse-IsCounted_example =
    parse-IsCounted (pos 9) (text "r1") (λ m. m) (map (λ e. decoded e) stream) none stream_summary
      in_order stream-parsed

parse-range_example :
    parse (pos 9) (text "r1") (λ m. m) (map (λ e. decoded e) stream) none
    ≡ parse (pos 9) (text "r1") swapped (map (λ e. decoded e) stream) none
parse-range_example =
    parse-range (pos 9) (text "r1") (λ m. m) swapped (map (λ e. decoded e) stream) none in_order
      swapped-Ranges

parse-lists_example :
    (es : List GoTestEvent) × (map (λ e. decoded e) stream ≡ map (λ e. decoded e) es)
    × IsListing es stream_summary.tests
parse-lists_example =
    parse-lists (pos 9) (text "r1") (λ m. m) (map (λ e. decoded e) stream) none stream_summary
      in_order stream-parsed

abbrev takeoff : Checkpoint
takeoff = record {
  at = pos 0;
  scenario = text "takeoff";
  phase = text "when";
  name = text "takeoff";
  status = text "pass";
  details = empty;
}

-- Seconds are printed as the number of units.
abbrev seconds : ℤ → Text
seconds = decimal_int

markdown_details-is_inside_example :
    (markdown_details (marshalled (ok (text "{|`}")))
      ≡ (backtick ∷ escape (text "{|`}")) ++ (backtick ∷ []))
    × (is_inside backtick (escape (text "{|`}")) ≡ true)
markdown_details-is_inside_example = markdown_details-is_inside (text "{|`}")

-- A file system that never fails: the files that were written, the last one first.
abbrev Disk : Type 0
Disk = List (Text × Text × Text)

abbrev disk : Files Disk
disk = record {
  make_directory = λ directory w. (w, none);
  write_file = λ directory name content w. ((directory, name, content) ∷ w, none);
}

abbrev find : (directory name : Text) → Disk → Option Text
find directory name [] = none
find directory name ((d, n, content) ∷ w) =
    if text_eq d directory && text_eq n name then some content else find directory name w

abbrev encoders : Encoders
encoders = record {
  marshal_json = λ s. ok s.run_id;
  marshal_junit = λ r. ok r.name;
  three_decimals = seconds;
}

abbrev printing : Printing
printing = record {
  two_decimals = seconds;
  clock = seconds;
  to_upper = λ t. t;
  trim_space = λ t. t;
}

disk-Keeps : Keeps disk encoders printing find
disk-Keeps = record {
  written = λ directory name content w h. rw (text_eq_refl directory, text_eq_refl name) refl;
  others = λ directory name other content w differ.
      rw (text_eq_refl directory, text_eq-ne name other differ) refl;
}

abbrev input : Outcome (Opened GoTestEvent)
input = ok (record { lines = map (λ e. decoded e) stream; scan_error = none })

abbrev events : Option (Opened Checkpoint)
events = some (record { lines = decoded takeoff ∷ []; scan_error = none })

abbrev ended : Disk × ℕ
ended =
    main disk encoders printing (pos 9) (λ m. m) (text "go-test.json") (text "out") (text "r1")
      input events []

ended-0 : ended.1 ≡ 0
unfolding main with_checkpoints adopt load_timeline finish write_bundle unless_failed with_encoded
    parse read_events take_event updated is_terminal is_parent closed add_test collect summarize
    sort pair_less lookup insert text_eq text_less has_prefix
ended-0 = refl

main-success_example :
    (f : Opened GoTestEvent) × (p : Summary) × (s : Summary) × (input ≡ ok f)
    × (parse (pos 9) (text "r1") (λ m. m) f.lines f.scan_error ≡ ok p)
    × (s ≡ record p { checkpoints = s.checkpoints })
    × HasCheckpoints events s.checkpoints
    × IsCounted s
    × HasBundle disk encoders printing find (text "out") s ended.0
main-success_example =
    main-success disk encoders printing find (pos 9) (λ m. m) (text "go-test.json") (text "out")
      (text "r1") input events [] disk-Keeps in_order ended-0

-- An encoding by the name of an event, which must be that of `takeoff`.
abbrev decode : Text → Decoded Checkpoint
decode t = if text_eq t (text "{takeoff}") then decoded (stamped (pos 7) takeoff) else undecodable t

abbrev encode : Checkpoint → Outcome Text
encode e = ok (text "{takeoff}")

abbrev append : Text → Text → Text × Option Text
append t file = (file ++ t, none)

takeoff-IsReadable : IsReadable encode decode append (λ file. none) (stamped (pos 7) takeoff)
unfolding text_eq
takeoff-IsReadable = record {
  encoding = text "{takeoff}";
  encoded = refl;
  one_line = (refl, (refl, (refl, (refl, (refl, (refl, (refl, (refl, (refl, tt)))))))));
  fits = refl;
  no_return = refl;
  read_back = refl;
}

record_all-load_example :
    load decode
      (record_all encode append (λ file. none) ((pos 7, takeoff) ∷ (pos 7, takeoff) ∷ []) []).0
    ≡ ok (stamped (pos 7) takeoff ∷ stamped (pos 7) takeoff ∷ [])
record_all-load_example =
    record_all-load encode decode append (λ file. none) (λ t file h. refl)
      ((pos 7, takeoff) ∷ (pos 7, takeoff) ∷ []) (takeoff-IsReadable, (takeoff-IsReadable, tt))
      (unfold record_all record_event in (refl, (refl, tt)))
