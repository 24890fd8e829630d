-- ===== src/Reports/Command.antt =====
-- LoadTimeline of reports/report.go and the command cmd/e2e-report. The flags, what os.Open makes
-- of the two inputs and what they hold are arguments; a line comes as json.Unmarshal decodes it.
use mathlib.Core.List.{append-nil, append_assoc}
use aero_arc_testing_harness.Prelude.{
  ℕ, ℤ, ◌≡◌, refl, sym, subst, ◌∙◌, ap, ◌||◌, List, [], ◌∷◌, ◌++◌, map, Option, none, some, inl,
  inr, Text, text, text_eq, if◌then◌else◌, Dict, Outcome, ok, failed, outcome_cases, ok-injective,
  Option-cases, Bool-cases,
}
use aero_arc_testing_harness.Fixture.Types.{Decoded, decoded, undecodable}
use aero_arc_testing_harness.Reports.Types.{TestResult, Checkpoint, Summary, GoTestEvent}
use aero_arc_testing_harness.Reports.Parse.{begin_summary, begin_parsing, summarize, parse}
use aero_arc_testing_harness.Reports.Reading.{read_all}
use aero_arc_testing_harness.Reports.Listing.{Lists-collect}
use aero_arc_testing_harness.Reports.Summaries.{Ranges, IsCounted, parse-ok, parse-IsCounted}
use aero_arc_testing_harness.Reports.Markdown.{Printing}
use aero_arc_testing_harness.Reports.Bundle.{
  Files, Encoders, Keeps, HasBundle, write_bundle, write_bundle-HasBundle,
}

-- The loop of LoadTimeline, with the error of the scanner after the last line.
unfoldable pub load_timeline :
    List (Decoded Checkpoint) → Option Text → List Checkpoint → Outcome (List Checkpoint)
load_timeline [] none events = ok events
load_timeline [] (some e) events = failed (text "read timeline: " ++ e)
load_timeline (undecodable e ∷ rest) scan_error events =
    failed (text "decode timeline event: " ++ e)
load_timeline (decoded event ∷ rest) scan_error events =
    load_timeline rest scan_error (events ++ event ∷ [])

-- A file opened for reading: its lines, and the error of the scanner after them.
pub record Opened (A : Type 0) : Type 0 where
  pub lines : List (Decoded A)
  pub scan_error : Option Text

unfoldable pub adopt : Summary → Outcome (List Checkpoint) → Outcome Summary
adopt s (failed e) = failed e
adopt s (ok events) = ok (record s { checkpoints = events })

-- The checkpoints of a file that opens take the place of none.
unfoldable pub with_checkpoints : Option (Opened Checkpoint) → Summary → Outcome Summary
with_checkpoints none s = ok s
with_checkpoints (some f) s = adopt s (load_timeline f.lines f.scan_error [])

-- The checkpoints that the second input stands for.
abbrev pub HasCheckpoints : Option (Opened Checkpoint) → List Checkpoint → Type 0
HasCheckpoints none events = events ≡ []
HasCheckpoints (some f) events = (f.lines ≡ map (λ e. decoded e) events) × (f.scan_error ≡ none)

load_timeline-ok :
    (lines : List (Decoded Checkpoint)) (scan_error : Option Text) (before all : List Checkpoint)
    → load_timeline lines scan_error before ≡ ok all
    → (events : List Checkpoint) × (all ≡ before ++ events)
      × (lines ≡ map (λ e. decoded e) events)
      × (scan_error ≡ none)
unfolding load_timeline
load_timeline-ok [] none before all h =
    ([], sym (ok-injective h) ∙ sym (append-nil before), refl, refl)
load_timeline-ok [] (some e) before all h = cc
load_timeline-ok (undecodable e ∷ rest) scan_error before all h = cc
load_timeline-ok (decoded event ∷ rest) scan_error before all h =
    let (events, e, split, clean) = load_timeline-ok rest scan_error (before ++ event ∷ []) all h in
    (
      event ∷ events,
      e ∙ append_assoc before (event ∷ []) events,
      ap (◌∷◌ (decoded event)) split,
      clean,
    )

adopt-ok :
    (s : Summary) (o : Outcome (List Checkpoint)) (t : Summary)
    → adopt s o ≡ ok t
    → (events : List Checkpoint) × (o ≡ ok events) × (record s { checkpoints = events } ≡ t)
unfolding adopt
adopt-ok s (failed e) t h = cc
adopt-ok s (ok events) t h = (events, refl, ok-injective h)

with_checkpoints-ok :
    (f : Option (Opened Checkpoint)) (s t : Summary)
    → s.checkpoints ≡ []
    → with_checkpoints f s ≡ ok t
    → (t ≡ record s { checkpoints = t.checkpoints }) × HasCheckpoints f t.checkpoints
unfolding with_checkpoints
with_checkpoints-ok none s t empty_before h =
    subst
      (λ (r : Summary).
        (r ≡ record s { checkpoints = r.checkpoints }) × HasCheckpoints none r.checkpoints)
      (ok-injective h) (refl, empty_before)
with_checkpoints-ok (some f) s t empty_before h =
    let (events, good, e) = adopt-ok s (load_timeline f.lines f.scan_error []) t h in
    let (l, all, split, clean) = load_timeline-ok f.lines f.scan_error [] events good in
    subst
      (λ (r : Summary).
        (r ≡ record s { checkpoints = r.checkpoints }) × HasCheckpoints (some f) r.checkpoints)
      e (refl, (split ∙ ap (map (λ x. decoded x)) (sym all), clean))

parse-checkpoints :
    (now : ℤ) (run_id : Text) (range : Dict TestResult → Dict TestResult)
    (lines : List (Decoded GoTestEvent)) (scan_error : Option Text) (s : Summary)
    → parse now run_id range lines scan_error ≡ ok s
    → s.checkpoints ≡ []
unfolding summarize
parse-checkpoints now run_id range lines scan_error s h =
    let (es, split, clean, e) = parse-ok now run_id range lines scan_error s h in
    let p = read_all es begin_parsing in
    ap (λ (r : Summary). r.checkpoints) e
    ∙ (Lists-collect p.results (range p.results) (begin_summary now run_id p.duration)).checkpoints

IsCounted-checkpoints :
    (s : Summary) (events : List Checkpoint)
    → IsCounted s
    → IsCounted (record s { checkpoints = events })
IsCounted-checkpoints s events h = record {
  passed = h.passed;
  failed = h.failed;
  skipped = h.skipped;
  counted = h.counted;
  ended = h.ended;
}

module _ {W : Type 0} (files : Files W) (encoders : Encoders) (print : Printing) where
  -- What follows the parse, and the status that the process ends with.
  unfoldable pub finish : (output : Text) → Outcome Summary → W → W × ℕ
  finish output (failed e) w = (w, 1)
  finish output (ok s) w =
      let r = write_bundle files encoders print output s w in
      (r.0, elim r.1 [ none ↦ 0 | some e ↦ 1 ])

  -- main.
  unfoldable pub main :
      (now : ℤ) (range : Dict TestResult → Dict TestResult) (input output run_id : Text)
      → Outcome (Opened GoTestEvent)
      → Option (Opened Checkpoint)
      → W
      → W × ℕ
  main now range input output run_id file events_file w =
      if text_eq input [] || text_eq output [] || text_eq run_id [] then (w, 2) else elim file [
        | failed e ↦ (w, 1)
        | ok f ↦ elim (parse now run_id range f.lines f.scan_error) [
          | failed e ↦ finish output (failed e) w
          | ok s ↦ finish output (with_checkpoints events_file s) w
        ]
      ]

  finish-success :
      (output : Text) (o : Outcome Summary) (w : W)
      → (finish output o w).1 ≡ 0
      → (s : Summary) × (o ≡ ok s)
        × ((write_bundle files encoders print output s w).1 ≡ none)
        × ((finish output o w).0 ≡ (write_bundle files encoders print output s w).0)
  unfolding finish
  finish-success output (failed e) w h = cc
  finish-success output (ok s) w h =
      elim (Option-cases (write_bundle files encoders print output s w).1) [
        | inl written ↦ (s, refl, written, refl)
        | inr (e, bad) ↦ let k = rw (finish, bad) at h in cc
      ]

  main-parsed :
      (now : ℤ) (range : Dict TestResult → Dict TestResult) (input output run_id : Text)
      (file : Outcome (Opened GoTestEvent)) (events_file : Option (Opened Checkpoint)) (w : W)
      → (main now range input output run_id file events_file w).1 ≡ 0
      → (f : Opened GoTestEvent) × (p : Summary) × (file ≡ ok f)
        × (parse now run_id range f.lines f.scan_error ≡ ok p)
        × (main now range input output run_id file events_file w
            ≡ finish output (with_checkpoints events_file p) w)
  unfolding main finish
  main-parsed now range input output run_id file events_file w h =
      elim (Bool-cases (text_eq input [] || text_eq output [] || text_eq run_id [])) [
        | inl missing ↦ let k = rw (main, missing) at h in cc
        | inr given ↦ elim (outcome_cases file) [
          | inl (e, bad) ↦ let k = rw (main, given, bad) at h in cc
          | inr (f, opened) ↦ elim (outcome_cases (parse now run_id range f.lines f.scan_error)) [
            | inl (e, bad) ↦ let k = rw (main, given, opened, bad) at h in cc
            | inr (p, parsed) ↦ (f, p, opened, parsed, rw (main, given, opened, parsed) refl)
          ]
        ]
      ]

  -- If the command ends with status 0, then its output directory holds the three files of a
  -- summary that was parsed from its input, with the checkpoints of the events file if that
  -- opened and with none if it did not; every line of both was decoded; the summary's counters
  -- are those of its tests.
  pub main-success :
      (read : (directory name : Text) → W → Option Text) (now : ℤ)
      (range : Dict TestResult → Dict TestResult) (input output run_id : Text)
      (file : Outcome (Opened GoTestEvent)) (events_file : Option (Opened Checkpoint)) (w : W)
      → Keeps files encoders print read
      → Ranges range
      → (main now range input output run_id file events_file w).1 ≡ 0
      → (f : Opened GoTestEvent) × (p : Summary) × (s : Summary) × (file ≡ ok f)
        × (parse now run_id range f.lines f.scan_error ≡ ok p)
        × (s ≡ record p { checkpoints = s.checkpoints })
        × HasCheckpoints events_file s.checkpoints
        × IsCounted s
        × HasBundle files encoders print read output s
            (main now range input output run_id file events_file w).0
  unfolding main
  main-success read now range input output run_id file events_file w keeps ranges h =
      let (f, p, opened, parsed, run) =
        main-parsed now range input output run_id file events_file w h in
      let (s, made, written, end) =
        finish-success output (with_checkpoints events_file p) w
          (ap (λ (r : W × ℕ). r.1) (sym run) ∙ h) in
      let (same, events) =
        with_checkpoints-ok events_file p s
          (parse-checkpoints now run_id range f.lines f.scan_error p parsed) made in
      (
        f,
        p,
        s,
        opened,
        parsed,
        same,
        events,
        subst IsCounted (sym same) (
            IsCounted-checkpoints p s.checkpoints
              (parse-IsCounted now run_id range f.lines f.scan_error p ranges parsed)),
        subst (HasBundle files encoders print read output s)
            (sym (ap (λ (r : W × ℕ). r.0) run ∙ end))
            (write_bundle-HasBundle files encoders print read output s w keeps written),
      )
