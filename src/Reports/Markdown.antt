-- ===== src/Reports/Markdown.antt =====
-- markdown and markdownDetails of reports/report.go. What fmt makes of a float64, the layout of a
-- time of day, and strings.ToUpper and TrimSpace, whose tables of Unicode are not modelled, are
-- arguments.
use aero_arc_testing_harness.Prelude.{
  ℕ, ℤ, List, [], ◌∷◌, ◌++◌, Text, text, text_eq, if◌then◌else◌, ◌==◌, decimal, ok, failed,
}
use aero_arc_testing_harness.Reports.Types.{
  TestResult, Details, empty, marshalled, Checkpoint, Summary,
}
use aero_arc_testing_harness.Reports.Parse.{fail}

-- strings.ReplaceAll where the old text is one byte.
unfoldable pub replace_all : Text → ℕ → Text → Text
replace_all [] old new = []
replace_all (c ∷ t) old new =
    let rest = replace_all t old new in if c == old then new ++ rest else c ∷ rest

abbrev pub newline : ℕ
newline = 10

abbrev pub backslash : ℕ
backslash = 92

abbrev pub backtick : ℕ
backtick = 96

abbrev pub bar : ℕ
bar = 124

-- An em dash in UTF-8.
abbrev pub em_dash : Text
em_dash = 226 ∷ 128 ∷ 148 ∷ []

unfoldable pub markdown_details : Details → Text
markdown_details empty = em_dash
markdown_details (marshalled (failed e)) = text "details unavailable"
markdown_details (marshalled (ok encoded)) =
    let value = replace_all encoded bar (backslash ∷ bar ∷ []) in
    let value' = replace_all value newline (text " ") in
    (backtick ∷ replace_all value' backtick (text "'")) ++ (backtick ∷ [])

pub record Printing : Type 0 where
  pub two_decimals : ℤ → Text
  pub clock : ℤ → Text
  pub to_upper : Text → Text
  pub trim_space : Text → Text

abbrev pub line : Text → Text
line t = t ++ newline ∷ []

abbrev pub each {ℓ} : {A : Type ℓ} → (A → Text) → List A → Text
each f [] = []
each f (x ∷ l) = f x ++ each f l

module _ (print : Printing) where
  abbrev pub scenario_row : TestResult → Text
  scenario_row r = line (
      text "| `"
      ++ r.name
      ++ text "` | "
      ++ print.to_upper r.status
      ++ text " | "
      ++ print.two_decimals r.elapsed
      ++ text "s |")

  abbrev pub checkpoint_row : Checkpoint → Text
  checkpoint_row e = line (
      text "| "
      ++ print.clock e.at
      ++ text " | `"
      ++ e.scenario
      ++ text "` | "
      ++ e.phase
      ++ text " | "
      ++ e.name
      ++ text " | "
      ++ print.to_upper e.status
      ++ text " | "
      ++ markdown_details e.details
      ++ text " |")

  abbrev pub failure_section : TestResult → Text
  failure_section r =
      if text_eq r.status fail
      then newline ∷ line (text "## Failure: `" ++ r.name ++ text "`")
        ++ newline ∷ line (text "```text")
        ++ line (print.trim_space r.output)
        ++ line (text "```")
      else []

  abbrev pub checkpoint_table : List Checkpoint → Text
  checkpoint_table [] = []
  checkpoint_table (e ∷ l) =
      newline ∷ line (text "## Checkpoints and invariants")
      ++ newline ∷ line (text "| Time (UTC) | Scenario | Phase | Checkpoint | Result | Evidence |")
      ++ line (text "| --- | --- | --- | --- | --- | --- |")
      ++ each checkpoint_row (e ∷ l)

  abbrev pub artifact_index : Text
  artifact_index =
      newline ∷ line (text "## Artifact index")
      ++ newline ∷ line (text "- [Machine-readable summary](summary.json)")
      ++ line (text "- [Chronological evidence](events.jsonl)")
      ++ line (text "- [Raw Go test stream](go-test.json)")
      ++ line (text "- [Environment manifest](stack.json)")
      ++ line (text "- [JUnit report](junit.xml)")
      ++ line
          (text "- [Service logs](logs/) " ++ em_dash ++ text " captured automatically on failure")

  unfoldable pub markdown : Summary → Text
  markdown s =
      line (text "# Aero Arc E2E run `" ++ s.run_id ++ text "`")
      ++ newline ∷ line (text "- Passed: **" ++ decimal s.passed ++ text "**")
      ++ line (text "- Failed: **" ++ decimal s.failed ++ text "**")
      ++ line (text "- Skipped: **" ++ decimal s.skipped ++ text "**")
      ++ line (text "- Duration: **" ++ print.two_decimals s.duration ++ text "s**")
      ++ newline ∷ line (text "| Scenario | Result | Duration |")
      ++ line (text "| --- | --- | ---: |")
      ++ each scenario_row s.tests
      ++ checkpoint_table s.checkpoints
      ++ each failure_section s.tests
      ++ artifact_index
