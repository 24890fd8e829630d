-- ===== src/Repeats/Write.antt =====
-- write and main of cmd/e2e-repeat-report/main.go. The encoder, `%.2f` and the file system are
-- arguments, as in Reports.
use aero_arc_testing_harness.Prelude.{
  ℕ, ℤ, List, [], ◌∷◌, ◌++◌, Option, none, some, Text, text, text_eq, if◌then◌else◌, decimal,
  Outcome, ok, failed, Dict,
}
use aero_arc_testing_harness.Reports.Markdown.{newline, line, each}
use aero_arc_testing_harness.Reports.Bundle.{Files}
use aero_arc_testing_harness.Repeats.Types.{
  ScenarioAggregate, RepeatSummary, Entry, returned, panicked,
}
use aero_arc_testing_harness.Repeats.Aggregate.{aggregate}

module _ (two_decimals : ℤ → Text) where
  abbrev pub scenario_line : ScenarioAggregate → Text
  scenario_line b = line (
      text "| `"
      ++ b.name
      ++ text "` | "
      ++ decimal b.executions
      ++ text " | "
      ++ decimal b.passed
      ++ text " | "
      ++ decimal b.failed
      ++ text " | "
      ++ two_decimals b.p95_seconds
      ++ text "s | "
      ++ two_decimals b.max_seconds
      ++ text "s |")

  abbrev pub failed_runs : List Text → Text
  failed_runs [] = []
  failed_runs (run_id ∷ rest) =
      newline ∷ line (text "## Failed runs")
      ++ newline ∷ each (λ t. line (text "- `" ++ t ++ text "`")) (run_id ∷ rest)

  unfoldable pub repeat_markdown : RepeatSummary → Text
  repeat_markdown r =
      line (text "# E2E repeatability report")
      ++ newline ∷ line (text "- Runs: **" ++ decimal r.runs ++ text "**")
      ++ line (text "- Passing runs: **" ++ decimal r.passing_runs ++ text "**")
      ++ line (text "- Failing runs: **" ++ decimal r.failing_runs ++ text "**")
      ++ line (text "- Scenario executions: **" ++ decimal r.scenario_executions ++ text "**")
      ++ newline ∷ line (text "| Scenario | Executions | Passed | Failed | p95 | Max |")
      ++ line (text "| --- | ---: | ---: | ---: | ---: | ---: |")
      ++ each scenario_line r.scenarios
      ++ failed_runs r.failed_run_ids

  module _ {W : Type 0} (files : Files W) (marshal : RepeatSummary → Outcome Text) where
    unfoldable pub write : (root : Text) → RepeatSummary → W → W × Option Text
    write root r w = elim (marshal r) [
      | failed e ↦ (w, some e)
      | ok encoded ↦
          let json =
            files.write_file root (text "repeat-summary.json") (encoded ++ newline ∷ []) w in
          elim json.1 [
            | some e ↦ (json.0, some e)
            | none ↦ files.write_file root (text "repeat-summary.md") (repeat_markdown r) json.0
          ]
    ]

    -- main: the status of the process, none for a panic.
    unfoldable pub repeat_main :
        (now : ℤ) (range : Dict ScenarioAggregate → Dict ScenarioAggregate) (input : Text)
        → Outcome (List Entry)
        → W
        → W × Option ℕ
    repeat_main now range input entries w =
        if text_eq input [] then (w, some 2) else elim (aggregate now input range entries) [
          | panicked ↦ (w, none)
          | returned (failed e) ↦ (w, some 1)
          | returned (ok r) ↦
              let written = write input r w in
              (written.0, some (elim written.1 [ none ↦ 0 | some e ↦ 1 ]))
        ]
