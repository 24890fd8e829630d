-- ===== src/Reports/Timeline.antt =====
-- Timeline of reports/timeline.go, and LoadTimeline of reports/report.go on what it wrote. A file
-- is the bytes it holds; json.Encoder and json.Unmarshal are arguments, and so is the error, if
-- there is one, of each write and each Sync.
use aero_arc_testing_harness.Prelude.{
  ℕ, ℤ, pos, true, false, List, [], ◌∷◌, ◌++◌, map, Option, none, some, Text, text, if◌then◌else◌,
  ◌==◌, ltb, Outcome, ok, failed, length, eq_ℤ,
}
use aero_arc_testing_harness.Fixture.Types.{Decoded}
use aero_arc_testing_harness.Reports.Types.{Checkpoint}
use aero_arc_testing_harness.Reports.Markdown.{newline}
use aero_arc_testing_harness.Reports.Command.{load_timeline}

-- The most bytes of the scanner's buffer, which must hold a line and its newline.
abbrev pub buffer_size : ℕ
buffer_size = 4_194_304

-- A line without the carriage return at its end.
abbrev pub drop_return : Text → Text
drop_return [] = []
drop_return (c ∷ []) = if c == 13 then [] else c ∷ []
drop_return (c ∷ d ∷ t) = c ∷ drop_return (d ∷ t)

abbrev pub too_long : Text
too_long = text "bufio.Scanner: token too long"

-- bufio.Scanner over a text: the lines up to the first that the buffer cannot hold, and the error
-- that this is. `before` is what the line has so far.
unfoldable pub scan : Text → (before : Text) → List Text × Option Text
scan [] [] = ([], none)
scan [] (b ∷ before) =
    if ltb (length (b ∷ before)) buffer_size
    then (drop_return (b ∷ before) ∷ [], none)
    else ([], some too_long)
scan (c ∷ t) before = elim (c == newline) [
  | true ↦
      let next = scan t [] in
      if ltb (length before) buffer_size
      then (drop_return before ∷ next.0, next.1)
      else ([], some too_long)
  | false ↦ scan t (before ++ c ∷ [])
]

-- Record gives an event without a time the time of the call.
unfoldable pub stamped : ℤ → Checkpoint → Checkpoint
stamped now e = if eq_ℤ e.at (pos 0) then record e { at = now } else e

-- LoadTimeline on the bytes of a file.
unfoldable pub load : (decode : Text → Decoded Checkpoint) → Text → Outcome (List Checkpoint)
load decode file = let r = scan file [] in load_timeline (map decode r.0) r.1 []

module _ (encode : Checkpoint → Outcome Text) (append : Text → Text → Text × Option Text)
    (sync : Text → Option Text) where
  abbrev pub write_failed : Text → Text
  write_failed e = text "write timeline event: " ++ e

  -- Record: the file after the call, and its error.
  unfoldable pub record_event : (now : ℤ) → Checkpoint → Text → Text × Option Text
  record_event now event file = elim (encode (stamped now event)) [
    | failed e ↦ (file, some (write_failed e))
    | ok t ↦
        let r = append (t ++ newline ∷ []) file in
        (r.0, elim r.1 [ none ↦ sync r.0 | some e ↦ some (write_failed e) ])
  ]

  -- The calls of Record in the order in which they get the lock, with the errors of all.
  unfoldable pub record_all : List (ℤ × Checkpoint) → Text → Text × List (Option Text)
  record_all [] file = (file, [])
  record_all ((now, event) ∷ rest) file =
      let r = record_event now event file in let s = record_all rest r.0 in (s.0, r.1 ∷ s.1)
