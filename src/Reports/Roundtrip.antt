-- ===== src/Reports/Roundtrip.antt =====
-- That LoadTimeline of reports/report.go reads what Record of reports/timeline.go wrote.
use mathlib.Core.List.{append-nil, append_assoc}
use aero_arc_testing_harness.Prelude.{
  ℤ, ◌≡◌, refl, sym, ◌∙◌, ap, true, false, List, [], ◌∷◌, ◌++◌, map, Option, none, inl, inr, Text,
  ◌==◌, ltb, Option-cases, Outcome, ok, length, All,
}
use aero_arc_testing_harness.Fixture.Types.{Decoded, decoded}
use aero_arc_testing_harness.Reports.Types.{Checkpoint}
use aero_arc_testing_harness.Reports.Markdown.{newline}
use aero_arc_testing_harness.Reports.Command.{load_timeline}
use aero_arc_testing_harness.Reports.Timeline.{
  buffer_size, drop_return, scan, stamped, record_event, record_all, load,
}

scan-line :
    (before t rest : Text)
    → All (λ c. (c == newline) ≡ false) t
    → ltb (length (before ++ t)) buffer_size ≡ true
    → drop_return (before ++ t) ≡ before ++ t
    → let r = scan rest [] in scan (t ++ newline ∷ rest) before ≡ ((before ++ t) ∷ r.0, r.1)
unfolding scan
scan-line before [] rest one fits no_return =
    let same = append-nil before in
    let fits' : ltb (length before) buffer_size ≡ true =
      ap (λ t. ltb (length t) buffer_size) (sym same) ∙ fits in
    let kept : drop_return before ≡ before ++ [] = ap drop_return (sym same) ∙ no_return in
    rw (fits', kept) refl
scan-line before (c ∷ t) rest one fits no_return =
    let same = append_assoc before (c ∷ []) t in
    rw (scan, one.0)
      (scan-line (before ++ c ∷ []) t rest one.1 (ap (λ t. ltb (length t) buffer_size) same ∙ fits)
          (ap drop_return same ∙ no_return ∙ sym same)
        ∙ ap (λ l. (l ∷ (scan rest []).0, (scan rest []).1)) same)

-- The text of some lines.
abbrev pub text_of_lines : List Text → Text
text_of_lines [] = []
text_of_lines (t ∷ rest) = t ++ newline ∷ text_of_lines rest

module _ (encode : Checkpoint → Outcome Text) (decode : Text → Decoded Checkpoint)
    (append : Text → Text → Text × Option Text) (sync : Text → Option Text) where
  -- What Record writes for an event: one line that the buffer holds, and from which the event is
  -- decoded.
  pub record IsReadable (event : Checkpoint) : Type 0 where
    pub encoding : Text
    pub encoded : encode event ≡ ok encoding
    pub one_line : All (λ c. (c == newline) ≡ false) encoding
    pub fits : ltb (length encoding) buffer_size ≡ true
    pub no_return : drop_return encoding ≡ encoding
    pub read_back : decode encoding ≡ decoded event

  abbrev AllReadable : List (ℤ × Checkpoint) → Type 0
  AllReadable calls = All (λ (c : ℤ × Checkpoint). IsReadable (stamped c.0 c.1)) calls

  abbrev encodings : (calls : List (ℤ × Checkpoint)) → AllReadable calls → List Text
  encodings [] h = []
  encodings (c ∷ calls) h = h.0.encoding ∷ encodings calls h.1

  abbrev stamped_all : List (ℤ × Checkpoint) → List Checkpoint
  stamped_all [] = []
  stamped_all (c ∷ calls) = stamped c.0 c.1 ∷ stamped_all calls

  scan-encodings :
      (calls : List (ℤ × Checkpoint)) (h : AllReadable calls)
      → scan (text_of_lines (encodings calls h)) [] ≡ (encodings calls h, none)
  unfolding scan
  scan-encodings [] h = refl
  scan-encodings (c ∷ calls) h =
      scan-line [] h.0.encoding (text_of_lines (encodings calls h.1)) h.0.one_line h.0.fits
        h.0.no_return
      ∙ ap (λ (r : List Text × Option Text). (h.0.encoding ∷ r.0, r.1)) (scan-encodings calls h.1)

  load_timeline-encodings :
      (calls : List (ℤ × Checkpoint)) (h : AllReadable calls) (before : List Checkpoint)
      → load_timeline (map decode (encodings calls h)) none before
        ≡ ok (before ++ stamped_all calls)
  unfolding load_timeline
  load_timeline-encodings [] h before = ap ok (sym (append-nil before))
  load_timeline-encodings (c ∷ calls) h before = rw h.0.read_back (
      load_timeline-encodings calls h.1 (before ++ stamped c.0 c.1 ∷ [])
      ∙ ap ok (append_assoc before (stamped c.0 c.1 ∷ []) (stamped_all calls)))

  module _
      (appends : (t file : Text) → (append t file).1 ≡ none → (append t file).0 ≡ file ++ t) where
    record_event-appends :
        (now : ℤ) (event : Checkpoint) (file : Text) (h : IsReadable (stamped now event))
        → (record_event encode append sync now event file).1 ≡ none
        → (record_event encode append sync now event file).0 ≡ file ++ (h.encoding ++ newline ∷ [])
    unfolding record_event
    record_event-appends now event file h none_failed =
        elim (Option-cases (append (h.encoding ++ newline ∷ []) file).1) [
          | inl written ↦
              rw (record_event, h.encoded) (appends (h.encoding ++ newline ∷ []) file written)
          | inr (e, bad) ↦ let k = rw (record_event, h.encoded, bad) at none_failed in cc
        ]

    record_all-lines :
        (calls : List (ℤ × Checkpoint)) (file : Text) (h : AllReadable calls)
        → All (λ e. e ≡ none) (record_all encode append sync calls file).1
        → (record_all encode append sync calls file).0 ≡ file ++ text_of_lines (encodings calls h)
    unfolding record_all
    record_all-lines [] file h none_failed = sym (append-nil file)
    record_all-lines ((now, event) ∷ calls) file h none_failed =
        record_all-lines calls (record_event encode append sync now event file).0 h.1 none_failed.1
        ∙ ap (λ f. f ++ text_of_lines (encodings calls h.1))
            (record_event-appends now event file h.0 none_failed.0)
        ∙ append_assoc file (h.0.encoding ++ newline ∷ []) (text_of_lines (encodings calls h.1))
        ∙ ap (λ t. file ++ t)
            (append_assoc h.0.encoding (newline ∷ []) (text_of_lines (encodings calls h.1)))

    -- A timeline that starts empty, and whose calls of Record all succeed, is loaded again in
    -- full: LoadTimeline gives the events in the order in which they got the lock, each with its
    -- time, which is that of the call if the event had none. This is so if each event, with its
    -- time, is encoded as a text that has no newline, is shorter than the 4 MiB of the scanner's
    -- buffer, does not end in a carriage return and is decoded to the event again, and if a write
    -- without an error appends its text to the file.
    pub record_all-load :
        (calls : List (ℤ × Checkpoint))
        → AllReadable calls
        → All (λ e. e ≡ none) (record_all encode append sync calls []).1
        → load decode (record_all encode append sync calls []).0 ≡ ok (stamped_all calls)
    unfolding load
    record_all-load calls h none_failed =
        rw (record_all-lines calls [] h none_failed, scan-encodings calls h)
          (load_timeline-encodings calls h [])
