-- ===== src/Reports/Cells.antt =====
-- What markdownDetails of reports/report.go puts into a cell of a table.
use aero_arc_testing_harness.Prelude.{
  ℕ, ◌≡◌, refl, ap, Bool, true, ◌&&◌, ◌||◌, not, [], ◌∷◌, ◌++◌, inl, inr, Text, text, if◌then◌else◌,
  ◌==◌, Bool-cases, ok,
}
use aero_arc_testing_harness.Reports.Types.{marshalled}
use aero_arc_testing_harness.Reports.Markdown.{
  replace_all, newline, backslash, backtick, bar, markdown_details,
}

-- What stays within one code span in one cell, after the byte `previous`: no newline, no
-- backtick, and no bar but after a backslash.
abbrev pub is_inside : (previous : ℕ) → Text → Bool
is_inside previous [] = true
is_inside previous (c ∷ t) =
    not (c == newline)
    && not (c == backtick)
    && (not (c == bar) || previous == backslash)
    && is_inside c t

-- The three replacements at once.
abbrev pub escape : Text → Text
escape [] = []
escape (c ∷ t) =
    if c == bar
    then backslash ∷ bar ∷ escape t
    else (if c == newline then 32 else if c == backtick then 39 else c) ∷ escape t

replace_all-escape :
    (t : Text)
    → replace_all
        (replace_all (replace_all t bar (backslash ∷ bar ∷ [])) newline (text " "))
        backtick
        (text "'")
      ≡ escape t
unfolding replace_all
replace_all-escape [] = refl
replace_all-escape (c ∷ t) = elim (Bool-cases (c == bar)) [
  | inl is_bar ↦ rw is_bar (ap (λ r. backslash ∷ bar ∷ r) (replace_all-escape t))
  | inr no_bar ↦ elim (Bool-cases (c == newline)) [
    | inl ends ↦ rw (no_bar, ends) (ap (◌∷◌ 32) (replace_all-escape t))
    | inr goes ↦ elim (Bool-cases (c == backtick)) [
      | inl tick ↦ rw (no_bar, goes, tick) (ap (◌∷◌ 39) (replace_all-escape t))
      | inr other ↦ rw (no_bar, goes, other) (ap (◌∷◌ c) (replace_all-escape t))
    ]
  ]
]

escape-is_inside : (previous : ℕ) (t : Text) → is_inside previous (escape t) ≡ true
escape-is_inside previous [] = refl
escape-is_inside previous (c ∷ t) = elim (Bool-cases (c == bar)) [
  | inl is_bar ↦ rw is_bar (escape-is_inside bar t)
  | inr no_bar ↦ elim (Bool-cases (c == newline)) [
    | inl ends ↦ rw (no_bar, ends) (escape-is_inside 32 t)
    | inr goes ↦ elim (Bool-cases (c == backtick)) [
      | inl tick ↦ rw (no_bar, goes, tick) (escape-is_inside 39 t)
      | inr other ↦ rw (no_bar, goes, other, no_bar, goes, other) (escape-is_inside c t)
    ]
  ]
]

-- Details that are there and can be marshalled are shown in one code span, as their JSON with
-- each bar put after a backslash, each newline made a space and each backtick an apostrophe; and
-- so, whatever bytes the JSON has, between the two backticks of the span stands no newline, no
-- further backtick, and no bar but after a backslash: it ends neither the cell nor the row.
pub markdown_details-is_inside :
    (encoded : Text)
    → (markdown_details (marshalled (ok encoded)) ≡ (backtick ∷ escape encoded) ++ (backtick ∷ []))
      × (is_inside backtick (escape encoded) ≡ true)
unfolding markdown_details
markdown_details-is_inside encoded = (
  ap (λ body. (backtick ∷ body) ++ (backtick ∷ [])) (replace_all-escape encoded),
  escape-is_inside backtick encoded,
)
