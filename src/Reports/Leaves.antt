-- ===== src/Reports/Leaves.antt =====
-- Which tests of a stream Parse of reports/report.go lists, and as what.
use mathlib.Core.List.Perm
use mathlib.Core.Logic.Or
use mathlib.Core.List.{Mem, mem-cons}
use aero_arc_testing_harness.Prelude.{
  ℤ, ◌≡◌, ◌≢◌, refl, sym, subst, ◌∙◌, ap, arith, All-map, lookup-own, false, List, [], ◌∷◌, ◌++◌,
  map, Option, none, some, inl, inr, Text, text, text_eq, text_eq_iff, text_eq_refl, text_eq-ne,
  has_prefix, Dict, lookup, ok, All, Distinct, Bool-cases, sort, pair_less, All-sort, sort-perm,
  All-perm,
}
use aero_arc_testing_harness.Fixture.Types.{Decoded, decoded}
use aero_arc_testing_harness.Reports.Types.{TestResult, Summary, GoTestEvent}
use aero_arc_testing_harness.Reports.Parse.{
  is_parent, closed, test_key, begin_summary, begin_parsing, summarize, parse,
}
use aero_arc_testing_harness.Reports.Reading.{read_all, lookup-read_all, history}
use aero_arc_testing_harness.Reports.Listing.{leaves, Lists-collect, leaves-perm}
use aero_arc_testing_harness.Reports.Summaries.{Ranges, parse-ok, results-IsResult}

-- No other test of the package, as far as `find` finds it by its key, has a name below this one's.
abbrev pub IsLeaf : (Text → Option TestResult) → Text → TestResult → Type 0
IsLeaf find key r =
    (other_key : Text) (other : TestResult)
    → find other_key ≡ some other
    → key ≢ other_key
    → r.pkg ≡ other.pkg
    → has_prefix other.name (r.name ++ text "/") ≡ false

is_parent-IsLeaf :
    (key : Text) (r : TestResult) (m : Dict TestResult)
    → is_parent key r m ≡ false
    → IsLeaf (λ k. lookup k m) key r
unfolding is_parent lookup
is_parent-IsLeaf key r [] h other_key other found differ same = cc
is_parent-IsLeaf key r ((k, t) ∷ m) h other_key other found differ same =
    elim (Bool-cases (text_eq k other_key)) [
      | inl here ↦
          ground (arith, text_eq_iff k other_key, text_eq_iff key k, text_eq_iff r.pkg t.pkg)
      | inr there ↦
          is_parent-IsLeaf key r m (ground arith) other_key other (ground arith) differ same
    ]

IsLeaf-is_parent :
    (key : Text) (r : TestResult) (m : Dict TestResult)
    → Distinct m
    → IsLeaf (λ k. lookup k m) key r
    → is_parent key r m ≡ false
unfolding is_parent lookup
IsLeaf-is_parent key r [] d h = refl
IsLeaf-is_parent key r ((k, t) ∷ m) d h =
    let this = h k t (rw (text_eq_refl k) refl) in
    let rest : IsLeaf (λ j. lookup j m) key r = λ j other found. h j other (
      rw (text_eq-ne k j (λ (e : k ≡ j). let f = subst (λ i. lookup i m ≡ none) e d.0 in cc))
        found) in
    ground
      (arith, text_eq_iff key k, text_eq_iff r.pkg t.pkg, this, IsLeaf-is_parent key r m d.1 rest)

leaves-listed :
    (all_results m : Dict TestResult) (key : Text) (r : TestResult)
    → lookup key m ≡ some r
    → is_parent key r all_results ≡ false
    → Mem (closed r) (leaves all_results m)
unfolding lookup
leaves-listed all_results [] key r found leaf = cc
leaves-listed all_results ((k, t) ∷ m) key r found leaf = elim (Bool-cases (text_eq k key)) [
  | inl here ↦
      let e : t ≡ r = ground arith in
      let i = (text_eq_iff k key).0 here in
      let leaf' : is_parent k t all_results ≡ false = rw (e, i) leaf in
      rw leaf' (mem-cons.1 (Or.inl (ap closed (sym e))))
  | inr there ↦
      let ih = leaves-listed all_results m key r (ground arith) leaf in
      elim (Bool-cases (is_parent k t all_results)) [
        | inl parent ↦ rw parent ih
        | inr other ↦ rw other (mem-cons.1 (Or.inr ih))
      ]
]

-- Where a listed result comes from.
abbrev Comes : Dict TestResult → TestResult → Type 0
Comes all_results t =
    (key : Text) × (r : TestResult) × (lookup key all_results ≡ some r)
    × (is_parent key r all_results ≡ false)
    × (t ≡ closed r)

leaves-Comes :
    (all_results m : Dict TestResult)
    → All (λ (e : Text × TestResult). lookup e.0 all_results ≡ some e.1) m
    → All (Comes all_results) (leaves all_results m)
leaves-Comes all_results [] h = tt
leaves-Comes all_results ((key, r) ∷ m) h = elim (Bool-cases (is_parent key r all_results)) [
  | inl parent ↦ rw parent (leaves-Comes all_results m h.1)
  | inr leaf ↦ rw leaf ((key, r, h.0, leaf, refl), leaves-Comes all_results m h.1)
]

-- The tests of a summary are those that no other test of the stream stands below.
pub record IsListing (es : List GoTestEvent) (tests : List TestResult) : Type 0 where
  pub complete :
      (key : Text) (r : TestResult)
      → history key es ≡ some r
      → IsLeaf (λ k. history k es) key r
      → Mem (closed r) tests
  pub sound :
      All
        (λ t.
          (key : Text) × (r : TestResult) × (history key es ≡ some r)
          × IsLeaf (λ k. history k es) key r
          × (t ≡ closed r))
        tests

-- The map holds what each test's own events make of it.
lookup-history :
    (key : Text) (es : List GoTestEvent)
    → lookup key (read_all es begin_parsing).results ≡ history key es
unfolding lookup
lookup-history key es = lookup-read_all key es begin_parsing

IsLeaf-history :
    (es : List GoTestEvent) (key : Text) (r : TestResult)
    → IsLeaf (λ k. history k es) key r
    → IsLeaf (λ k. lookup k (read_all es begin_parsing).results) key r
IsLeaf-history es key r h other_key other found =
    h other_key other (sym (lookup-history other_key es) ∙ found)

history-IsLeaf :
    (es : List GoTestEvent) (key : Text) (r : TestResult)
    → IsLeaf (λ k. lookup k (read_all es begin_parsing).results) key r
    → IsLeaf (λ k. history k es) key r
history-IsLeaf es key r h other_key other found =
    h other_key other (lookup-history other_key es ∙ found)

leaves-IsListing :
    (es : List GoTestEvent) (range : Dict TestResult → Dict TestResult)
    → Ranges range
    → let m = (read_all es begin_parsing).results in
      IsListing es (sort test_key pair_less (leaves m (range m)))
leaves-IsListing es range ranges =
    let m = (read_all es begin_parsing).results in
    let (valid, d) = results-IsResult es in
    let own =
      All-perm (λ e. lookup e.0 m ≡ some e.1) (λ e. hlevel) m (range m) (Perm.symm (ranges m))
        (lookup-own m d) in
    record {
      complete = λ key r found leaf.
          let here =
            leaves-listed m m key r (lookup-history key es ∙ found)
              (IsLeaf-is_parent key r m d (IsLeaf-history es key r leaf)) in
          (Perm.mem_iff (sort-perm test_key pair_less (leaves m (range m)))).1
            ((Perm.mem_iff (leaves-perm m (range m) m (ranges m))).1 here);
      sound = All-sort test_key pair_less _ _ (
          All-map (Comes m) _
            (λ t (key, r, found, leaf, e). (
              key,
              r,
              sym (lookup-history key es) ∙ found,
              history-IsLeaf es key r (is_parent-IsLeaf key r m leaf),
              e,
            ))
            (leaves m (range m)) (leaves-Comes m (range m) own));
    }

-- If Parse succeeds, all lines of the stream decode, and the summary lists exactly the tests that
-- have events while no other test of their package has a name below theirs, each as what
-- its own events make of it, closed as failed if they do not end it.
pub parse-lists :
    (now : ℤ) (run_id : Text) (range : Dict TestResult → Dict TestResult)
    (lines : List (Decoded GoTestEvent)) (scan_error : Option Text) (s : Summary)
    → Ranges range
    → parse now run_id range lines scan_error ≡ ok s
    → (es : List GoTestEvent) × (lines ≡ map (λ e. decoded e) es) × IsListing es s.tests
unfolding summarize
parse-lists now run_id range lines scan_error s ranges h =
    let (es, split, clean, e) = parse-ok now run_id range lines scan_error s h in
    let p = read_all es begin_parsing in
    let c = Lists-collect p.results (range p.results) (begin_summary now run_id p.duration) in
    (es, split, rw (e, c.tests) (leaves-IsListing es range ranges))
