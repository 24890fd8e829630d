-- ===== src/Reports/Listing.antt =====
-- What Parse of reports/report.go lists and counts.
use mathlib.Core.List.Perm
use mathlib.Core.List.{append-nil, append_assoc, Perm, Permᴰ, Perm-prop, Pairwise}
use mathlib.Core.Logic.{∥∥₁_elim}
use aero_arc_testing_harness.Prelude.{
  ◌+◌, ◌≡◌, ◌≢◌, refl, sym, ◌∙◌, ap, arith, Bool, true, ◌&&◌, not, List, [], ◌∷◌, ◌++◌, inl, inr,
  Text, text_eq, text_eq_iff, if◌then◌else◌, Dict, All, Distinct, Bool-cases, length, count,
  All-mem, All-of_mem, subst, lookup-none,
}
use aero_arc_testing_harness.Reports.Types.{TestResult, Summary}
use aero_arc_testing_harness.Reports.Parse.{
  pass, skip, running, result_key, is_terminal, is_parent, closed, add_test, collect, test_key,
}
use aero_arc_testing_harness.Reports.Reading.{IsResult}

abbrev pub has_status : Text → TestResult → Bool
has_status status r = text_eq r.status status

-- Neither passed nor skipped.
abbrev pub has_failed : TestResult → Bool
has_failed r = not (text_eq r.status pass) && not (text_eq r.status skip)

-- The results that are no parents, closed.
abbrev pub leaves : Dict TestResult → Dict TestResult → List TestResult
leaves all_results [] = []
leaves all_results ((key, r) ∷ rest) =
    if is_parent key r all_results
    then leaves all_results rest
    else closed r ∷ leaves all_results rest

-- A summary that lists these tests more than another one.
pub record Lists (s : Summary) (l : List TestResult) (t : Summary) : Type 0 where
  pub tests : t.tests ≡ s.tests ++ l
  pub passed : t.passed ≡ s.passed + count (has_status pass) l
  pub skipped : t.skipped ≡ s.skipped + count (has_status skip) l
  pub counted : t.passed + t.failed + t.skipped ≡ s.passed + s.failed + s.skipped + length l
  pub failed : t.failed ≡ s.failed + count has_failed l
  pub run_id : t.run_id ≡ s.run_id
  pub generated_at : t.generated_at ≡ s.generated_at
  pub duration : t.duration ≡ s.duration
  pub checkpoints : t.checkpoints ≡ s.checkpoints

add_test-parts :
    (r : TestResult) (s : Summary)
    → ((add_test r s).tests ≡ s.tests ++ r ∷ [])
      × ((add_test r s).passed ≡ s.passed + (if has_status pass r then 1 else 0))
      × ((add_test r s).skipped ≡ s.skipped + (if has_status skip r then 1 else 0))
      × ((add_test r s).passed + (add_test r s).failed + (add_test r s).skipped
          ≡ s.passed + s.failed + s.skipped + 1)
      × ((add_test r s).failed ≡ s.failed + (if has_failed r then 1 else 0))
      × ((add_test r s).run_id ≡ s.run_id)
      × ((add_test r s).generated_at ≡ s.generated_at)
      × ((add_test r s).duration ≡ s.duration)
      × ((add_test r s).checkpoints ≡ s.checkpoints)
unfolding add_test text_eq
add_test-parts r s = elim (Bool-cases (text_eq r.status pass)) [
  | inl passed ↦
      rw (passed, (text_eq_iff r.status pass).0 passed)
        (refl, refl, omega arith, omega arith, omega arith, refl, refl, refl, refl)
  | inr other ↦ elim (Bool-cases (text_eq r.status skip)) [
    | inl skipped ↦
        rw (other, skipped)
          (refl, omega arith, refl, omega arith, omega arith, refl, refl, refl, refl)
    | inr neither ↦
        rw (other, neither)
          (refl, omega arith, omega arith, omega arith, refl, refl, refl, refl, refl)
  ]
]

Lists-cons :
    (s : Summary) (r : TestResult) (l : List TestResult) (t : Summary)
    → Lists (add_test r s) l t
    → Lists s (r ∷ l) t
Lists-cons s r l t h =
    let (ts, ps, sk, co, fa, ru, ge, du, ch) = add_test-parts r s in
    record {
      tests = h.tests ∙ ap (λ x. x ++ l) ts ∙ append_assoc s.tests (r ∷ []) l;
      passed = omega (arith, h.passed, ps);
      skipped = omega (arith, h.skipped, sk);
      counted = omega (arith, h.counted, co);
      failed = omega (arith, h.failed, fa);
      run_id = h.run_id ∙ ru;
      generated_at = h.generated_at ∙ ge;
      duration = h.duration ∙ du;
      checkpoints = h.checkpoints ∙ ch;
    }

pub Lists-collect :
    (all_results m : Dict TestResult) (s : Summary)
    → Lists s (leaves all_results m) (collect all_results m s)
unfolding collect
Lists-collect all_results [] s = record {
  tests = sym (append-nil s.tests);
  passed = omega arith;
  skipped = omega arith;
  counted = omega arith;
  failed = omega arith;
  run_id = refl;
  generated_at = refl;
  duration = refl;
  checkpoints = refl;
}
Lists-collect all_results ((key, r) ∷ m) s = elim (Bool-cases (is_parent key r all_results)) [
  | inl parent ↦ rw parent (Lists-collect all_results m s)
  | inr leaf ↦
      rw leaf (Lists-cons s (closed r) _ _ (Lists-collect all_results m (add_test (closed r) s)))
]

closed-is_terminal :
    (entry : Text × TestResult) → IsResult entry → is_terminal (closed entry.1).status ≡ true
unfolding closed
closed-is_terminal (key, r) h = elim (Bool-cases (text_eq r.status running)) [
  | inl open_end ↦ rw (closed, open_end) (unfold is_terminal text_eq in refl)
  | inr ended ↦ rw (closed, ended) (let v = h.valid in rw ended at v)
]

pub leaves-ended :
    (all_results m : Dict TestResult)
    → All IsResult m
    → All (λ r. is_terminal r.status ≡ true) (leaves all_results m)
leaves-ended all_results [] h = tt
leaves-ended all_results ((key, r) ∷ m) h = elim (Bool-cases (is_parent key r all_results)) [
  | inl parent ↦ rw parent (leaves-ended all_results m h.1)
  | inr leaf ↦ rw leaf (closed-is_terminal (key, r) h.0, leaves-ended all_results m h.1)
]

leaves-permᴰ :
    (all_results : Dict TestResult) {l m : Dict TestResult}
    → Permᴰ l m
    → Perm (leaves all_results l) (leaves all_results m)
leaves-permᴰ all_results Permᴰ.nil = Perm.rfl
leaves-permᴰ all_results (Permᴰ.cons {a = (k, r)} {l₁} {l₂} e p) =
    subst
      (λ (b : Text × TestResult).
        Perm (leaves all_results ((k, r) ∷ l₁)) (leaves all_results (b ∷ l₂)))
      e
      (elim (Bool-cases (is_parent k r all_results)) [
        | inl parent ↦ rw parent (leaves-permᴰ all_results p)
        | inr leaf ↦ rw leaf (Perm.cons (closed r) (leaves-permᴰ all_results p))
      ])
leaves-permᴰ all_results (Permᴰ.swap {a = (k, r)} {b = (j, t)} {b' = last} {l} e f) =
    subst
      (λ (a : Text × TestResult).
        Perm (leaves all_results ((k, r) ∷ (j, t) ∷ l)) (leaves all_results (a ∷ last ∷ l)))
      f
      (subst
        (λ (b : Text × TestResult).
          Perm (leaves all_results ((k, r) ∷ (j, t) ∷ l)) (leaves all_results ((j, t) ∷ b ∷ l)))
        e
        (elim (Bool-cases (is_parent k r all_results)) [
          | inl parent ↦ rw parent Perm.rfl
          | inr leaf ↦ elim (Bool-cases (is_parent j t all_results)) [
            | inl parent ↦ rw (leaf, parent) Perm.rfl
            | inr other ↦ rw (leaf, other) (Perm.swap (closed t) (closed r) (leaves all_results l))
          ]
        ]))
leaves-permᴰ all_results (Permᴰ.trans p q) =
    Perm.trans (leaves-permᴰ all_results p) (leaves-permᴰ all_results q)

pub leaves-perm :
    (all_results l m : Dict TestResult)
    → Perm l m
    → Perm (leaves all_results l) (leaves all_results m)
leaves-perm all_results l m p = ∥∥₁_elim p Perm-prop (leaves-permᴰ all_results)

-- Two entries for different tests.
abbrev pub Separate : Text × TestResult → Text × TestResult → Type 0
Separate a b = test_key a.1 ≢ test_key b.1

pub Pairwise-Separate : (m : Dict TestResult) → All IsResult m → Distinct m → Pairwise Separate m
Pairwise-Separate [] h d = Pairwise.nil
Pairwise-Separate ((key, r) ∷ m) h d =
    Pairwise.cons
      (λ (j, t) listed same.
        let there = All-mem IsResult (λ e. hlevel) m h.1 (j, t) listed in
        let one_key : key ≡ j =
          h.0.keyed ∙ ap (λ (k : Text × Text). result_key k.0 k.1) same ∙ sym there.keyed in
        All-mem (λ (e : Text × TestResult). key ≢ e.0) (λ e. hlevel) m (lookup-none key m d.0)
          (j, t) listed one_key)
      (Pairwise-Separate m h.1 d.1)

test_key-closed : (r : TestResult) → test_key (closed r) ≡ test_key r
unfolding closed
test_key-closed r = ground arith

leaves-differ :
    (all_results m : Dict TestResult) (r : TestResult)
    → All (λ (e : Text × TestResult). test_key r ≢ test_key e.1) m
    → All (λ y. test_key (closed r) ≢ test_key y) (leaves all_results m)
leaves-differ all_results [] r h = tt
leaves-differ all_results ((key, t) ∷ m) r h = elim (Bool-cases (is_parent key t all_results)) [
  | inl parent ↦ rw parent (leaves-differ all_results m r h.1)
  | inr leaf ↦ rw leaf (
    λ same. h.0 (sym (test_key-closed r) ∙ same ∙ test_key-closed t),
    leaves-differ all_results m r h.1,
  )
]

pub Pairwise-leaves :
    (all_results m : Dict TestResult)
    → Pairwise Separate m
    → Pairwise (λ a b. test_key a ≢ test_key b) (leaves all_results m)
Pairwise-leaves all_results [] d = Pairwise.nil
Pairwise-leaves all_results ((key, r) ∷ m) (Pairwise.cons h d) =
    elim (Bool-cases (is_parent key r all_results)) [
      | inl parent ↦ rw parent (Pairwise-leaves all_results m d)
      | inr leaf ↦ rw leaf (
          Pairwise.cons
            (All-mem (λ y. test_key (closed r) ≢ test_key y) (λ y. hlevel) (leaves all_results m)
              (leaves-differ all_results m r (All-of_mem _ m h)))
            (Pairwise-leaves all_results m d))
    ]
