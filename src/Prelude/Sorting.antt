-- ===== src/Prelude/Sorting.antt =====
-- sort.Slice and its kin: a list by the keys of its elements, under a strict order of the keys.
-- Where no two keys are the same, the result does not hang on the algorithm.
use mathlib.Core.Path.{◌≡◌, refl, sym, ap, ◌∙◌}
use mathlib.Core.Logic.{◌≢◌, inl, inr, ∥∥₁_elim}
use mathlib.Core.Logic.Or
use mathlib.Core.Bool.{Bool, true, false}
use mathlib.Core.List.{List, [], ◌∷◌, Perm, Permᴰ, Pairwise, mem-cons, Pairwise-singleton}
use mathlib.Core.List.Perm
use mathlib.Core.List.Permᴰ
use Prim.Native.Nat.{suc}
use native.Mathlib.Omega.{arith}
use aero_arc_testing_harness.Prelude.Tests.{if◌then◌else◌, Bool-cases}
use aero_arc_testing_harness.Prelude.Lists.{All, count, length}

pub record IsStrictOrder {ℓ} {K : Type ℓ} (less : K → K → Bool) : Type ℓ where
  pub asym : (a b : K) → less a b ≡ true → less b a ≡ false
  pub trans : (a b c : K) → less a b ≡ true → less b c ≡ true → less a c ≡ true
  pub connected : (a b : K) → less a b ≡ false → less b a ≡ false → a ≡ b

module _ {ℓ κ} {A : Type ℓ} {K : Type κ} (key : A → K) (less : K → K → Bool) where
  unfoldable pub ordered_insert : A → List A → List A
  ordered_insert x [] = x ∷ []
  ordered_insert x (y ∷ l) = if less (key x) (key y) then x ∷ y ∷ l else y ∷ ordered_insert x l

  unfoldable pub sort : List A → List A
  unfolding ordered_insert
  sort [] = []
  sort (x ∷ l) = ordered_insert x (sort l)

  ordered_insert-perm : (x : A) (l : List A) → Perm (ordered_insert x l) (x ∷ l)
  unfolding ordered_insert
  ordered_insert-perm x [] = Perm.rfl
  ordered_insert-perm x (y ∷ l) = elim (Bool-cases (less (key x) (key y))) [
    | inl e ↦ rw e Perm.rfl
    | inr e ↦ rw e (Perm.trans (Perm.cons y (ordered_insert-perm x l)) (Perm.swap x y l))
  ]

  pub sort-perm : (l : List A) → Perm (sort l) l
  unfolding sort
  sort-perm [] = Perm.rfl
  sort-perm (x ∷ l) = Perm.trans (ordered_insert-perm x (sort l)) (Perm.cons x (sort-perm l))

  count-ordered_insert :
      (p : A → Bool) (x : A) (l : List A) → count p (ordered_insert x l) ≡ count p (x ∷ l)
  unfolding ordered_insert
  count-ordered_insert p x [] = refl
  count-ordered_insert p x (y ∷ l) = elim (Bool-cases (less (key x) (key y))) [
    | inl e ↦ rw e refl
    | inr e ↦ rw e (omega (arith, count-ordered_insert p x l))
  ]

  pub count-sort : (p : A → Bool) (l : List A) → count p (sort l) ≡ count p l
  unfolding sort
  count-sort p [] = refl
  count-sort p (x ∷ l) = omega (arith, count-ordered_insert p x (sort l), count-sort p l)

  length-ordered_insert : (x : A) (l : List A) → length (ordered_insert x l) ≡ suc (length l)
  unfolding ordered_insert
  length-ordered_insert x [] = refl
  length-ordered_insert x (y ∷ l) = elim (Bool-cases (less (key x) (key y))) [
    | inl e ↦ rw e refl
    | inr e ↦ rw e (ap suc (length-ordered_insert x l))
  ]

  pub length-sort : (l : List A) → length (sort l) ≡ length l
  unfolding sort
  length-sort [] = refl
  length-sort (x ∷ l) = length-ordered_insert x (sort l) ∙ ap suc (length-sort l)

  All-ordered_insert {μ} :
      (P : A → Type μ) (x : A) (l : List A) → P x → All P l → All P (ordered_insert x l)
  unfolding ordered_insert
  All-ordered_insert P x [] px h = (px, tt)
  All-ordered_insert P x (y ∷ l) px h = elim (Bool-cases (less (key x) (key y))) [
    | inl e ↦ rw e (px, h)
    | inr e ↦ rw e (h.0, All-ordered_insert P x l px h.1)
  ]

  pub All-sort {μ} : (P : A → Type μ) (l : List A) → All P l → All P (sort l)
  unfolding sort
  All-sort P [] h = h
  All-sort P (x ∷ l) h = All-ordered_insert P x (sort l) h.0 (All-sort P l h.1)

  -- No element comes before one that its key is less than.
  abbrev pub IsAscending : List A → Type ℓ
  IsAscending = Pairwise (λ x y. less (key y) (key x) ≡ false)

  -- Two elements with different keys.
  abbrev pub Differ : A → A → Type κ
  Differ x y = key x ≢ key y

  module _ (o : IsStrictOrder less) where
    insert_comm :
        (x y : A) (l : List A)
        → Differ x y
        → ordered_insert x (ordered_insert y l) ≡ ordered_insert y (ordered_insert x l)
    unfolding ordered_insert
    insert_comm x y [] d = ground (arith, o.asym (key x) (key y), o.connected (key x) (key y))
    insert_comm x y (z ∷ l) d =
        let a = key x in
        let b = key y in
        let c = key z in
        ground (
          arith,
          o.asym a b,
          o.connected a b,
          o.trans a b c,
          o.trans b a c,
          o.trans a c b,
          o.trans b c a,
          o.asym c a,
          o.asym c b,
          insert_comm x y l,
        )

    sort-permᴰ : {l r : List A} → Permᴰ l r → Pairwise Differ l → sort l ≡ sort r
    unfolding sort
    sort-permᴰ Permᴰ.nil d = refl
    sort-permᴰ (Permᴰ.cons e p) (Pairwise.cons h d) = rw (e, sort-permᴰ p d) refl
    sort-permᴰ (Permᴰ.swap {a} {b} {l} e f) (Pairwise.cons h d) =
        insert_comm a b (sort l) (h b (mem-cons.1 (Or.inl refl))) ∙ rw (e, f) refl
    sort-permᴰ (Permᴰ.trans p q) d =
        sort-permᴰ p d ∙ sort-permᴰ q (Permᴰ.pairwise (λ x y. hlevel) (λ x y n e. n (sym e)) p d)

    list_set : IsSet A → IsSet (List A)
    list_set set = hlevel

    -- Lists of the same elements with different keys are sorted into one list.
    pub sort-perm-eq : IsSet A → (l r : List A) → Perm l r → Pairwise Differ l → sort l ≡ sort r
    sort-perm-eq set l r p d = ∥∥₁_elim p (list_set set _ _) (λ q. sort-permᴰ q d)

    insert-IsAscending : (x : A) (l : List A) → IsAscending l → IsAscending (ordered_insert x l)
    unfolding ordered_insert
    insert-IsAscending x [] Pairwise.nil = Pairwise-singleton _ x
    insert-IsAscending x (y ∷ l) (Pairwise.cons h s) = elim (Bool-cases (less (key x) (key y))) [
      | inl e ↦ rw e (
          Pairwise.cons
            (λ z m.
              Or.elim (hlevel) (mem-cons.0 m) (λ (same : z ≡ y). rw same (o.asym (key x) (key y) e))
                (λ n. ground (arith, o.trans (key z) (key x) (key y), h z n)))
            (Pairwise.cons h s))
      | inr e ↦ rw e (
          Pairwise.cons
            (λ z m.
              Or.elim (hlevel) (mem-cons.0 ((Perm.mem_iff (ordered_insert-perm x l)).0 m))
                (λ (same : z ≡ x). rw same e) (h z))
            (insert-IsAscending x l s))
    ]

    pub sort-IsAscending : (l : List A) → IsAscending (sort l)
    unfolding sort
    sort-IsAscending [] = Pairwise.nil
    sort-IsAscending (x ∷ l) = insert-IsAscending x (sort l) (sort-IsAscending l)
