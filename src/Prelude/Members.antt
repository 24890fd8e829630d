-- ===== src/Prelude/Members.antt =====
-- The predicate by recursion `All` against the library's membership and permutations.
use Prim.Native.Nat.{ℕ}
use mathlib.Core.Path.{◌≡◌, refl, sym, subst, ap, ◌∙◌}
use mathlib.Core.Logic.{◌≢◌, ∥∥₁_elim}
use mathlib.Core.Logic.Or
use mathlib.Core.Option.{none, some}
use mathlib.Core.List.{List, [], ◌∷◌, Mem, Perm, Permᴰ, Pairwise, mem-cons, not-mem-nil}
use native.Mathlib.Omega.{arith}
use aero_arc_testing_harness.Prelude.Lists.{All, sum_of}
use aero_arc_testing_harness.Prelude.Entries.{Distinct}
use aero_arc_testing_harness.Prelude.Strings.{Text, text_eq_iff, text_eq_refl, text_eq-ne}
use aero_arc_testing_harness.Prelude.Maps.{Dict, lookup}

module _ {ℓ κ} {A : Type ℓ} (P : A → Type κ) (prop : (x : A) → IsProp (P x)) where
  pub All-mem : (l : List A) → All P l → (x : A) → Mem x l → P x
  All-mem [] h x m = absurd (not-mem-nil m)
  All-mem (y ∷ l) h x m =
      Or.elim (prop x) (mem-cons.0 m) (λ (e : x ≡ y). subst P (sym e) h.0) (All-mem l h.1 x)

  All-prop : (l : List A) → IsProp (All P l)
  All-prop [] a b = refl
  All-prop (x ∷ l) a b = λ i. (prop x a.0 b.0 i, All-prop l a.1 b.1 i)

  All-permᴰ : {l r : List A} → Permᴰ l r → All P l → All P r
  All-permᴰ Permᴰ.nil h = h
  All-permᴰ (Permᴰ.cons e p) h = (subst P e h.0, All-permᴰ p h.1)
  All-permᴰ (Permᴰ.swap e f) h = (subst P f h.1.0, (subst P e h.0, h.1.1))
  All-permᴰ (Permᴰ.trans p q) h = All-permᴰ q (All-permᴰ p h)

  pub All-perm : (l r : List A) → Perm l r → All P l → All P r
  All-perm l r p h = ∥∥₁_elim p (All-prop r) (λ q. All-permᴰ q h)

-- A key that is not found is none of the keys.
pub lookup-none {ℓ} :
    {V : Type ℓ} (k : Text) (m : Dict V) → lookup k m ≡ none → All (λ (x : Text × V). k ≢ x.0) m
unfolding lookup
lookup-none k [] h = tt
lookup-none k ((j, v) ∷ m) h =
    (λ e. ground (arith, text_eq_iff j k), lookup-none k m (ground (arith, text_eq_iff j k)))

pub All-of_mem {ℓ κ} :
    {A : Type ℓ} (P : A → Type κ) (l : List A) → ((x : A) → Mem x l → P x) → All P l
All-of_mem P [] h = tt
All-of_mem P (x ∷ l) h =
    (h x (mem-cons.1 (Or.inl refl)), All-of_mem P l (λ y m. h y (mem-cons.1 (Or.inr m))))

module _ {ℓ} {V : Type ℓ} where
  -- The entries of a map whose key another entry does not share are found beside that one.
  own-cons :
      (key : Text) (v : V) (l m : Dict V)
      → All (λ (e : Text × V). key ≢ e.0) l
      → All (λ (e : Text × V). lookup e.0 m ≡ some e.1) l
      → All (λ (e : Text × V). lookup e.0 ((key, v) ∷ m) ≡ some e.1) l
  unfolding lookup
  own-cons key v [] m differ h = tt
  own-cons key v (e ∷ l) m differ h =
      (rw (text_eq-ne key e.0 differ.0) h.0, own-cons key v l m differ.1 h.1)

  -- Every entry is found under its key.
  pub lookup-own : (m : Dict V) → Distinct m → All (λ (e : Text × V). lookup e.0 m ≡ some e.1) m
  unfolding lookup
  lookup-own [] d = tt
  lookup-own ((key, v) ∷ m) d =
      (rw (text_eq_refl key) refl, own-cons key v m m (lookup-none key m d.0) (lookup-own m d.1))

  -- Any two entries have different keys.
  pub Pairwise-Distinct : (m : Dict V) → Distinct m → Pairwise (λ (a b : Text × V). a.0 ≢ b.0) m
  Pairwise-Distinct [] d = Pairwise.nil
  Pairwise-Distinct ((key, v) ∷ m) d =
      Pairwise.cons
        (λ x listed same.
          All-mem (λ (e : Text × V). key ≢ e.0) (λ e. hlevel) m (lookup-none key m d.0) x listed
            same)
        (Pairwise-Distinct m d.1)

module _ {ℓ} {A : Type ℓ} (f : A → ℕ) where
  sum_of-permᴰ : {l r : List A} → Permᴰ l r → sum_of f l ≡ sum_of f r
  sum_of-permᴰ Permᴰ.nil = refl
  sum_of-permᴰ (Permᴰ.cons e p) = omega (arith, ap f e, sum_of-permᴰ p)
  sum_of-permᴰ (Permᴰ.swap e g) = omega (arith, ap f e, ap f g)
  sum_of-permᴰ (Permᴰ.trans p q) = sum_of-permᴰ p ∙ sum_of-permᴰ q

  set : IsSet ℕ
  set = hlevel

  pub sum_of-perm : (l r : List A) → Perm l r → sum_of f l ≡ sum_of f r
  sum_of-perm l r p = ∥∥₁_elim p (set _ _) sum_of-permᴰ
