-- ===== src/Prelude/Entries.antt =====
-- Properties of all entries of a map, and of its keys.
use mathlib.Core.Path.{◌≡◌, refl, subst}
use mathlib.Core.Option.{none, some}
use mathlib.Core.List.{[], ◌∷◌}
use native.Mathlib.Omega.{arith}
use aero_arc_testing_harness.Prelude.Tests.{Bool-cases}
use mathlib.Core.Logic.{inl, inr}
use aero_arc_testing_harness.Prelude.Lists.{All}
use aero_arc_testing_harness.Prelude.Strings.{Text, text_eq, text_eq_iff}
use aero_arc_testing_harness.Prelude.Maps.{Dict, lookup, insert, erase, lookup-insert, lookup-erase}

module _ {ℓ κ} {V : Type ℓ} (P : Text × V → Type κ) where
  pub All-insert : (k : Text) (v : V) (m : Dict V) → P (k, v) → All P m → All P (insert k v m)
  unfolding insert
  All-insert k v [] p h = (p, tt)
  All-insert k v ((j, w) ∷ m) p h = elim (Bool-cases (text_eq j k)) [
    | inl e ↦ rw e (p, h.1)
    | inr e ↦ rw e (h.0, All-insert k v m p h.1)
  ]

  pub All-erase : (k : Text) (m : Dict V) → All P m → All P (erase k m)
  unfolding erase
  All-erase k [] h = tt
  All-erase k ((j, w) ∷ m) h = elim (Bool-cases (text_eq j k)) [
    | inl e ↦ rw e (All-erase k m h.1)
    | inr e ↦ rw e (h.0, All-erase k m h.1)
  ]

  pub lookup-All : (k : Text) {v : V} (m : Dict V) → All P m → lookup k m ≡ some v → P (k, v)
  unfolding lookup
  lookup-All k [] h e = cc
  lookup-All k {v} ((j, w) ∷ m) h e = elim (Bool-cases (text_eq j k)) [
    | inl same ↦
        let jk : j ≡ k = (text_eq_iff j k).0 same in
        let wv : w ≡ v = ground arith in subst P (λ i. (jk i, wv i)) h.0
    | inr other ↦ lookup-All k m h.1 (ground arith)
  ]

-- No key stands twice.
abbrev pub Distinct {ℓ} : {V : Type ℓ} → Dict V → Type ℓ
Distinct [] = Unit
Distinct ((k, v) ∷ m) = (lookup k m ≡ none) × Distinct m

module _ {ℓ} {V : Type ℓ} where
  pub insert-Distinct : (k : Text) (v : V) (m : Dict V) → Distinct m → Distinct (insert k v m)
  unfolding insert
  insert-Distinct k v [] h = (unfold lookup in refl, tt)
  insert-Distinct k v ((j, w) ∷ m) h = elim (Bool-cases (text_eq j k)) [
    | inl e ↦ rw e (subst (λ x. lookup x m ≡ none) ((text_eq_iff j k).0 e) h.0, h.1)
    | inr e ↦ rw e (
      ground (arith, lookup-insert k j v m, text_eq_iff j k, text_eq_iff k j),
      insert-Distinct k v m h.1,
    )
  ]

  pub erase-Distinct : (k : Text) (m : Dict V) → Distinct m → Distinct (erase k m)
  unfolding erase
  erase-Distinct k [] h = tt
  erase-Distinct k ((j, w) ∷ m) h = elim (Bool-cases (text_eq j k)) [
    | inl e ↦ rw e (erase-Distinct k m h.1)
    | inr e ↦ rw e (ground (arith, lookup-erase k j m), erase-Distinct k m h.1)
  ]
