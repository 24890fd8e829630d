-- ===== src/Stacks/Names.antt =====
-- The names under which containers are registered, for internal/stack/stack.go and
-- internal/realdss/stack.go.
use aero_arc_testing_harness.Prelude.{
  ◌≡◌, refl, subst, ap, inl, inr, Bool, false, ◌||◌, List, [], ◌∷◌, ◌++◌, none, some, Text, text_eq,
  text_eq_iff, Dict, lookup, insert, Bool-cases, All, arith,
}
use aero_arc_testing_harness.Stacks.Upkeep.{keys}

-- Whether a name is one of some names.
abbrev pub listed : Text → List Text → Bool
listed name [] = false
listed name (n ∷ rest) = text_eq n name || listed name rest

module _ {C : Type 0} where
  pub lookup-unlisted :
      (m : Dict C) (name : Text) → listed name (keys m) ≡ false → lookup name m ≡ none
  unfolding lookup
  lookup-unlisted [] name h = refl
  lookup-unlisted ((k, c) ∷ m) name h =
      let rest = lookup-unlisted m name (ground (arith, h)) in ground (arith, rest)

  pub keys-insert :
      (m : Dict C) (name : Text) (c : C)
      → lookup name m ≡ none
      → keys (insert name c m) ≡ keys m ++ name ∷ []
  unfolding insert lookup
  keys-insert [] name c h = refl
  keys-insert ((k, d) ∷ m) name c h = elim (Bool-cases (text_eq k name)) [
    | inl same ↦ let e = rw same at h in cc
    | inr other ↦ rw other (ap (λ l. k ∷ l) (keys-insert m name c (rw other at h)))
  ]

  pub lookup-keys {κ} :
      (P : Text → Type κ) (m : Dict C) (name : Text) {c : C}
      → lookup name m ≡ some c
      → All P (keys m)
      → P name
  unfolding lookup
  lookup-keys P [] name h all = cc
  lookup-keys P ((k, d) ∷ m) name h all = elim (Bool-cases (text_eq k name)) [
    | inl same ↦ subst P ((text_eq_iff k name).0 same) all.0
    | inr other ↦ lookup-keys P m name (rw other at h) all.1
  ]

pub All-prefix {ℓ κ} : {A : Type ℓ} (P : A → Type κ) (xs ys : List A) → All P (xs ++ ys) → All P xs
All-prefix P [] ys h = tt
All-prefix P (x ∷ xs) ys h = (h.0, All-prefix P xs ys h.1)
