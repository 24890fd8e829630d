-- ===== src/Prelude/Outcomes.antt =====
-- The results of calls that can fail.
use mathlib.Core.Path.{◌≡◌, refl}
use mathlib.Core.Logic.{◌⊎◌, inl, inr}
use mathlib.Core.Option.{Option, none, some}
use aero_arc_testing_harness.Prelude.Strings.{Text}

-- What a query or a request gives: a value, or an error.
pub data Outcome {ℓ} (A : Type ℓ) : Type ℓ where
  ok : A → Outcome A
  failed : (error : Text) → Outcome A

pub outcome_cases {ℓ} :
    {A : Type ℓ} (o : Outcome A) → ((e : Text) × (o ≡ failed e)) ⊎ ((a : A) × (o ≡ ok a))
outcome_cases (ok a) = inr (a, refl)
outcome_cases (failed e) = inl (e, refl)

pub ok-injective {ℓ} : {A : Type ℓ} {a b : A} → ok a ≡ ok b → a ≡ b
ok-injective h = cc

infixl 1 ◌>>=◌
abbrev pub ◌>>=◌ {ℓ κ} : {A : Type ℓ} {B : Type κ} → Option A → (A → Option B) → Option B
none >>= f = none
some a >>= f = f a
