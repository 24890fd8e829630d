-- ===== src/Prelude/Decimal.antt =====
-- The decimal numeral of an int (`%d`), and what a numeral stands for.
use Prim.Native.Nat.{ℕ, zero, suc, ◌+◌, ◌-◌, ◌*◌, ◌/◌, ◌%◌, ◌<◌, ◌≤◌}
use mathlib.Core.Path.{◌≡◌, refl, ap, sym, ◌∙◌}
use mathlib.Core.Logic.{inl, inr}
use mathlib.Core.List.{[], ◌∷◌, ◌++◌}
use native.Mathlib.Omega.{arith}
use aero_arc_testing_harness.Prelude.Tests.{ltb, if◌then◌else◌, Bool-cases}
use aero_arc_testing_harness.Prelude.Int.{ℤ, pos, negsuc}
use aero_arc_testing_harness.Prelude.Strings.{Text, text}

-- One digit for each round; a number below the fuel has its whole numeral.
digits : ℕ → ℕ → Text
digits zero n = []
digits (suc fuel) n =
    let front = digits fuel (n / 10) in
    if ltb n 10 then (b'0' + n) ∷ [] else front ++ (b'0' + n % 10) ∷ []

unfoldable pub decimal : ℕ → Text
unfolding digits
decimal n = digits (suc n) n

-- What a numeral stands for, after the digits read so far.
unfoldable pub value_from : ℕ → Text → ℕ
value_from acc [] = acc
value_from acc (c ∷ cs) = value_from (acc * 10 + (c - b'0')) cs

value_from-snoc :
    (acc c : ℕ) (xs : Text) → value_from acc (xs ++ c ∷ []) ≡ value_from acc xs * 10 + (c - b'0')
unfolding value_from
value_from-snoc acc c [] = refl
value_from-snoc acc c (x ∷ xs) = value_from-snoc (acc * 10 + (x - b'0')) c xs

value_from-digits : (fuel n : ℕ) → n < fuel → value_from 0 (digits fuel n) ≡ n
unfolding digits
value_from-digits zero n h = elim h [ ]
value_from-digits (suc fuel) n h = elim (Bool-cases (ltb n 10)) [
  | inl small ↦ rw small (unfold value_from in omega arith)
  | inr large ↦
      rw (large, value_from-snoc 0 (b'0' + n % 10) (digits fuel (n / 10)))
        (ground (arith, value_from-digits fuel (n / 10)))
]

-- The numeral of a number stands for that number.
pub value_from-decimal : (n : ℕ) → value_from 0 (decimal n) ≡ n
unfolding decimal
value_from-decimal n = value_from-digits (suc n) n (omega arith)

pub decimal-injective : (m n : ℕ) → decimal m ≡ decimal n → m ≡ n
decimal-injective m n h = sym (value_from-decimal m) ∙ ap (value_from 0) h ∙ value_from-decimal n

-- A byte that is a decimal digit.
abbrev pub IsDigit : ℕ → Type 0
IsDigit c = (b'0' ≤ c) × (c ≤ b'9')

digits-cons : (fuel n : ℕ) → n < fuel → (c : ℕ) × (cs : Text) × (digits fuel n ≡ c ∷ cs) × IsDigit c
unfolding digits
digits-cons zero n h = elim h [ ]
digits-cons (suc fuel) n h = elim (Bool-cases (ltb n 10)) [
  | inl small ↦ (b'0' + n, [], rw small, ground arith)
  | inr large ↦
      let (c, cs, e, d) = digits-cons fuel (n / 10) (ground arith) in
      (c, cs ++ (b'0' + n % 10) ∷ [], rw (large, e), d)
]

unfoldable pub decimal_int : ℤ → Text
decimal_int (pos n) = decimal n
decimal_int (negsuc n) = b'-' ∷ decimal (suc n)

decimal-ne-minus : (n : ℕ) (t : Text) → decimal n ≡ b'-' ∷ t → ⊥
unfolding decimal
decimal-ne-minus n t e = let (c, cs, e', d) = digits-cons (suc n) n (omega arith) in ground arith

pub decimal_int-injective : (x y : ℤ) → decimal_int x ≡ decimal_int y → x ≡ y
unfolding decimal_int
decimal_int-injective (pos m) (pos n) h = ap pos (decimal-injective m n h)
decimal_int-injective (pos m) (negsuc n) h = absurd (decimal-ne-minus m _ h)
decimal_int-injective (negsuc m) (pos n) h = absurd (decimal-ne-minus n _ (sym h))
decimal_int-injective (negsuc m) (negsuc n) h = ground (arith, decimal-injective (suc m) (suc n))

decimal_int_example : decimal_int (negsuc 41) ≡ text "-42"
unfolding decimal_int decimal
decimal_int_example = refl
