-- ===== src/Repeats/Percentile.antt =====
-- Which index aggregate of cmd/e2e-repeat-report/main.go takes for the 95th percentile.
use native.Mathlib.Nat.{
  pow-suc, add-mul, mul_assoc, mod-add-div', mod-lt, mul-le-mul_right, lt_of_mul-lt-mul_right,
}
use aero_arc_testing_harness.Prelude.{
  ℕ, zero, suc, ◌+◌, ◌*◌, ◌/◌, ◌%◌, ◌^◌, ◌≤◌, ◌<◌, ◌≡◌, refl, sym, ◌∙◌, ap, arith, true, inl, inr,
  ◌==◌, ltb, Bool-cases,
}
use aero_arc_testing_harness.Repeats.Aggregate.{
  ninety_five, two_53, exponent, round_even, percentile_index,
}

-- The unit is at most a part of 2 ^ 52.
unit-le :
    (rounds p : ℕ) → 4_503_599_627_370_496 ≤ p → 2 ^ exponent rounds p * 4_503_599_627_370_496 ≤ p
unfolding exponent
unit-le zero p h = omega (arith, h)
unit-le (suc rounds) p h = elim (Bool-cases (ltb p two_53)) [
  | inl small ↦ rw small (omega (arith, h))
  | inr large ↦
      let ih = unit-le rounds (p / 2) (ground arith) in
      rw (large, pow-suc 2 (exponent rounds (p / 2))) (omega (arith, ih))
]

-- The unit divides 2 ^ j where the number is below 2 ^ (53 + j).
unit-divides :
    (rounds p j : ℕ)
    → p < 2 ^ j * 9_007_199_254_740_992
    → (k : ℕ) × (k * 2 ^ exponent rounds p ≡ 2 ^ j)
unfolding exponent
unit-divides zero p j h = (2 ^ j, omega arith)
unit-divides (suc rounds) p zero h =
    let small : ltb p two_53 ≡ true = ground (arith, h) in (1, rw small refl)
unit-divides (suc rounds) p (suc j) h = elim (Bool-cases (ltb p two_53)) [
  | inl small ↦ (2 ^ suc j, rw small (omega arith))
  | inr large ↦
      let wide : p < 2 ^ j * 2 * 9_007_199_254_740_992 = ground (arith, h, pow-suc 2 j) in
      let (k, e) = unit-divides rounds (p / 2) j (omega (arith, wide)) in
      (
        k,
        rw (large, pow-suc 2 (exponent rounds (p / 2)))
            (sym (mul_assoc k (2 ^ exponent rounds (p / 2)) 2)
              ∙ ap (λ t. t * 2) e
              ∙ sym (pow-suc 2 j)),
      )
]

-- Rounding is off by at most half a unit.
round_even-near :
    (unit p : ℕ)
    → 1 ≤ unit
    → (2 * (round_even unit p * unit) ≤ 2 * p + unit)
      × (2 * p ≤ 2 * (round_even unit p * unit) + unit)
unfolding round_even
round_even-near unit p h =
    let parts = mod-add-div' p unit in
    let rest = mod-lt p {m = unit} (omega (arith, h)) in
    let up : (p / unit + 1) * unit ≡ p / unit * unit + unit =
      add-mul (p / unit) 1 unit ∙ omega arith in
    elim (Bool-cases (ltb (2 * (p % unit)) unit)) [
      | inl low ↦ rw low (ground (arith, parts, rest), ground (arith, parts, rest))
      | inr high ↦ elim (Bool-cases (ltb unit (2 * (p % unit)))) [
        | inl higher ↦
            rw (high, higher, up) (ground (arith, parts, rest), ground (arith, parts, rest))
        | inr tie ↦ elim (Bool-cases (p / unit % 2 == 0)) [
          | inl even ↦
              rw (high, tie, even) (ground (arith, parts, rest), ground (arith, parts, rest))
          | inr odd ↦
              rw (high, tie, odd, up) (ground (arith, parts, rest), ground (arith, parts, rest))
        ]
      ]
    ]

power_positive : (e : ℕ) → 1 ≤ 2 ^ e
power_positive zero = omega arith
power_positive (suc e) = omega (arith, power_positive e, pow-suc 2 e)

-- A multiple of the unit that is less than a unit above another is no larger.
at_most_whole :
    (q unit top k : ℕ)
    → k * unit ≡ 9_007_199_254_740_992
    → 20 * (q * unit) < 20 * (top * 9_007_199_254_740_992) + 20 * unit
    → q * unit ≤ top * 9_007_199_254_740_992
at_most_whole q unit top k whole small =
    let scaled : top * k * unit ≡ top * 9_007_199_254_740_992 =
      mul_assoc top k unit ∙ ap (λ t. top * t) whole in
    let next : (top * k + 1) * unit ≡ top * k * unit + unit =
      add-mul (top * k) 1 unit ∙ omega arith in
    let less : q < top * k + 1 = lt_of_mul-lt-mul_right unit (omega (arith, small, scaled, next)) in
    omega (arith, mul-le-mul_right {m = q} {n = top * k} unit (omega (arith, less)), scaled)

percentile_index-scaled :
    (z n : ℕ)
    → 0 < n
    → n < 281_474_976_710_656
    → z ≤ (19 * n + 19) / 20 * 9_007_199_254_740_992
    → (20 * 9_007_199_254_740_992) * ((19 * n + 19) / 20) < 20 * z + 20 * 9_007_199_254_740_992
    → (z + 9_007_199_254_740_991) / 9_007_199_254_740_992 ≡ (19 * n + 19) / 20
percentile_index-scaled z n positive bounded upper lower =
    omega (arith, positive, bounded, upper, lower)

pub percentile_index_lem :
    (n : ℕ) → 0 < n → n < 281_474_976_710_656 → percentile_index n + 1 ≡ (19 * n + 19) / 20
unfolding percentile_index
percentile_index_lem n positive bounded =
    let p = ninety_five * n in
    let unit = 2 ^ exponent 64 p in
    let q = round_even unit p in
    let top = (19 * n + 19) / 20 in
    let narrow = unit-le 64 p (omega (arith, positive)) in
    let (k, whole) = unit-divides 64 p 53 (omega (arith, bounded)) in
    let unit_positive : 1 ≤ unit = power_positive (exponent 64 p) in
    let (above, below) = round_even-near unit p unit_positive in
    let small : 20 * (q * unit) < 20 * (top * 9_007_199_254_740_992) + 20 * unit =
      omega (arith, positive, bounded, narrow, above) in
    let upper : q * unit ≤ top * 9_007_199_254_740_992 = at_most_whole q unit top k whole small in
    let lower : (20 * 9_007_199_254_740_992) * top < 20 * (q * unit) + 20 * 9_007_199_254_740_992 =
      omega (arith, positive, bounded, narrow, below) in
    omega (arith, percentile_index-scaled (q * unit) n positive bounded upper lower, positive)
