-- ===== src/Prelude/TextOrder.antt =====
-- Go's `<` on strings, byte by byte, and on a pair of strings by the first and then the second.
use mathlib.Core.Path.{◌≡◌, refl}
use mathlib.Core.Bool.{Bool, true, false, ◌&&◌, ◌||◌}
use mathlib.Core.List.{[], ◌∷◌}
use native.Mathlib.Omega.{arith}
use aero_arc_testing_harness.Prelude.Tests.{ltb, ◌==◌, if◌then◌else◌}
use aero_arc_testing_harness.Prelude.Strings.{Text, text_eq, text_eq_iff}
use aero_arc_testing_harness.Prelude.Sorting.{IsStrictOrder}

unfoldable pub text_less : Text → Text → Bool
text_less xs [] = false
text_less [] (y ∷ ys) = true
text_less (x ∷ xs) (y ∷ ys) = ltb x y || (x == y && text_less xs ys)

text_less-asym : (a b : Text) → text_less a b ≡ true → text_less b a ≡ false
unfolding text_less
text_less-asym [] [] h = refl
text_less-asym [] (y ∷ b) h = refl
text_less-asym (x ∷ a) [] h = cc
text_less-asym (x ∷ a) (y ∷ b) h = ground (arith, text_less-asym a b)

text_less_trans :
    (a b c : Text) → text_less a b ≡ true → text_less b c ≡ true → text_less a c ≡ true
unfolding text_less
text_less_trans a b [] h k = cc
text_less_trans a [] (z ∷ c) h k = cc
text_less_trans [] (y ∷ b) (z ∷ c) h k = refl
text_less_trans (x ∷ a) (y ∷ b) (z ∷ c) h k = ground (arith, text_less_trans a b c)

text_less_connected : (a b : Text) → text_less a b ≡ false → text_less b a ≡ false → a ≡ b
unfolding text_less
text_less_connected [] [] h k = refl
text_less_connected [] (y ∷ b) h k = cc
text_less_connected (x ∷ a) [] h k = cc
text_less_connected (x ∷ a) (y ∷ b) h k = ground (arith, text_less_connected a b)

pub text_order : IsStrictOrder text_less
text_order = record {
  asym = text_less-asym;
  trans = text_less_trans;
  connected = text_less_connected;
}

unfoldable pub pair_less : Text × Text → Text × Text → Bool
unfolding text_less text_eq
pair_less (a, b) (c, d) = if text_eq a c then text_less b d else text_less a c

pub pair_order : IsStrictOrder pair_less
unfolding pair_less
pair_order = record {
  asym = λ (a, b) (c, d) h.
      ground (arith, text_eq_iff a c, text_eq_iff c a, text_less-asym a c, text_less-asym b d);
  trans = λ (a, b) (c, d) (e, f) h k. ground (
    arith,
    text_eq_iff a c,
    text_eq_iff c e,
    text_eq_iff a e,
    text_less_trans a c e,
    text_less_trans b d f,
    text_less-asym a c,
  );
  connected = λ (a, b) (c, d) h k.
      ground
        (arith, text_eq_iff a c, text_eq_iff c a, text_less_connected a c, text_less_connected b d);
}
