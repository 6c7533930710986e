-- ===== src/Tests/Settings.antt =====
-- The shell's audio settings and the self-check at small inputs.
use rdoc_sacompanion.Base.{ℕ, ◌*◌, arith, leb, ltb, pos}
use rdoc_sacompanion.Core.Audio.Floats.{Float}
use rdoc_sacompanion.App.Settings.Ranges.{IsOrder}

-- A fraction, of which the settings only use the order.
abbrev Fraction : Type 0
Fraction = ℕ × ℕ

instance abbrev fractions : Float Fraction
fractions = record {
  lit = λ n d. (n, d);
  plus = λ a b. a;
  minus = λ a b. a;
  times = λ a b. a;
  over = λ a b. a;
  neg = λ a. a;
  abs = λ a. a;
  max = λ a b. a;
  exp = λ a. a;
  tanh = λ a. a;
  lt = λ (a, b) (c, d). ltb (a * d) (c * b);
  le = λ (a, b) (c, d). leb (a * d) (c * b);
  is_finite = λ (a, b). ltb 0 b;
  of_int = λ z. (0, 1);
  to_int = λ w a. pos 0;
}

order : IsOrder Fraction
order = record {
  lit_finite = λ n d h l. ground arith;
  lit_le = λ n d m e hd he h. ground arith;
  not_lt = λ x y hx hy h. ground arith;
}
