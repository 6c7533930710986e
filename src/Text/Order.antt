-- ===== src/Text/Order.antt =====
-- The order of Rust's texts.
use Prim.Native.Char.{code}
use Prim.Native.String.compare
use text.Mathlib.TextEquality.{Char-path}
use text.Mathlib.TextPositions.{compare_refl}
use rdoc_sacompanion.Base.{
  String, ◌==◌, eq_iff, ◌≡◌, ◌≢◌, refl, true, false, not, arith, nat_eq, Bool-cases, inl, inr,
}
use rdoc_sacompanion.Text.{str_lt}

-- The order is total and strict.
pub str_lt_total : (s t : String) → s ≢ t → str_lt s t ≡ not (str_lt t s)
str_lt_total String.[] String.[] h = absurd (h refl)
str_lt_total String.[] (String.◌∷◌ d t) h =
    ground (arith, compare.nil-cons d t, compare.cons-nil d t)
str_lt_total (String.◌∷◌ c s) String.[] h =
    ground (arith, compare.nil-cons c s, compare.cons-nil c s)
str_lt_total (String.◌∷◌ c s) (String.◌∷◌ d t) h =
    let there = compare.cons-cons c d s t in
    let back = compare.cons-cons d c t s in
    elim (Bool-cases (nat_eq (code c) (code d))) [
      | inl same ↦
          let rest : str_lt s t ≡ not (str_lt t s) =
            str_lt_total s t λ r. h (cc (Char-path c d (ground arith), r)) in
          ground arith
      | inr other ↦ ground arith
    ]

pub str_lt_asym : (s t : String) → str_lt s t ≡ true → str_lt t s ≡ false
str_lt_asym s t h = elim (Bool-cases (s == t)) [
  | inl same ↦ let e = (eq_iff s t).0 same in cc (e, h, compare_refl t, compare_refl s)
  | inr other ↦ let total = str_lt_total s t λ e. cc (e, other, (eq_iff s t).1 e) in ground arith
]
