-- ===== src/Base/Int.antt =====
-- Signed integers over the native numbers, under the library's names, with the casts of Rust.
use Prim.Native.Nat.{ℕ, suc, ◌+◌, ◌-◌, ◌*◌, ◌/◌, ◌%◌, ◌^◌, ◌≤◌, ◌<◌}
use mathlib.Core.Path.{◌≡◌}
use native.Mathlib.Omega.{arith}
use native.Mathlib.Nat.{mod-eq_of_lt, div-le_of_le-mul}
use rdoc_sacompanion.Base.Tests.{ltb, leb, if◌then◌else◌}

-- `negsuc n` is -(n + 1).
pub data ℤ : Type 0 where
  pos : ℕ → ℤ
  negsuc : ℕ → ℤ

abbrev pub pos_part : ℤ → ℕ
pos_part (pos n) = n
pos_part (negsuc n) = 0

abbrev pub neg_part : ℤ → ℕ
neg_part (pos n) = 0
neg_part (negsuc n) = suc n

-- a - b, as an integer.
abbrev pub sub_ℕ : ℕ → ℕ → ℤ
sub_ℕ a b = if leb b a then pos (a - b) else negsuc (b - a - 1)

infixl 65 ◌+ℤ◌
unfoldable pub ◌+ℤ◌ : ℤ → ℤ → ℤ
a +ℤ b = sub_ℕ (pos_part a + pos_part b) (neg_part a + neg_part b)

abbrev pub abs : ℤ → ℕ
abs z = pos_part z + neg_part z

-- `/` by a positive number, which rounds towards zero.
unfoldable pub div_ℕ : ℤ → ℕ → ℤ
div_ℕ z n = sub_ℕ (pos_part z / n) (neg_part z / n)

-- `n` modulo `m`, read as a signed number.
unfoldable pub centre : (m n : ℕ) → ℤ
centre m n = if ltb (n + n) m then pos n else sub_ℕ n m

-- The lowest `w` bits of an integer, read as a signed number: what an `as` leaves.
unfoldable pub wrap : (w : ℕ) → ℤ → ℤ
wrap w (pos n) = centre (2 ^ w) (n % 2 ^ w)
wrap w (negsuc n) = centre (2 ^ w) (2 ^ w - suc (n % 2 ^ w))

abbrev pub i16 : ℕ
i16 = 16

abbrev pub i32 : ℕ
i32 = 32

-- The integers of `w` bits.
pub record Fits (w : ℕ) (z : ℤ) : Type 0 where
  pub above : pos_part z + pos_part z < 2 ^ w
  pub below : neg_part z + neg_part z ≤ 2 ^ w

-- An integer that fits is left as it is.
pub wrap-fits : (w : ℕ) (z : ℤ) → Fits w z → wrap w z ≡ z
unfolding wrap centre
wrap-fits w (pos n) f =
    let below = f.above in rw (mod-eq_of_lt {n = n} {m = 2 ^ w} (omega arith)) (ground arith)
wrap-fits w (negsuc n) f =
    let above = f.below in rw (mod-eq_of_lt {n = n} {m = 2 ^ w} (omega arith)) (ground arith)

-- At most `hi` above zero and at most `lo` below it.
pub record Between (lo hi : ℕ) (z : ℤ) : Type 0 where
  pub above : pos_part z ≤ hi
  pub below : neg_part z ≤ lo

pub +ℤ-Between :
    {lo hi lo' hi' : ℕ} (a b : ℤ)
    → Between lo hi a
    → Between lo' hi' b
    → Between (lo + lo') (hi + hi') (a +ℤ b)
unfolding ◌+ℤ◌
+ℤ-Between a b h k = record { above = ground arith; below = ground arith }

sub_ℕ-Between : (a b : ℕ) → Between b a (sub_ℕ a b)
sub_ℕ-Between a b = record { above = ground arith; below = ground arith }

pub div_ℕ-Between : (lo hi n : ℕ) (z : ℤ) → Between (n * lo) (n * hi) z → Between lo hi (div_ℕ z n)
unfolding div_ℕ
div_ℕ-Between lo hi n z h =
    let d = sub_ℕ-Between (pos_part z / n) (neg_part z / n) in
    record {
      above = omega (arith, d.above, div-le_of_le-mul n h.above);
      below = omega (arith, d.below, div-le_of_le-mul n h.below);
    }
