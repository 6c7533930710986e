-- ===== src/Text/Decimal.antt =====
-- `format!("{n}")` and `format!("{n:06}")` of an unsigned integer, and reading the digits back.
use Prim.Native.Char.{Char, code}
use Prim.Native.String.{char_at, ◌++◌, count}
use text.Mathlib.TextLemmas.{
  nil-append, cons-append, length-append as count-append, length-cons as count-cons,
  length-nil as count-nil,
}
use native.Mathlib.Nat.{pow-suc}
use rdoc_sacompanion.Base.{
  ℕ, zero, suc, ◌+◌, ◌-◌, ◌*◌, ◌/◌, ◌%◌, ◌^◌, ◌<◌, String, ◌≡◌, refl, arith, ltb, if◌then◌else◌,
}

unfoldable pub digit : ℕ → Char
digit d = char_at "0123456789" d

-- Zeros in front up to the width, for a number that fits it.
unfoldable pub zero_padded : ℕ → ℕ → String
unfolding digit
zero_padded zero n = String.[]
zero_padded (suc w) n = zero_padded w (n / 10) ++ String.◌∷◌ (digit (n % 10)) String.[]

-- One digit for each unit of fuel; a `u64` has at most 20 digits.
unfoldable pub decimal_digits : ℕ → ℕ → String
unfolding digit
decimal_digits zero n = String.[]
decimal_digits (suc f) n =
    let more = decimal_digits f (n / 10) in
    let last = String.◌∷◌ (digit (n % 10)) String.[] in if ltb n 10 then last else more ++ last

abbrev pub decimal : ℕ → String
decimal = decimal_digits 20

-- The number that a text of digits spells, behind the digits read before.
unfoldable pub value : ℕ → String → ℕ
value acc String.[] = acc
value acc (String.◌∷◌ c s) = value (acc * 10 + (code c - b'0')) s

pub digit-code : (d : ℕ) → d < 10 → code (digit d) ≡ b'0' + d
unfolding digit
digit-code zero h = refl
digit-code (suc zero) h = refl
digit-code (suc (suc zero)) h = refl
digit-code (suc (suc (suc zero))) h = refl
digit-code (suc (suc (suc (suc zero)))) h = refl
digit-code (suc (suc (suc (suc (suc zero))))) h = refl
digit-code (suc (suc (suc (suc (suc (suc zero)))))) h = refl
digit-code (suc (suc (suc (suc (suc (suc (suc zero))))))) h = refl
digit-code (suc (suc (suc (suc (suc (suc (suc (suc zero)))))))) h = refl
digit-code (suc (suc (suc (suc (suc (suc (suc (suc (suc zero))))))))) h = refl
digit-code (suc (suc (suc (suc (suc (suc (suc (suc (suc (suc d)))))))))) h = absurd (omega arith)

value-append : (acc : ℕ) (s t : String) → value acc (s ++ t) ≡ value (value acc s) t
unfolding value
value-append acc String.[] t = rw nil-append
value-append acc (String.◌∷◌ c s) t = rw cons-append (value-append (acc * 10 + (code c - b'0')) s t)

value-digit : (acc d : ℕ) → d < 10 → value acc (String.◌∷◌ (digit d) String.[]) ≡ acc * 10 + d
unfolding value
value-digit acc d h = omega (arith, digit-code d h)

-- One more digit behind the digits of the tenth part.
value-append-digit :
    (s : String) (n : ℕ)
    → value 0 s ≡ n / 10
    → value 0 (s ++ String.◌∷◌ (digit (n % 10)) String.[]) ≡ n
value-append-digit s n h =
    rw (value-append, h, value-digit (n / 10) (n % 10) (omega arith)) (omega arith)

div-lt-pow : (w n : ℕ) → n < 10 ^ suc w → n / 10 < 10 ^ w
div-lt-pow w n h = omega (arith, pow-suc 10 w)

-- The digits of a number that fits the width spell it.
pub value-zero_padded : (w n : ℕ) → n < 10 ^ w → value 0 (zero_padded w n) ≡ n
unfolding zero_padded
value-zero_padded zero n h = unfold value in omega arith
value-zero_padded (suc w) n h =
    value-append-digit (zero_padded w (n / 10)) n (value-zero_padded w (n / 10) (div-lt-pow w n h))

pub count-zero_padded : (w n : ℕ) → count (zero_padded w n) ≡ w
unfolding zero_padded
count-zero_padded zero n = refl
count-zero_padded (suc w) n =
    rw (count-append, count-zero_padded w (n / 10), count-cons, count-nil) (omega arith)

pub value-decimal_digits : (f n : ℕ) → n < 10 ^ f → value 0 (decimal_digits f n) ≡ n
unfolding decimal_digits
value-decimal_digits zero n h = unfold value in omega arith
value-decimal_digits (suc f) n h = ground (
  arith,
  value-digit 0 n,
  value-append-digit (decimal_digits f (n / 10)) n,
  value-decimal_digits f (n / 10),
  div-lt-pow f n,
)
