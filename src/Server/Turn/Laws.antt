-- ===== src/Server/Turn/Laws.antt =====
-- What the relay reads from the credentials that server/init/src/turn.rs mints.
use Prim.Native.String.{◌++◌}
use text.Mathlib.TextLemmas.{cons-append}
use rdoc_sacompanion.Base.{
  ℕ, zero, suc, ◌+◌, ◌^◌, ◌/◌, ◌%◌, ◌<◌, String, ◌≡◌, refl, ap, ◌∙◌, Bool, some, arith, nat_eq, ltb,
  Bool-cases, inl, inr,
}
use rdoc_sacompanion.Text.{before, chars_any, split_once_tail}
use rdoc_sacompanion.Text.Laws.{Lacks, before-append, chars_any-append, split_once_tail-append}
use rdoc_sacompanion.Text.Decimal.{
  decimal, decimal_digits, digit, digit-code, value, value-decimal_digits,
}
use rdoc_sacompanion.Server.{Crypto}
use rdoc_sacompanion.Server.Turn.{TurnConfig, mint}

abbrev is_colon : ℕ → Bool
is_colon c = nat_eq c b':'

one_digit : (d : ℕ) → d < 10 → Lacks is_colon (String.◌∷◌ (digit d) String.[])
unfolding chars_any
one_digit d h = ground (arith, digit-code d h)

decimal_digits-Lacks : (f n : ℕ) → Lacks is_colon (decimal_digits f n)
unfolding decimal_digits
decimal_digits-Lacks zero n = unfold chars_any in refl
decimal_digits-Lacks (suc f) n =
    let last = one_digit (n % 10) (omega arith) in
    elim (Bool-cases (ltb n 10)) [
      | inl small ↦ rw (small, decimal_digits) last
      | inr large ↦
          rw (large, decimal_digits)
            (rw
              (
                chars_any-append is_colon (decimal_digits f (n / 10))
                    (String.◌∷◌ (digit (n % 10)) String.[]),
                decimal_digits-Lacks f (n / 10),
              )
              last)
    ]

-- The relay that splits the username at its first colon finds the time at which the credentials
-- expire, `ttl` seconds from now, and behind it the user's id (as long as the time fits 20 digits,
-- which a `u64` does).
pub mint-username :
    (crypto : Crypto) (t : TurnConfig) (user_id : String) (now : ℕ)
    → now + t.ttl < 10 ^ 20
    → (value 0 (before is_colon (mint crypto t user_id now).username) ≡ now + t.ttl)
      × (split_once_tail ":" (mint crypto t user_id now).username ≡ some user_id)
unfolding mint
mint-username crypto t user_id now h =
    let lacks = decimal_digits-Lacks 20 (now + t.ttl) in
    (
      ap (value 0) (
            before-append is_colon (decimal (now + t.ttl)) (":" ++ user_id) lacks
              (rw cons-append refl))
          ∙ value-decimal_digits 20 (now + t.ttl) h,
      split_once_tail-append ":" "" (decimal (now + t.ttl)) user_id lacks,
    )
