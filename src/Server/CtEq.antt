-- ===== src/Server/CtEq.antt =====
-- `ct_eq` of server/init/src/auth.rs and of sessions.rs, the comparison in constant time.
use Prim.Native.Nat.{bit_or, bit_xor, digits, differ, max, bit_or-bitwise, bit_xor-bitwise}
use rdoc_sacompanion.Base.{
  ℕ, zero, suc, ◌/◌, ◌%◌, ◌≤◌, String, ◌≡◌, refl, ap, sym, subst, ◌∙◌, ◌↔◌, Bool, true, false, List,
  [], ◌∷◌, arith, nat_eq, if◌then◌else◌, length,
}
use rdoc_sacompanion.Text.Bytes.{as_bytes, as_bytes_inj}

-- The loop over the zipped bytes.
diff_loop : ℕ → List ℕ → List ℕ → ℕ
diff_loop diff (x ∷ a) (y ∷ b) = diff_loop (bit_or diff (bit_xor x y)) a b
diff_loop diff _ _ = diff

unfoldable pub ct_eq : List ℕ → List ℕ → Bool
unfolding diff_loop
ct_eq a b = if nat_eq (length a) (length b) then nat_eq (diff_loop 0 a b) 0 else false

differ-eq-zero : (x y : ℕ) → differ x y ≡ 0 → x ≡ y
differ-eq-zero zero y h = omega arith
differ-eq-zero (suc x) zero h = omega arith
differ-eq-zero (suc x) (suc y) h = ap suc (differ-eq-zero x y h)

differ_self : (x : ℕ) → differ x x ≡ 0
differ_self zero = refl
differ_self (suc x) = differ_self x

xor_digits_eq : (n a b : ℕ) → a ≤ n → digits (λ b. b) differ n a b ≡ 0 → a ≡ b
xor_digits_eq zero a b le h = omega arith
xor_digits_eq (suc n) zero b le h = omega arith
xor_digits_eq (suc n) (suc a) b le h = omega (
  arith,
  xor_digits_eq n (suc a / 2) (b / 2) (omega arith) (omega arith),
  differ-eq-zero (suc a % 2) (b % 2) (omega arith),
)

xor_digits_self : (n a : ℕ) → a ≤ n → digits (λ b. b) differ n a a ≡ 0
xor_digits_self zero a le = omega arith
xor_digits_self (suc n) zero le = refl
xor_digits_self (suc n) (suc a) le =
    omega (arith, xor_digits_self n (suc a / 2) (omega arith), differ_self (suc a % 2))

or_digits_eq : (n a b : ℕ) → a ≤ n → digits (λ b. b) max n a b ≡ 0 → (a ≡ 0) × (b ≡ 0)
or_digits_eq zero a b le h = omega arith
or_digits_eq (suc n) zero b le h = omega arith
or_digits_eq (suc n) (suc a) b le h =
    let tail = or_digits_eq n (suc a / 2) (b / 2) (omega arith) (omega arith) in omega arith

bit_xor-eq-zero_iff : (x y : ℕ) → (bit_xor x y ≡ 0) ↔ (x ≡ y)
bit_xor-eq-zero_iff x y = (
  λ h. xor_digits_eq x x y (omega arith) (sym (bit_xor-bitwise x y) ∙ h),
  λ e. subst (λ y. bit_xor x y ≡ 0) e (bit_xor-bitwise x x ∙ xor_digits_self x x (omega arith)),
)

bit_or-eq-zero_iff : (x y : ℕ) → (bit_or x y ≡ 0) ↔ ((x ≡ 0) × (y ≡ 0))
bit_or-eq-zero_iff x y =
    (λ h. or_digits_eq x x y (omega arith) (sym (bit_or-bitwise x y) ∙ h), λ e. rw (e.0, e.1))

diff_loop_iff :
    (diff : ℕ) (a b : List ℕ)
    → length a ≡ length b
    → (diff_loop diff a b ≡ 0) ↔ ((diff ≡ 0) × (a ≡ b))
unfolding diff_loop
diff_loop_iff diff [] [] h = (λ e. (e, refl), λ e. e.0)
diff_loop_iff diff [] (y ∷ b) h = absurd (omega arith)
diff_loop_iff diff (x ∷ a) [] h = absurd (omega arith)
diff_loop_iff diff (x ∷ a) (y ∷ b) h =
    let rest = diff_loop_iff (bit_or diff (bit_xor x y)) a b (omega arith) in
    let or_iff = bit_or-eq-zero_iff diff (bit_xor x y) in
    let xor_iff = bit_xor-eq-zero_iff x y in ground arith

-- The comparison accepts two byte strings exactly when they are equal.
pub ct_eq_iff : (a b : List ℕ) → (ct_eq a b ≡ true) ↔ (a ≡ b)
unfolding ct_eq
ct_eq_iff a b = (
  λ h. ground (arith, diff_loop_iff 0 a b),
  λ e. ground (arith, diff_loop_iff 0 a b, ap (length {A = ℕ}) e),
)

-- So it accepts two texts exactly when they are equal.
pub ct_eq-as_bytes_iff : (s t : String) → (ct_eq (as_bytes s) (as_bytes t) ≡ true) ↔ (s ≡ t)
ct_eq-as_bytes_iff s t =
    let same = ct_eq_iff (as_bytes s) (as_bytes t) in
    (λ h. as_bytes_inj s t (same.0 h), λ e. same.1 (ap as_bytes e))
