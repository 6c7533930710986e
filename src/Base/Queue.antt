-- ===== src/Base/Queue.antt =====
-- `VecDeque` and `Vec` used as queues: the oldest element is at the head.
use Prim.Native.Nat.{ℕ, zero, suc, ◌+◌, ◌-◌, ◌≤◌, ◌<◌}
use mathlib.Core.Path.{◌≡◌, refl, ap, ap₂, ◌∙◌}
use mathlib.Core.List.{List, [], ◌∷◌, ◌++◌}
use mathlib.Core.Logic.{inl, inr}
use native.Mathlib.Omega.{arith}
use rdoc_sacompanion.Base.Tests.{ltb, if◌then◌else◌, Bool-cases}
use rdoc_sacompanion.Base.Lists.{length, drop, length-append}

module _ {ℓ} {A : Type ℓ} where
  -- `while q.len() > cap { q.pop_front(); }`
  unfoldable pub trim : (cap : ℕ) → List A → List A
  trim cap [] = []
  trim cap (x ∷ xs) = let rest = trim cap xs in if ltb cap (length (x ∷ xs)) then rest else x ∷ xs

  -- The first `n` elements, fewer if there are not so many.
  abbrev pub take : ℕ → List A → List A
  take zero xs = []
  take (suc n) [] = []
  take (suc n) (x ∷ xs) = x ∷ take n xs

  pub length-trim_le : (cap : ℕ) (q : List A) → length (trim cap q) ≤ cap
  unfolding trim
  length-trim_le cap [] = omega arith
  length-trim_le cap (x ∷ xs) = ground (arith, length-trim_le cap xs)

  pub trim-short : (cap : ℕ) (q : List A) → length q ≤ cap → trim cap q ≡ q
  unfolding trim
  trim-short cap [] h = refl
  trim-short cap (x ∷ xs) h = ground arith

  pub length-trim : (cap : ℕ) (q : List A) → cap ≤ length q → length (trim cap q) ≡ cap
  unfolding trim
  length-trim cap [] h = omega arith
  length-trim cap (x ∷ xs) h = ground (arith, length-trim cap xs)

  -- Older elements do not matter once `cap` newer ones are there.
  pub trim-append : (cap : ℕ) (xs ys : List A) → trim cap (trim cap xs ++ ys) ≡ trim cap (xs ++ ys)
  unfolding trim
  trim-append cap [] ys = refl
  trim-append cap (x ∷ xs) ys = elim (Bool-cases (ltb cap (length (x ∷ xs)))) [
    | inl e ↦ ground (arith, trim-append cap xs ys, length-append xs ys)
    | inr e ↦ rw e refl
  ]

  pub take-drop : (n : ℕ) (xs : List A) → take n xs ++ drop n xs ≡ xs
  take-drop zero xs = refl
  take-drop (suc n) [] = refl
  take-drop (suc n) (x ∷ xs) = ap (λ t. x ∷ t) (take-drop n xs)

  pub length-take : (n : ℕ) (xs : List A) → n ≤ length xs → length (take n xs) ≡ n
  length-take zero xs h = refl
  length-take (suc n) [] h = omega arith
  length-take (suc n) (x ∷ xs) h = omega (arith, length-take n xs)

  pub length-drop : (n : ℕ) (xs : List A) → length (drop n xs) ≡ length xs - n
  length-drop zero xs = omega arith
  length-drop (suc n) [] = omega arith
  length-drop (suc n) (x ∷ xs) = omega (arith, length-drop n xs)

  pub take-append : (n : ℕ) (xs ys : List A) → n ≤ length xs → take n (xs ++ ys) ≡ take n xs
  take-append zero xs ys h = refl
  take-append (suc n) [] ys h = ground arith
  take-append (suc n) (x ∷ xs) ys h = ap (λ t. x ∷ t) (take-append n xs ys (omega arith))

  pub drop-append : (n : ℕ) (xs ys : List A) → n ≤ length xs → drop n (xs ++ ys) ≡ drop n xs ++ ys
  drop-append zero xs ys h = refl
  drop-append (suc n) [] ys h = ground arith
  drop-append (suc n) (x ∷ xs) ys h = drop-append n xs ys (omega arith)

module _ {ℓ κ} {S : Type ℓ} {A : Type κ} (n : ℕ) (body : S → List A → S) where
  -- `while buf.len() >= n { … buf.drain(..n) … }`: the state after the loop, and what is left of
  -- the buffer. The length of the buffer is fuel enough.
  unfoldable pub drain_while : (fuel : ℕ) → S → List A → S × List A
  drain_while zero s buf = (s, buf)
  drain_while (suc fuel) s buf =
      let rest = drain_while fuel (body s (take n buf)) (drop n buf) in
      if ltb (length buf) n then (s, buf) else rest

  unfoldable pub drain : S → List A → S × List A
  drain s buf = drain_while (length buf) s buf

  pub drain_while-short :
      (fuel : ℕ) (s : S) (buf : List A) → length buf < n → drain_while fuel s buf ≡ (s, buf)
  unfolding drain_while
  drain_while-short zero s buf h = refl
  drain_while-short (suc fuel) s buf h = ground arith

  -- The loop ends by its test.
  pub drain_while-rest :
      (fuel : ℕ) (s : S) (buf : List A)
      → 0 < n
      → length buf ≤ fuel
      → length (drain_while fuel s buf).1 < n
  unfolding drain_while
  drain_while-rest zero s buf hn h = omega arith
  drain_while-rest (suc fuel) s buf hn h = elim (Bool-cases (ltb (length buf) n)) [
    | inl e ↦ rw e (ground arith)
    | inr e ↦ rw e (drain_while-rest fuel _ (drop n buf) hn (ground (arith, length-drop n buf)))
  ]

  -- More fuel makes no difference.
  pub drain_while-fuel :
      (fuel more : ℕ) (s : S) (buf : List A)
      → 0 < n
      → length buf ≤ fuel
      → length buf ≤ more
      → drain_while fuel s buf ≡ drain_while more s buf
  unfolding drain_while
  drain_while-fuel zero zero s buf hn h k = refl
  drain_while-fuel zero (suc more) s buf hn h k = ground arith
  drain_while-fuel (suc fuel) zero s buf hn h k = ground arith
  drain_while-fuel (suc fuel) (suc more) s buf hn h k = elim (Bool-cases (ltb (length buf) n)) [
    | inl e ↦ rw e refl
    | inr e ↦ rw e (
        drain_while-fuel fuel more _ (drop n buf) hn (ground (arith, length-drop n buf))
          (ground (arith, length-drop n buf)))
  ]

  drain_while-step :
      (fuel : ℕ) (s : S) (buf : List A)
      → n ≤ length buf
      → drain_while (suc fuel) s buf ≡ drain_while fuel (body s (take n buf)) (drop n buf)
  unfolding drain_while
  drain_while-step fuel s buf h = ground arith

  drain_while-length_rest :
      (fuel : ℕ) (s : S) (buf : List A) → length (drain_while fuel s buf).1 ≤ length buf
  unfolding drain_while
  drain_while-length_rest zero s buf = omega arith
  drain_while-length_rest (suc fuel) s buf = elim (Bool-cases (ltb (length buf) n)) [
    | inl e ↦ rw e (omega arith)
    | inr e ↦ rw e (
        omega (
          arith,
          drain_while-length_rest fuel (body s (take n buf)) (drop n buf),
          length-drop n buf,
        ))
  ]

  rest_fits :
      (fuel more : ℕ) (s : S) (xs ys : List A)
      → length xs + length ys ≤ more
      → length ((drain_while fuel s xs).1 ++ ys) ≤ more
  rest_fits fuel more s xs ys h =
      omega (arith, length-append (drain_while fuel s xs).1 ys, drain_while-length_rest fuel s xs)

  -- A buffer may be drained as soon as its first part is there.
  drain_while-append :
      (fuel more : ℕ) (s : S) (xs ys : List A)
      → 0 < n
      → length xs ≤ fuel
      → length xs + length ys ≤ more
      → let (s', rest) = drain_while fuel s xs in
        drain_while more s (xs ++ ys) ≡ drain_while more s' (rest ++ ys)
  unfolding drain_while
  drain_while-append zero more s xs ys hn h k = refl
  drain_while-append (suc fuel) zero s [] ys hn h k = ground arith
  drain_while-append (suc fuel) zero s (x ∷ xs) ys hn h k = ground arith
  drain_while-append (suc fuel) (suc more) s xs ys hn h k = elim (Bool-cases (ltb (length xs) n)) [
    | inl e ↦ rw e refl
    | inr e ↦
        let low : n ≤ length xs = ground arith in
        rw e (
          drain_while-step more s (xs ++ ys) (omega (arith, length-append xs ys))
          ∙ ap₂ (λ t u. drain_while more (body s t) u) (take-append n xs ys low)
              (drop-append n xs ys low)
          ∙ drain_while-append fuel more (body s (take n xs)) (drop n xs) ys hn
              (omega (arith, length-drop n xs)) (omega (arith, length-drop n xs))
          ∙ drain_while-fuel more (suc more) _ _ hn
              (rest_fits fuel more (body s (take n xs)) (drop n xs) ys
                (omega (arith, length-drop n xs)))
              (rest_fits fuel (suc more) (body s (take n xs)) (drop n xs) ys
                (omega (arith, length-drop n xs))))
  ]

  pub drain-append :
      (s : S) (xs ys : List A)
      → 0 < n
      → let (s', rest) = drain s xs in drain s (xs ++ ys) ≡ drain s' (rest ++ ys)
  unfolding drain
  drain-append s xs ys hn =
      drain_while-append (length xs) (length (xs ++ ys)) s xs ys hn (omega arith)
        (omega (arith, length-append xs ys))
      ∙ drain_while-fuel (length (xs ++ ys)) _ _ _ hn
          (rest_fits (length xs) (length (xs ++ ys)) s xs ys (omega (arith, length-append xs ys)))
          (omega arith)

  pub drain-rest : (s : S) (buf : List A) → 0 < n → length (drain s buf).1 < n
  unfolding drain
  drain-rest s buf hn = drain_while-rest (length buf) s buf hn (omega arith)

  -- A function that commutes with the body commutes with the loop.
  drain_while-map :
      (g : S → S)
      → ((s : S) (xs : List A) → body (g s) xs ≡ g (body s xs))
      → (fuel : ℕ) (s : S) (buf : List A)
      → let (s', rest) = drain_while fuel s buf in drain_while fuel (g s) buf ≡ (g s', rest)
  unfolding drain_while
  drain_while-map g h zero s buf = refl
  drain_while-map g h (suc fuel) s buf = elim (Bool-cases (ltb (length buf) n)) [
    | inl e ↦ rw e refl
    | inr e ↦ rw (e, h) (drain_while-map g h fuel (body s (take n buf)) (drop n buf))
  ]

  pub drain-map :
      (g : S → S)
      → ((s : S) (xs : List A) → body (g s) xs ≡ g (body s xs))
      → (s : S) (buf : List A) → let (s', rest) = drain s buf in drain (g s) buf ≡ (g s', rest)
  unfolding drain
  drain-map g h s buf = drain_while-map g h (length buf) s buf

  module _ {μ} (P : S → Type μ) (keeps : (s : S) (xs : List A) → P s → P (body s xs)) where
    drain_while-keeps : (fuel : ℕ) (s : S) (buf : List A) → P s → P (drain_while fuel s buf).0
    unfolding drain_while
    drain_while-keeps zero s buf p = p
    drain_while-keeps (suc fuel) s buf p = elim (Bool-cases (ltb (length buf) n)) [
      | inl e ↦ rw e p
      | inr e ↦ rw e (drain_while-keeps fuel (body s (take n buf)) (drop n buf) (keeps s _ p))
    ]

    -- What every turn keeps, the loop keeps.
    pub drain-keeps : (s : S) (buf : List A) → P s → P (drain s buf).0
    unfolding drain
    drain-keeps s buf p = drain_while-keeps (length buf) s buf p
