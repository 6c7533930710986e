-- ===== src/Core/Audio/Mixer/Sum.antt =====
-- The mixer's 32-bit sums do not overflow.
use rdoc_sacompanion.Base.{
  ℕ, zero, suc, ◌+◌, ◌*◌, ◌≤◌, ◌<◌, ◌≡◌, refl, sym, ap, ◌∙◌, ◌⊎◌, inl, inr, String, ◌==◌, true,
  false, Bool-cases, List, [], ◌∷◌, ℤ, pos, ◌+ℤ◌, i16, i32, Fits, wrap-fits, Between, +ℤ-Between,
  leb, ltb, length, take, replicate, All, arith, if◌then◌else◌,
}
use rdoc_sacompanion.Dict.{Dict, get-insert, get-empty}
use rdoc_sacompanion.Core.Audio.{frame, Gains, new_gains, set_master, set_peer, peer_v}
use rdoc_sacompanion.Core.Audio.Floats.{Float, lit, clamp, ◌*f◌}
use rdoc_sacompanion.Core.Audio.Mixer.{min, add_samples, mix_peers}

-- A call of the settings' commands.
pub data Setting (F : Type 0) : Type 0 where
  master : (v : F) → Setting F
  peer : (user : String) (v : F) → Setting F

-- What rounding and the saturating cast of f32 do to a sample of 16 bits times a gain.
pub record IsScale (F : Type 0) ⦃f : Float F⦄ : Type 0 where
  pub doubled :
      (s : ℤ) (v : F)
      → Fits i16 s
      → Between 65536 65536 (f.to_int i32 (f.of_int s *f clamp v (lit 0 1) (lit 2 1)))
  pub unchanged : (s : ℤ) → Fits i16 s → Between 65536 65536 (f.to_int i32 (f.of_int s *f lit 1 1))

module _ {F : Type 0} ⦃f : Float F⦄ where
  abbrev pub set : Setting F → Gains F → Gains F
  set (master v) g = set_master v g
  set (peer user v) g = set_peer user v g

  -- The gains after some calls, the last one first.
  abbrev pub settled : List (Setting F) → Gains F
  settled [] = new_gains
  settled (s ∷ ss) = set s (settled ss)

  -- The sum without a bound.
  abbrev pub add_exact : (g : F) (mixed samples : List ℤ) → List ℤ
  add_exact g [] samples = []
  add_exact g (x ∷ xs) [] = x ∷ xs
  add_exact g (x ∷ xs) (s ∷ ss) = (x +ℤ f.to_int i32 (f.of_int s *f g)) ∷ add_exact g xs ss

  -- Every peer's oldest frame, each at its gain.
  abbrev pub mix_exact : Gains F → Dict (List ℤ) → (mixed : List ℤ) → List ℤ
  mix_exact gains [] mixed = mixed
  mix_exact gains ((user, b) ∷ m) mixed =
      mix_exact gains m (add_exact (peer_v gains user) mixed (take frame b))

  -- A gain that was set, or was not.
  Gain : F → Type 0
  Gain g = (g ≡ lit 1 1) ⊎ ((v : F) × (g ≡ clamp v (lit 0 1) (lit 2 1)))

  settled-Gain : (ss : List (Setting F)) (user : String) → Gain (peer_v (settled ss) user)
  unfolding Gain peer_v set_master set_peer
  settled-Gain [] user = inl (rw get-empty refl)
  settled-Gain (master v ∷ ss) user = settled-Gain ss user
  settled-Gain (peer name v ∷ ss) user = elim (Bool-cases (name == user)) [
    | inl e ↦ rw (get-insert, e) (inr (v, refl))
    | inr e ↦ rw (get-insert, e) (settled-Gain ss user)
  ]

  module _ (scale : IsScale F) where
    Gain-Between :
        (g : F) (s : ℤ) → Gain g → Fits i16 s → Between 65536 65536 (f.to_int i32 (f.of_int s *f g))
    unfolding Gain
    Gain-Between g s (inl e) h = rw e (scale.unchanged s h)
    Gain-Between g s (inr (v, e)) h = rw e (scale.doubled s v h)

    -- A sum over `k` peers.
    abbrev Sum : (k : ℕ) → ℤ → Type 0
    Sum k z = Between (k * 65536) (k * 65536) z

    Sum-Fits : (k : ℕ) (z : ℤ) → Sum k z → k ≤ 32767 → Fits i32 z
    Sum-Fits k z b h = record { above = omega (arith, b.above); below = omega (arith, b.below) }

    add-Sum : (k : ℕ) (a b : ℤ) → Sum k a → Between 65536 65536 b → Sum (suc k) (a +ℤ b)
    add-Sum k a b h l =
        let s = +ℤ-Between a b h l in
        record { above = omega (arith, s.above); below = omega (arith, s.below) }

    more-Sum : (k : ℕ) (xs : List ℤ) → All (Sum k) xs → All (Sum (suc k)) xs
    more-Sum k [] h = tt
    more-Sum k (x ∷ xs) h = (
      record { above = omega (arith, h.0.above); below = omega (arith, h.0.below) },
      more-Sum k xs h.1,
    )

    add_samples-exact :
        (k : ℕ) (g : F) (mixed samples : List ℤ)
        → Gain g
        → All (Sum k) mixed
        → All (Fits i16) samples
        → k < 32767
        → (add_samples g mixed samples ≡ add_exact g mixed samples)
          × All (Sum (suc k)) (add_exact g mixed samples)
    unfolding add_samples
    add_samples-exact k g [] samples gain h l low = (refl, tt)
    add_samples-exact k g (x ∷ xs) [] gain h l low = (refl, more-Sum k (x ∷ xs) h)
    add_samples-exact k g (x ∷ xs) (s ∷ ss) gain h l low =
        let v = f.to_int i32 (f.of_int s *f g) in
        let sum = add-Sum k x v h.0 (Gain-Between g s gain l.0) in
        let (e, rest) = add_samples-exact k g xs ss gain h.1 l.1 low in
        (
          rw (e, wrap-fits i32 (x +ℤ v) (Sum-Fits (suc k) (x +ℤ v) sum (omega arith))) refl,
          (sum, rest),
        )

    add_samples-empty : (g : F) (mixed : List ℤ) → add_samples g mixed [] ≡ mixed
    unfolding add_samples
    add_samples-empty g [] = refl
    add_samples-empty g (x ∷ xs) = refl

    All-take : (n : ℕ) (xs : List ℤ) → All (Fits i16) xs → All (Fits i16) (take n xs)
    All-take zero xs h = tt
    All-take (suc n) [] h = tt
    All-take (suc n) (x ∷ xs) h = (h.0, All-take n xs h.1)

    take-length : (n : ℕ) (xs : List ℤ) → length xs ≤ n → take (length xs) xs ≡ take n xs
    take-length zero [] h = refl
    take-length (suc n) [] h = refl
    take-length zero (x ∷ xs) h = absurd (omega arith)
    take-length (suc n) (x ∷ xs) h = ap (λ t. x ∷ t) (take-length n xs (omega arith))

    take-min : (n : ℕ) (xs : List ℤ) → take (min (length xs) n) xs ≡ take n xs
    take-min n xs = elim (Bool-cases (leb (length xs) n)) [
      | inl e ↦ rw e (take-length n xs (ground arith))
      | inr e ↦ rw e refl
    ]

    -- The test for an empty buffer saves work and nothing else.
    add_samples-popped :
        (n : ℕ) (g : F) (mixed b : List ℤ)
        → 0 < n
        → (if ltb 0 (min (length b) n)
            then add_samples g mixed (take (min (length b) n) b)
            else mixed)
          ≡ add_samples g mixed (take n b)
    add_samples-popped zero g mixed b h = absurd (omega arith)
    add_samples-popped (suc n) g mixed [] h =
        let none : ltb 0 (min 0 (suc n)) ≡ false = ground arith in
        rw none (sym (add_samples-empty g mixed))
    add_samples-popped (suc n) g mixed (x ∷ xs) h =
        let some : ltb 0 (min (length (x ∷ xs)) (suc n)) ≡ true = ground arith in
        rw some (ap (add_samples g mixed) (take-min (suc n) (x ∷ xs)))

    mix_peers-exact_from :
        (ss : List (Setting F)) (k : ℕ) (m : Dict (List ℤ)) (mixed : List ℤ)
        → All (λ e. All (Fits i16) e.1) m
        → All (Sum k) mixed
        → k + length m ≤ 32767
        → (mix_peers (settled ss) m mixed).1 ≡ mix_exact (settled ss) m mixed
    unfolding mix_peers
    mix_peers-exact_from ss k [] mixed fits h low = refl
    mix_peers-exact_from ss k ((user, b) ∷ m) mixed fits h low =
        let g = peer_v (settled ss) user in
        let (e, sums) =
          add_samples-exact k g mixed (take frame b) (settled-Gain ss user) h
            (All-take frame b fits.0) (omega arith) in
        ap (λ mixed'. (mix_peers (settled ss) m mixed').1)
          (add_samples-popped frame g mixed b (omega arith) ∙ e)
        ∙ mix_peers-exact_from ss (suc k) m (add_exact g mixed (take frame b)) fits.1 sums
            (omega arith)

    zeros : (n : ℕ) → All (Sum 0) (replicate n (pos 0))
    zeros zero = tt
    zeros (suc n) = (record { above = omega arith; below = omega arith }, zeros n)

    -- Whatever gains were set, the sum of one round is the exact one: up to 32767 peers' samples of
    -- 16 bits do not overflow it.
    pub mix_peers-exact :
        (ss : List (Setting F)) (m : Dict (List ℤ))
        → All (λ e. All (Fits i16) e.1) m
        → length m ≤ 32767
        → let silence = replicate frame (pos 0) in
          (mix_peers (settled ss) m silence).1 ≡ mix_exact (settled ss) m silence
    mix_peers-exact ss m fits low =
        mix_peers-exact_from ss 0 m (replicate frame (pos 0)) fits (zeros frame) (omega arith)
