-- ===== src/Core/Audio/Mixer/Refill.antt =====
-- The refill of the playback ring ends, and the ring stays within its bounds.
use native.Mathlib.Nat.{suc-mul}
use rdoc_sacompanion.Base.{
  ℕ, zero, suc, ◌+◌, ◌*◌, ◌≤◌, ◌<◌, ◌≡◌, refl, ap, ◌∙◌, List, [], ◌∷◌, ◌++◌, map, ℤ, i16, pos,
  arith, leb, length, length-append, length-map, replicate, take, drop, length-drop, some, true,
  length-trim, trim-short, Bool-cases, inl, inr, if◌then◌else◌,
}
use rdoc_sacompanion.Dict.{Dict}
use rdoc_sacompanion.Core.Audio.{frame, Gains, peer_v}
use rdoc_sacompanion.Core.Audio.Floats.{Float, lit, ◌*f◌}
use rdoc_sacompanion.Core.Audio.Resampler.{Resampler, process}
use rdoc_sacompanion.Core.Audio.Resampler.Rate.{IsClock, IsOn, process-Made}
use rdoc_sacompanion.Core.Audio.Mixer.{
  Mixing, Meanwhile, min, target, ring_cap, mix_peers, add_samples, soft_limit, push_ring,
  refill_once, refill_among, refill,
}

-- The ring may be filled up to the target without losing samples to the cap.
target-le-ring_cap : (out_rate : ℕ) → target out_rate ≤ ring_cap out_rate
target-le-ring_cap out_rate = omega arith

length-replicate : {A : Type 0} (n : ℕ) (a : A) → length (replicate n a) ≡ n
length-replicate zero a = refl
length-replicate (suc n) a = ap suc (length-replicate n a)

module _ {F : Type 0} ⦃f : Float F⦄ where
  length-add_samples :
      (g : F) (mixed samples : List ℤ) → length (add_samples g mixed samples) ≡ length mixed
  unfolding add_samples
  length-add_samples g [] samples = refl
  length-add_samples g (x ∷ xs) [] = refl
  length-add_samples g (x ∷ xs) (s ∷ ss) = ap suc (length-add_samples g xs ss)

  pub length-mix_peers :
      (gains : Gains F) (m : Dict (List ℤ)) (mixed : List ℤ)
      → length (mix_peers gains m mixed).1 ≡ length mixed
  unfolding mix_peers
  length-mix_peers gains [] mixed = refl
  length-mix_peers gains ((peer, b) ∷ m) mixed =
      length-mix_peers gains m _
      ∙ ground (arith, length-add_samples (peer_v gains peer) mixed (take (min (length b) frame) b))

  -- After a push the ring is no longer than the cap, and full unless it holds all.
  pub length-push_ring :
      (cap : ℕ) (o : List F) (play : List ℤ)
      → length (push_ring cap o play)
        ≡ (if leb cap (length play + length o) then cap else length play + length o)
  unfolding push_ring
  length-push_ring cap o play =
      let scaled = map (λ v. f.to_int i16 (v *f lit 32767 1)) o in
      ground (
        arith,
        trim-short cap (play ++ scaled),
        length-trim cap (play ++ scaled),
        length-append play scaled,
        length-map o (λ v. f.to_int i16 (v *f lit 32767 1)),
      )

  length-wave :
      (gains : Gains F) (m : Dict (List ℤ))
      → length (soft_limit gains (mix_peers gains m (replicate frame (pos 0))).1) ≡ frame
  unfolding soft_limit
  length-wave gains m =
      length-map _ _
      ∙ length-mix_peers gains m (replicate frame (pos 0))
      ∙ length-replicate frame (pos 0)

-- How many samples the output callback takes during these rounds.
unfoldable pub taken : List Meanwhile → ℕ
taken [] = 0
taken (w ∷ ws) = w.before_push + w.behind_push + taken ws

module _ {F D : Type 0} ⦃f : Float F⦄ ⦃d : Float D⦄ (narrow : D → F) (step : D) (c : IsClock step)
    (steps : ℕ) (enough : c.one ≤ steps) (made : ℕ) (rate : (made + 1) * c.hi < 959 * c.one)
    (out_rate : ℕ) (room : target out_rate + made ≤ ring_cap out_rate) where
  frame-Made :
      (r : Resampler F D) (xs : List F)
      → length xs ≡ frame
      → IsOn narrow step c r
      → let (r', out) = process narrow steps r xs in IsOn narrow step c r' × (made ≤ length out)
  frame-Made r [] e on = absurd (omega arith)
  frame-Made r (x ∷ xs) e on =
      process-Made narrow step c steps enough made r x xs on
        (let h : length xs ≡ 959 = omega arith in rw h rate)

  -- What the mixer keeps between two fills.
  pub record IsReady (s : Mixing F D) : Type 0 where
    pub on : IsOn narrow step c s.down
    pub low : length s.play ≤ ring_cap out_rate

  -- A round pushes `made` samples at least, as long as the ring is short of its target.
  record Refilled (s s' : Mixing F D) : Type 0 where
    ready : IsReady s'
    longer : length s.play + made ≤ length s'.play

  refill_once-Refilled :
      (gains : Gains F) (s : Mixing F D)
      → IsOn narrow step c s.down
      → length s.play < target out_rate
      → Refilled s (refill_once narrow steps out_rate gains s)
  unfolding refill_once
  refill_once-Refilled gains s on short =
      let mixed = (mix_peers gains s.mix (replicate frame (pos 0))).1 in
      let wave = soft_limit gains mixed in
      let out = (process narrow steps s.down wave).1 in
      let (on', made_enough) = frame-Made s.down wave (length-wave gains s.mix) on in
      record {
        ready = record {
          on = on';
          low = ground (arith, length-push_ring (ring_cap out_rate) out s.play);
        };
        longer = ground (arith, room, length-push_ring (ring_cap out_rate) out s.play);
      }

  refill_among-Refilled :
      (w : Meanwhile) (gains : Gains F) (s : Mixing F D)
      → IsOn narrow step c s.down
      → length s.play < target out_rate
      → let s' = refill_among narrow steps out_rate w gains s in
        IsReady s' × (length s.play + made ≤ length s'.play + (w.before_push + w.behind_push))
  unfolding refill_among
  refill_among-Refilled w gains s on short =
      let found = record s { mix = w.mix; play = drop w.before_push s.play } in
      let left = length-drop w.before_push s.play in
      let o = refill_once-Refilled gains found on (omega (arith, left)) in
      let rest = length-drop w.behind_push (refill_once narrow steps out_rate gains found).play in
      (
        record { on = o.ready.on; low = omega (arith, rest, o.ready.low) },
        omega (arith, rest, left, o.longer),
      )

  -- The inner loop among the other threads: once its rounds, with `made` samples each, make up for
  -- what the ring wants and what the output callback takes during them, the loop has ended by its
  -- test, and it leaves the ring with its target and within its cap. (`made` is any number of samples
  -- that 959 samples at 48 kHz give at least, up to the phase, at the resampler's step, and that fits
  -- between the target and the cap. The arithmetic of f64 is as `IsClock` says, the resampler's fuel
  -- is that of one sample.)
  pub refill-filled :
      (ws : List Meanwhile) (gains : Gains F) (s : Mixing F D)
      → IsReady s
      → target out_rate + taken ws ≤ length s.play + length ws * made
      → (s' : Mixing F D) × (refill narrow steps out_rate ws gains s ≡ some s')
        × IsReady s'
        × (target out_rate ≤ length s'.play)
  unfolding refill taken
  refill-filled [] gains s i h =
      let full : leb (target out_rate) (length s.play) ≡ true = ground arith in
      (s, rw full refl, i, ground arith)
  refill-filled (w ∷ ws) gains s i h = elim (Bool-cases (leb (target out_rate) (length s.play))) [
    | inl full ↦ (s, rw full refl, i, ground arith)
    | inr short ↦
        let s1 = refill_among narrow steps out_rate w gains s in
        let (i1, longer) = refill_among-Refilled w gains s i.on (ground arith) in
        let later =
          refill-filled ws gains s1 i1 (omega (arith, longer, suc-mul (length ws) made)) in
        (later.0, rw short later.1, later.2, later.3)
  ]
