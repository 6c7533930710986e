-- ===== src/Core/Audio/Mixer.antt =====
-- `mixer_loop` of apps/companion-core/src/audio.rs: from the mix map to the playback ring.
pub mod Refill
pub mod Sum
use rdoc_sacompanion.Base.{
  ℕ, ◌+◌, ◌*◌, ◌/◌, String, Option, none, some, List, [], ◌∷◌, ◌++◌, map, ℤ, pos, ◌+ℤ◌, wrap, i16,
  i32, ltb, leb, length, replicate, take, drop, trim, if◌then◌else◌,
}
use rdoc_sacompanion.Dict.{Dict}
use rdoc_sacompanion.Core.Audio.{frame, Gains, master_v, peer_v}
use rdoc_sacompanion.Core.Audio.Floats.{Float, lit, ◌*f◌, ◌/f◌}
use rdoc_sacompanion.Core.Audio.Resampler
use rdoc_sacompanion.Core.Audio.Resampler.{Resampler}

-- About 60 ms, and about half a second.
abbrev pub target : (out_rate : ℕ) → ℕ
target out_rate = out_rate * 60 / 1000

abbrev pub ring_cap : (out_rate : ℕ) → ℕ
ring_cap out_rate = out_rate / 2

abbrev pub min : ℕ → ℕ → ℕ
min a b = if leb a b then a else b

pub record Mixing (F D : Type 0) : Type 0 where
  pub down : Resampler F D
  pub mix : Dict (List ℤ)
  pub play : List ℤ

-- What the other threads do during a round of the inner loop, in which the mixer holds no lock from
-- one block to the next: the map as they leave it before the mixer locks it, and how many samples
-- the output callback takes from the ring before the mixer pushes and behind that.
pub record Meanwhile : Type 0 where
  pub mix : Dict (List ℤ)
  pub before_push : ℕ
  pub behind_push : ℕ

module _ {F : Type 0} ⦃f : Float F⦄ where
  -- `for x in mixed.iter_mut().take(n) { *x += (b.pop_front().unwrap() as f32 * g) as i32; }` on
  -- the samples popped. A sum that leaves the 32 bits wraps around.
  unfoldable pub add_samples : (g : F) (mixed samples : List ℤ) → List ℤ
  add_samples g [] samples = []
  add_samples g (x ∷ xs) [] = x ∷ xs
  add_samples g (x ∷ xs) (s ∷ ss) =
      wrap i32 (x +ℤ f.to_int i32 (f.of_int s *f g)) ∷ add_samples g xs ss

  -- The loop over the map: what stays in it, and the sum. A peer with less than a frame adds what
  -- it has.
  unfoldable pub mix_peers : Gains F → Dict (List ℤ) → (mixed : List ℤ) → Dict (List ℤ) × List ℤ
  mix_peers gains [] mixed = ([], mixed)
  mix_peers gains ((peer, b) ∷ m) mixed =
      let n = min (length b) frame in
      let mixed' = if ltb 0 n then add_samples (peer_v gains peer) mixed (take n b) else mixed in
      let (m', sum) = mix_peers gains m mixed' in ((peer, drop n b) ∷ m', sum)

  -- The soft limit: `(v as f32 * master / 32768.0).tanh()`
  unfoldable pub soft_limit : Gains F → List ℤ → List F
  soft_limit gains mixed = map (λ v. f.tanh (f.of_int v *f master_v gains /f lit 32768 1)) mixed

  -- The last block of a round, under the lock of the ring.
  unfoldable pub push_ring : (cap : ℕ) → List F → (play : List ℤ) → List ℤ
  push_ring cap o play = trim cap (play ++ map (λ v. f.to_int i16 (v *f lit 32767 1)) o)

module _ {F D : Type 0} ⦃f : Float F⦄ ⦃d : Float D⦄ (narrow : D → F) (steps : ℕ)
    (out_rate : ℕ) where
  -- One round of the inner loop.
  unfoldable pub refill_once : Gains F → Mixing F D → Mixing F D
  refill_once gains s =
      let (mix, mixed) = mix_peers gains s.mix (replicate frame (pos 0)) in
      let (down, o) = Resampler.process narrow steps s.down (soft_limit gains mixed) in
      record { down = down; mix = mix; play = push_ring (ring_cap out_rate) o s.play }

  -- A round among the other threads.
  unfoldable pub refill_among : Meanwhile → Gains F → Mixing F D → Mixing F D
  unfolding refill_once
  refill_among w gains s =
      let s' = refill_once gains (record s { mix = w.mix; play = drop w.before_push s.play }) in
      record s' { play = drop w.behind_push s'.play }

  -- The inner loop; `none` where it has not ended after these rounds.
  unfoldable pub refill : List Meanwhile → Gains F → Mixing F D → Option (Mixing F D)
  unfolding refill_among
  refill [] gains s = if leb (target out_rate) (length s.play) then some s else none
  refill (w ∷ ws) gains s =
      let rest = refill ws gains (refill_among w gains s) in
      if leb (target out_rate) (length s.play) then some s else rest
