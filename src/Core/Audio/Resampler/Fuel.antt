-- ===== src/Core/Audio/Resampler/Fuel.antt =====
-- The fuel of the `while` in the resampler of apps/companion-core/src/audio.rs.
use rdoc_sacompanion.Base.{
  ℕ, zero, suc, ◌+◌, ◌≤◌, ◌≡◌, refl, sym, List, [], ◌∷◌, true, false, arith, length, Bool-cases,
  inl, inr,
}
use rdoc_sacompanion.Core.Audio.Floats.{Float, lit, ◌+f◌, ◌<f◌}
use rdoc_sacompanion.Core.Audio.Resampler.{Resampler, fill, feed, process}
use rdoc_sacompanion.Core.Audio.Resampler.Rate.{IsClock, IsOn, Processed, process-count}

module _ {F D : Type 0} ⦃f : Float F⦄ ⦃d : Float D⦄ (narrow : D → F) (step : D)
    (c : IsClock step) where
  fill-ended :
      (fuel : ℕ) (prev cur : F) (t : D)
      → (t <f lit 1 1) ≡ false
      → fill narrow fuel step prev cur t ≡ ([], t)
  unfolding fill
  fill-ended zero prev cur t e = refl
  fill-ended (suc fuel) prev cur t e = rw e refl

  fill-more :
      (fuel more : ℕ) (prev cur : F) (t : D)
      → c.Taken t
      → c.one ≤ c.ticks t + fuel
      → c.one ≤ c.ticks t + more
      → fill narrow more step prev cur t ≡ fill narrow fuel step prev cur t
  unfolding fill
  fill-more zero more prev cur t v h h' = fill-ended more prev cur t (ground (arith, c.below t v))
  fill-more (suc fuel) zero prev cur t v h h' =
      sym (fill-ended (suc fuel) prev cur t (ground (arith, c.below t v)))
  fill-more (suc fuel) (suc more) prev cur t v h h' = elim (Bool-cases (t <f lit 1 1)) [
    | inl e ↦
        let fast = c.fast t v e in
        let rest =
          fill-more fuel more prev cur (t +f step) (c.advance t v e) (omega (arith, fast, c.lo_pos))
            (omega (arith, fast, c.lo_pos)) in
        rw e (rw rest refl)
    | inr e ↦ rw e refl
  ]

  module _ (fuel : ℕ) (enough : c.one ≤ fuel) (more : ℕ) (enough' : c.one ≤ more) where
    feed-more :
        (r : Resampler F D) (x : F)
        → IsOn narrow step c r
        → feed narrow more r x ≡ feed narrow fuel r x
    unfolding feed
    feed-more r x on =
        rw on.same_step
          (rw (fill-more fuel more r.prev x r.t on.taken (omega arith) (omega arith)) refl)

    process-more :
        (r : Resampler F D) (xs : List F)
        → IsOn narrow step c r
        → r.have_prev ≡ true
        → process narrow more r xs ≡ process narrow fuel r xs
    unfolding process
    process-more r [] on p = refl
    process-more r (x ∷ xs) on p =
        let i = process-count narrow step c fuel enough r (x ∷ []) on p in
        rw (feed-more r x on) (rw (process-more (feed narrow fuel r x).0 xs i.on i.primed) refl)

    -- Behind a stream's first sample, which only sets `prev`: with fuel for one sample's ticks, `m`
    -- input samples make between `m * one / hi` and `m * one / lo` output samples, up to the phase;
    -- and with any other fuel of at least that much, the state and the samples are the same. (The
    -- arithmetic of f64 is as `IsClock` says.)
    pub process-Processed :
        (r : Resampler F D) (xs : List F)
        → IsOn narrow step c r
        → r.have_prev ≡ true
        → let (r', out) = process narrow fuel r xs in
          Processed narrow step c r (length xs) out r' × (process narrow more r xs ≡ (r', out))
    process-Processed r xs on p =
        (process-count narrow step c fuel enough r xs on p, process-more r xs on p)
