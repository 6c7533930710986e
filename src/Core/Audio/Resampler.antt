-- ===== src/Core/Audio/Resampler.antt =====
-- `Resampler` of apps/companion-core/src/audio.rs: linear interpolation with a running phase `t`.
-- `F` is f32, `D` is f64 and `narrow` the cast between them.
pub mod Rate
pub mod Fuel
use rdoc_sacompanion.Base.{
  ℕ, zero, suc, ◌≡◌, refl, List, [], ◌∷◌, ◌++◌, Bool, true, false, ap, pos, if◌then◌else◌,
}
use rdoc_sacompanion.Core.Audio.Floats.{Float, lit, ◌+f◌, ◌-f◌, ◌*f◌, ◌/f◌, ◌<f◌}

pub record Resampler (F D : Type 0) : Type 0 where
  pub step : D
  pub t : D
  pub prev : F
  pub have_prev : Bool

-- `Resampler::new`
unfoldable pub new_resampler :
    {F D : Type 0} ⦃f : Float F⦄ ⦃d : Float D⦄ → (src dst : ℕ) → Resampler F D
new_resampler ⦃f⦄ ⦃d⦄ src dst = record {
  step = d.of_int (pos src) /f d.of_int (pos dst);
  t = lit 0 1;
  prev = lit 0 1;
  have_prev = false;
}

module _ {F D : Type 0} ⦃f : Float F⦄ ⦃d : Float D⦄ (narrow : D → F) where
  -- `while self.t < 1.0`: the samples that it pushes and the phase after it.
  unfoldable pub fill : (fuel : ℕ) (step : D) (prev cur : F) (t : D) → List F × D
  fill zero step prev cur t = ([], t)
  fill (suc n) step prev cur t =
      let (out, t') = fill n step prev cur (t +f step) in
      if t <f lit 1 1 then ((prev +f (cur -f prev) *f narrow t) ∷ out, t') else ([], t)

  module _ (fuel : ℕ) where
    -- One turn of the loop over the input: the first sample of a stream only sets `prev`.
    unfoldable pub feed : Resampler F D → (cur : F) → Resampler F D × List F
    feed r cur =
        let (out, t) = fill fuel r.step r.prev cur r.t in
        if r.have_prev
        then (record r { t = t -f lit 1 1; prev = cur }, out)
        else (record r { prev = cur; have_prev = true }, [])

    -- `process`: the state after it, and what it appends to `out`.
    unfoldable pub process : Resampler F D → (input : List F) → Resampler F D × List F
    process r [] = (r, [])
    process r (cur ∷ input) =
        let (r1, out1) = feed r cur in let (r2, out2) = process r1 input in (r2, out1 ++ out2)
