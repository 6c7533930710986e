-- ===== src/Core/Audio/Dsp.antt =====
-- `DspConfig` and `Dsp` of apps/companion-core/src/audio.rs: noise gate, compressor, limiter.
use rdoc_sacompanion.Base.{ℕ, Bool, true, List, [], ◌∷◌, ℤ, pos, i16, if◌then◌else◌}
use rdoc_sacompanion.Core.Audio.{opus_sr}
use rdoc_sacompanion.Core.Audio.Floats.{
  Float, lit, clamp, ◌+f◌, ◌-f◌, ◌*f◌, ◌/f◌, ◌<f◌, ◌>f◌, ◌>=f◌,
}

pub record DspConfig (F : Type 0) : Type 0 where
  pub gate : Bool
  pub gate_threshold : F
  pub compressor : Bool
  pub comp_threshold : F
  pub comp_ratio : F
  pub comp_makeup : F
  pub limiter : Bool
  pub limiter_ceiling : F

pub record Dsp (F : Type 0) : Type 0 where
  pub gate_env : F
  pub gate_gain : F
  pub comp_env : F
  pub lim_gain : F
  pub atk : F
  pub rel : F
  pub gate_open : F
  pub gate_close : F
  pub lim_rel : F

module _ {F : Type 0} ⦃f : Float F⦄ where
  -- `DspConfig::default`
  abbrev pub default_config : DspConfig F
  default_config = record {
    gate = true;
    gate_threshold = lit 15 1000;
    compressor = true;
    comp_threshold = lit 15 100;
    comp_ratio = lit 3 1;
    comp_makeup = lit 14 10;
    limiter = true;
    limiter_ceiling = lit 97 100;
  }

  -- The factor that smooths over `n / d` seconds.
  abbrev decay : (n d : ℕ) → F
  decay n d = f.exp (f.neg (lit 1 1) /f (lit n d *f f.of_int (pos opus_sr)))

  -- `Dsp::new`
  unfoldable pub new_dsp : Dsp F
  new_dsp = record {
    gate_env = lit 0 1;
    gate_gain = lit 1 1;
    comp_env = lit 0 1;
    lim_gain = lit 1 1;
    atk = decay 5 1000;
    rel = decay 80 1000;
    gate_open = decay 2 1000;
    gate_close = decay 150 1000;
    lim_rel = decay 50 1000;
  }

  -- `coef * state + (1.0 - coef) * x`
  abbrev smooth : (coef state x : F) → F
  smooth coef state x = coef *f state +f (lit 1 1 -f coef) *f x

  -- The block under `if c.gate`.
  unfoldable pub noise_gate : DspConfig F → Dsp F → F → Dsp F × F
  noise_gate c d s =
      let a = f.abs s in
      let env = if a >f d.gate_env then a else smooth d.rel d.gate_env a in
      let target = if env >=f c.gate_threshold then lit 1 1 else lit 0 1 in
      let coef = if target >f d.gate_gain then d.gate_open else d.gate_close in
      let gain = smooth coef d.gate_gain target in
      (record d { gate_env = env; gate_gain = gain }, s *f gain)

  -- The block under `if c.compressor`.
  unfoldable pub compress : DspConfig F → Dsp F → F → Dsp F × F
  compress c d s =
      let a = f.abs s in
      let coef = if a >f d.comp_env then d.atk else d.rel in
      let env = smooth coef d.comp_env a in
      let gain =
        if env >f c.comp_threshold
        then (c.comp_threshold +f (env -f c.comp_threshold) /f f.max c.comp_ratio (lit 1 1))
          /f f.max env (lit 1 1000000)
        else lit 1 1 in
      (record d { comp_env = env }, s *f gain *f c.comp_makeup)

  -- The block under `if c.limiter`.
  unfoldable pub limit : DspConfig F → Dsp F → F → Dsp F × F
  limit c d s =
      let ceil = clamp c.limiter_ceiling (lit 5 100) (lit 1 1) in
      let peak = f.abs s in
      let target = if peak >f ceil then ceil /f peak else lit 1 1 in
      let gain =
        if target <f d.lim_gain
        then target
        else d.lim_rel *f d.lim_gain +f (lit 1 1 -f d.lim_rel) in
      (record d { lim_gain = gain }, s *f gain)

  -- `Dsp::process`
  unfoldable pub process : DspConfig F → Dsp F → F → Dsp F × F
  process c d x =
      let (d1, s1) = if c.gate then noise_gate c d x else (d, x) in
      let (d2, s2) = if c.compressor then compress c d1 s1 else (d1, s1) in
      let (d3, s3) = if c.limiter then limit c d2 s2 else (d2, s2) in
      (d3, clamp s3 (f.neg (lit 1 1)) (lit 1 1))

  -- The loop over one frame: `frame[i] = (dsp.process(s, &cfg) * 32767.0) as i16`.
  unfoldable pub process_frame : DspConfig F → Dsp F → List F → Dsp F × List ℤ
  process_frame c d [] = (d, [])
  process_frame c d (x ∷ xs) =
      let (d1, s) = process c d x in
      let (d2, frame) = process_frame c d1 xs in (d2, f.to_int i16 (s *f lit 32767 1) ∷ frame)
