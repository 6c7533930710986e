-- ===== src/Core/Audio/Encode.antt =====
-- `encode_loop` of apps/companion-core/src/audio.rs: from the captured samples to Opus packets. The
-- denoiser and the encoder are parameters; a packet is the list of its bytes.
pub mod Chunks
pub mod Sending
use rdoc_sacompanion.Base.{
  ℕ, suc, String, Bool, ◌&&◌, Option, none, some, List, [], ◌∷◌, ◌++◌, map, all, ℤ, abs, pos, wrap,
  i32, ltb, nat_eq, trim, drain, unwrap_or, if◌then◌else◌,
}
use rdoc_sacompanion.Dict.{Dict, get, insert}
use rdoc_sacompanion.Core.Audio.{opus_sr, frame}
use rdoc_sacompanion.Core.Audio.Floats.{Float, lit, clamp, ◌*f◌, ◌/f◌}
use rdoc_sacompanion.Core.Audio.Resampler
use rdoc_sacompanion.Core.Audio.Resampler.{Resampler, new_resampler}
use rdoc_sacompanion.Core.Audio.Dsp.{DspConfig, Dsp, new_dsp, process_frame}

-- `DenoiseState::FRAME_SIZE`: 10 ms.
abbrev pub ns : ℕ
ns = 480

-- A mix map's entry keeps this many of the microphone's own samples, about 200 ms.
abbrev pub self_cap : ℕ
self_cap = 9600

abbrev pub Packet : Type 0
Packet = List ℕ

pub data Bitrate : Type 0 where
  auto : Bitrate
  bits_per_second : ℤ → Bitrate

-- The crates audiopus and nnnoiseless: a call may change the object that it is made on.
pub record Codec (F E N : Type 0) : Type 0 where
  pub new_encoder : E
  pub set_bitrate : E → Bitrate → E
  pub encode : E → List ℤ → E × Option Packet
  pub new_denoiser : N
  pub denoise : N → List F → N × List F

-- What other threads may write between two frames.
pub record Flags (F : Type 0) : Type 0 where
  pub transmit : Bool
  pub monitor : Bool
  pub dtx : Bool
  pub bitrate : ℕ
  pub dsp_cfg : DspConfig F

-- What the loop finds each time it comes round: `stop`, and the captured samples.
pub record Turn : Type 0 where
  pub stop : Bool
  pub chunk : List ℤ

-- What the loop over the frames changes; `sent` is what went into `opus_tx`, in order, and `count`
-- numbers the frames.
pub record Output (F E : Type 0) : Type 0 where
  pub dsp : Dsp F
  pub enc : E
  pub last_br : ℕ
  pub mix : Dict (List ℤ)
  pub sent : List Packet
  pub count : ℕ

pub record Encoding (F D E N : Type 0) : Type 0 where
  pub up : Resampler F D
  pub buf48 : List F
  pub den : N
  pub clean : List F
  pub output : Output F E

-- `m.entry(peer).or_default()`, the samples pushed behind it, and the loop that caps it.
unfoldable pub push_capped : (cap : ℕ) (peer : String) → List ℤ → Dict (List ℤ) → Dict (List ℤ)
push_capped cap peer frame mix = insert peer (trim cap (unwrap_or (get peer mix) [] ++ frame)) mix

-- `frame.iter().all(|&s| (s as i32).abs() < 250)`
unfoldable pub silent : List ℤ → Bool
silent frame = all (λ s. ltb (abs s) 250) frame

-- `s as f32 / 32768.0`
abbrev pub to_unit : {F : Type 0} ⦃f : Float F⦄ → ℤ → F
to_unit ⦃f⦄ s = f.of_int s /f lit 32768 1

module _ {F D E N : Type 0} ⦃f : Float F⦄ ⦃d : Float D⦄ (narrow : D → F) (codec : Codec F E N) where
  -- The variables before the loop; `u32::MAX` is no bitrate that was set.
  abbrev pub new_encoding : (in_rate : ℕ) → Dict (List ℤ) → Encoding F D E N
  new_encoding in_rate mix = record {
    up = new_resampler in_rate opus_sr;
    buf48 = [];
    den = codec.new_denoiser;
    clean = [];
    output = record {
      dsp = new_dsp;
      enc = codec.new_encoder;
      last_br = 4294967295;
      mix = mix;
      sent = [];
      count = 0;
    };
  }

  -- One turn of the denoising loop, on the denoiser and on `clean`.
  unfoldable pub denoise_block : N × List F → List F → N × List F
  denoise_block (den, clean) block =
      let (den', out) = codec.denoise den (map (λ s. s *f lit 32768 1) block) in
      (den', clean ++ map (λ s. clamp (s /f lit 32768 1) (f.neg (lit 1 1)) (lit 1 1)) out)

  -- `if br != last_br { … }`
  unfoldable pub update_bitrate : (br : ℕ) → Output F E → Output F E
  update_bitrate br o = if nat_eq br o.last_br then o else record o {
    enc =
        codec.set_bitrate o.enc (if nat_eq br 0 then auto else bits_per_second (wrap i32 (pos br)));
    last_br = br;
  }

  -- `if let Ok(n) = enc.encode(…) { opus_tx.send(…) }`
  unfoldable pub send_frame : List ℤ → Output F E → Output F E
  send_frame frame o =
      let (enc, packet) = codec.encode o.enc frame in
      record o { enc = enc; sent = o.sent ++ elim packet [ none ↦ [] | some p ↦ p ∷ [] ] }

  -- The block under `if transmit.load(…)`.
  unfoldable pub transmit_frame : Flags F → List ℤ → Output F E → Output F E
  transmit_frame flags frame o =
      let o1 = update_bitrate flags.bitrate o in
      if flags.dtx && silent frame then o1 else send_frame frame o1

  -- One turn of the loop over the frames: `flags n` is what it reads for frame `n`.
  unfoldable pub encode_frame : (flags : ℕ → Flags F) → Output F E → List F → Output F E
  encode_frame flags o block =
      let now = flags o.count in
      let (dsp, frame) = process_frame now.dsp_cfg o.dsp block in
      let o1 = record o {
        dsp = dsp;
        mix = if now.monitor then push_capped self_cap "self" frame o.mix else o.mix;
        count = suc o.count;
      } in
      if now.transmit then transmit_frame now frame o1 else o1

  module _ (fuel : ℕ) (flags : ℕ → Flags F) where
    -- One turn of the outer loop, on what `cap.drain(..)` took.
    unfoldable pub encode_chunk : Encoding F D E N → (chunk : List ℤ) → Encoding F D E N
    encode_chunk s [] = s
    encode_chunk s (x ∷ xs) =
        let (up, out) = Resampler.process narrow fuel s.up (map to_unit (x ∷ xs)) in
        let ((den, clean), buf48) = drain ns denoise_block (s.den, s.clean) (s.buf48 ++ out) in
        let (output, rest) = drain frame (encode_frame flags) s.output clean in
        record { up = up; buf48 = buf48; den = den; clean = rest; output = output }

    unfoldable pub encode_loop : Encoding F D E N → List Turn → Encoding F D E N
    encode_loop s [] = s
    encode_loop s (turn ∷ turns) =
        let rest = encode_loop (encode_chunk s turn.chunk) turns in if turn.stop then s else rest
