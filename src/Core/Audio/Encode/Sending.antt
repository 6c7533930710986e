-- ===== src/Core/Audio/Encode/Sending.antt =====
-- When `encode_loop` sends, and what it keeps between its turns.
use rdoc_sacompanion.Base.{
  ℕ, ◌<◌, ◌≡◌, refl, List, [], ◌∷◌, ℤ, arith, drain-keeps, drain-rest, All, All-append, length,
  Option, none, some, true, false, Bool-cases, inl, inr,
}
use rdoc_sacompanion.Core.Audio.{frame}
use rdoc_sacompanion.Core.Audio.Floats.{Float}
use rdoc_sacompanion.Core.Audio.Encode.{
  Codec, Packet, Flags, Turn, Output, Encoding, ns, silent, denoise_block, update_bitrate,
  send_frame, transmit_frame, encode_frame, encode_chunk, encode_loop,
}

module _ {F D E N : Type 0} ⦃f : Float F⦄ ⦃d : Float D⦄ (narrow : D → F) (codec : Codec F E N) where
  -- What every turn keeps is kept by a run of the loop.
  module _ {κ} (fuel : ℕ) (flags : ℕ → Flags F) where
    encode_loop-keeps :
        (P : Encoding F D E N → Type κ)
        → ((s : Encoding F D E N) (chunk : List ℤ)
            → P s
            → P (encode_chunk narrow codec fuel flags s chunk))
        → (turns : List Turn) (s : Encoding F D E N) → P s
        → P (encode_loop narrow codec fuel flags s turns)
    unfolding encode_loop
    encode_loop-keeps P keeps [] s p = p
    encode_loop-keeps P keeps (t ∷ turns) s p = elim (Bool-cases t.stop) [
      | inl e ↦ rw e p
      | inr e ↦ rw e (
          encode_loop-keeps P keeps turns (encode_chunk narrow codec fuel flags s t.chunk)
            (keeps s t.chunk p))
    ]

    -- The same for what every frame keeps.
    encode_loop-keeps_output :
        (P : Output F E → Type κ)
        → ((o : Output F E) (block : List F) → P o → P (encode_frame narrow codec flags o block))
        → (turns : List Turn) (s : Encoding F D E N) → P s.output
        → P (encode_loop narrow codec fuel flags s turns).output
    encode_loop-keeps_output P keeps = encode_loop-keeps (λ t. P t.output) every_frame
      where
        every_frame :
            (t : Encoding F D E N) (chunk : List ℤ)
            → P t.output
            → P (encode_chunk narrow codec fuel flags t chunk).output
        every_frame t [] p = unfold encode_chunk in p
        every_frame t (x ∷ xs) p =
            unfold encode_chunk in
            drain-keeps frame (encode_frame narrow codec flags) P keeps t.output _ p

  -- While nobody presses the key nothing is sent, and the encoder is not touched.
  pub encode_loop-muted :
      (fuel : ℕ) (flags : ℕ → Flags F) (s : Encoding F D E N) (turns : List Turn)
      → ((n : ℕ) → (flags n).transmit ≡ false)
      → let after = (encode_loop narrow codec fuel flags s turns).output in
        (after.sent ≡ s.output.sent) × (after.enc ≡ s.output.enc)
  encode_loop-muted fuel flags s turns muted =
      encode_loop-keeps_output fuel flags (λ o. (o.sent ≡ s.output.sent) × (o.enc ≡ s.output.enc))
        muted_frame turns s (refl, refl)
    where
      muted_frame :
          (o : Output F E) (block : List F)
          → (o.sent ≡ s.output.sent) × (o.enc ≡ s.output.enc)
          → let o' = encode_frame narrow codec flags o block in
            (o'.sent ≡ s.output.sent) × (o'.enc ≡ s.output.enc)
      muted_frame o block p = unfold encode_frame in rw muted p

  -- The encoder made the packet of a frame that is not silent.
  pub record IsLoud (p : Packet) : Type 0 where
    pub enc : E
    pub samples : List ℤ
    pub loud : silent samples ≡ false
    pub made : (codec.encode enc samples).1 ≡ some p

  send_frame-IsLoud :
      (samples : List ℤ) (o : Output F E)
      → silent samples ≡ false
      → All IsLoud o.sent
      → All IsLoud (send_frame narrow codec samples o).sent
  unfolding send_frame
  send_frame-IsLoud samples o e p = All-append IsLoud o.sent _ p (answer _ refl)
    where
      answer :
          (r : Option Packet)
          → (codec.encode o.enc samples).1 ≡ r
          → All IsLoud (elim r [ none ↦ [] | some q ↦ q ∷ [] ])
      answer none h = tt
      answer (some q) h = (record { enc = o.enc; samples = samples; loud = e; made = h }, tt)

  update_bitrate-sent : (br : ℕ) (o : Output F E) → (update_bitrate narrow codec br o).sent ≡ o.sent
  unfolding update_bitrate
  update_bitrate-sent br o = ground arith

  transmit_frame-IsLoud :
      (flags : Flags F) (samples : List ℤ) (o : Output F E)
      → flags.dtx ≡ true
      → All IsLoud o.sent
      → All IsLoud (transmit_frame narrow codec flags samples o).sent
  unfolding transmit_frame
  transmit_frame-IsLoud flags samples o dtx p = elim (Bool-cases (silent samples)) [
    | inl e ↦ rw (dtx, e, update_bitrate-sent) p
    | inr e ↦ rw (dtx, e) (send_frame-IsLoud samples _ e (rw update_bitrate-sent p))
  ]

  encode_frame-IsLoud :
      (flags : ℕ → Flags F) (o : Output F E) (block : List F)
      → (flags o.count).dtx ≡ true
      → All IsLoud o.sent
      → All IsLoud (encode_frame narrow codec flags o block).sent
  unfolding encode_frame transmit_frame
  encode_frame-IsLoud flags o block dtx p = elim (Bool-cases (flags o.count).transmit) [
    | inl e ↦ rw e (transmit_frame-IsLoud (flags o.count) _ _ dtx p)
    | inr e ↦ rw e p
  ]

  -- With silence suppressed, only frames with a sample of at least 250 are sent.
  pub encode_loop-IsLoud :
      (fuel : ℕ) (flags : ℕ → Flags F) (s : Encoding F D E N) (turns : List Turn)
      → ((n : ℕ) → (flags n).dtx ≡ true)
      → All IsLoud s.output.sent
      → All IsLoud (encode_loop narrow codec fuel flags s turns).output.sent
  encode_loop-IsLoud fuel flags s turns dtx loud =
      encode_loop-keeps_output fuel flags (λ o. All IsLoud o.sent)
        (λ o block p. encode_frame-IsLoud flags o block (dtx o.count) p) turns s loud

  -- Between two turns less than a block waits for the denoiser and less than a frame for the
  -- encoder.
  pub record IsSettled (s : Encoding F D E N) : Type 0 where
    pub block : length s.buf48 < ns
    pub waiting : length s.clean < frame

  encode_chunk-IsSettled :
      (fuel : ℕ) (flags : ℕ → Flags F) (s : Encoding F D E N) (chunk : List ℤ)
      → IsSettled s
      → IsSettled (encode_chunk narrow codec fuel flags s chunk)
  unfolding encode_chunk
  encode_chunk-IsSettled fuel flags s [] i = i
  encode_chunk-IsSettled fuel flags s (x ∷ xs) i = record {
    block = drain-rest ns (denoise_block narrow codec) (s.den, s.clean) _ (omega arith);
    waiting = drain-rest frame (encode_frame narrow codec flags) s.output _ (omega arith);
  }

  -- However much is captured at once, the loop waits for no more than 10 ms before the denoiser and
  -- 20 ms before the encoder.
  pub encode_loop-IsSettled :
      (fuel : ℕ) (flags : ℕ → Flags F) (s : Encoding F D E N) (turns : List Turn)
      → IsSettled s
      → IsSettled (encode_loop narrow codec fuel flags s turns)
  encode_loop-IsSettled fuel flags s turns i =
      encode_loop-keeps fuel flags IsSettled (encode_chunk-IsSettled fuel flags) turns s i
