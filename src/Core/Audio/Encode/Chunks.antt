-- ===== src/Core/Audio/Encode/Chunks.antt =====
-- How the capture buffer is cut into chunks makes no difference to `encode_loop`.
use mathlib.Core.List.{append_assoc, append-nil, map-append}
use rdoc_sacompanion.Base.{
  ℕ, ◌≡◌, refl, sym, ap, ◌∙◌, List, [], ◌∷◌, ◌++◌, map, ℤ, arith, drain, drain-append, drain-map,
  flatten, false,
}
use rdoc_sacompanion.Core.Audio.{frame}
use rdoc_sacompanion.Core.Audio.Floats.{Float}
use rdoc_sacompanion.Core.Audio.Resampler.{Resampler, process}
use rdoc_sacompanion.Core.Audio.Resampler.Rate.{process-append}
use rdoc_sacompanion.Core.Audio.Encode.{
  Codec, Flags, Output, Encoding, ns, to_unit, denoise_block, encode_frame, encode_chunk,
  encode_loop,
}

module _ {F D E N : Type 0} ⦃f : Float F⦄ ⦃d : Float D⦄ (narrow : D → F) (codec : Codec F E N) where
  denoise_block-behind :
      (before : List F) (s : N × List F) (block : List F)
      → let (den', clean') = denoise_block narrow codec s block in
        denoise_block narrow codec (s.0, before ++ s.1) block ≡ (den', before ++ clean')
  unfolding denoise_block
  denoise_block-behind before s block = rw append_assoc refl

  abbrev denoise_all : N → (clean buf : List F) → (N × List F) × List F
  denoise_all den clean buf = drain ns (denoise_block narrow codec) (den, clean) buf

  -- The denoising loop only appends to `clean`.
  denoise-behind :
      (den : N) (before buf : List F)
      → let ((den', new), rest) = denoise_all den [] buf in
        denoise_all den before buf ≡ ((den', before ++ new), rest)
  denoise-behind den before buf =
      ap (λ c. denoise_all den c buf) (sym (append-nil before))
      ∙ drain-map ns (denoise_block narrow codec) (λ s. (s.0, before ++ s.1))
          (denoise_block-behind before) (den, []) buf

  -- The loop over the frames, and the state that the turn leaves.
  abbrev close :
      (ℕ → Flags F) → Resampler F D → Output F E → (N × List F) × List F → Encoding F D E N
  close flags up o ((den, clean), buf48) =
      let (output, rest) = drain frame (encode_frame narrow codec flags) o clean in
      record { up = up; buf48 = buf48; den = den; clean = rest; output = output }

  -- Frames that are complete may be encoded before more blocks are denoised.
  close-early :
      (flags : ℕ → Flags F) (up : Resampler F D) (o : Output F E) (den : N) (clean buf : List F)
      → let (o1, clean1) = drain frame (encode_frame narrow codec flags) o clean in
        close flags up o (denoise_all den clean buf)
        ≡ close flags up o1 (denoise_all den clean1 buf)
  close-early flags up o den clean buf =
      let (o1, clean1) = drain frame (encode_frame narrow codec flags) o clean in
      let ((den', new), rest) = denoise_all den [] buf in
      ap (close flags up o) (denoise-behind den clean buf)
      ∙ ap (λ r. record { up = up; buf48 = rest; den = den'; clean = r.1; output = r.0 })
          (drain-append frame (encode_frame narrow codec flags) o clean new (omega arith))
      ∙ ap (close flags up o1) (sym (denoise-behind den clean1 buf))

  -- Two turns do what one turn with both chunks does, if each frame finds the same flags.
  pub encode_chunk-append :
      (fuel : ℕ) (flags : ℕ → Flags F) (s : Encoding F D E N) (xs ys : List ℤ)
      → let once = encode_chunk narrow codec fuel flags in once s (xs ++ ys) ≡ once (once s xs) ys
  unfolding encode_chunk
  encode_chunk-append fuel flags s [] ys = refl
  encode_chunk-append fuel flags s (x ∷ xs) [] = rw append-nil refl
  encode_chunk-append fuel flags s (x ∷ xs) (y ∷ ys) =
      let scale = map (to_unit {F = F}) in
      let (up1, out1) = process narrow fuel s.up (scale (x ∷ xs)) in
      let (up2, out2) = process narrow fuel up1 (scale (y ∷ ys)) in
      let ((den1, clean1), rest1) = denoise_all s.den s.clean (s.buf48 ++ out1) in
      ap (λ r. close flags r.0 s.output (denoise_all s.den s.clean (s.buf48 ++ r.1)))
        (ap (process narrow fuel s.up) (map-append to_unit (x ∷ xs) (y ∷ ys))
          ∙ process-append narrow fuel s.up (scale (x ∷ xs)) (scale (y ∷ ys)))
      ∙ ap (close flags up2 s.output) (
          ap (denoise_all s.den s.clean) (sym (append_assoc s.buf48 out1 out2))
          ∙ drain-append ns (denoise_block narrow codec) (s.den, s.clean) (s.buf48 ++ out1) out2
              (omega arith))
      ∙ close-early flags up2 s.output den1 clean1 (rest1 ++ out2)

  -- The loop depends on the samples and on what each frame finds in the flags, and not on the
  -- moments at which it found the samples.
  pub encode_loop-flatten :
      (fuel : ℕ) (flags : ℕ → Flags F) (s : Encoding F D E N) (chunks : List (List ℤ))
      → encode_loop narrow codec fuel flags s (map (λ c. record { stop = false; chunk = c }) chunks)
        ≡ encode_chunk narrow codec fuel flags s (flatten chunks)
  unfolding encode_loop
  encode_loop-flatten fuel flags s [] = unfold encode_chunk in refl
  encode_loop-flatten fuel flags s (c ∷ chunks) =
      encode_loop-flatten fuel flags (encode_chunk narrow codec fuel flags s c) chunks
      ∙ sym (encode_chunk-append fuel flags s c (flatten chunks))
