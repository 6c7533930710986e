-- ===== src/Core/Audio/Devices/Downmix.antt =====
-- The callbacks of the sound cards: mixing down to one channel, and playing.
use rdoc_sacompanion.Base.{
  ℕ, zero, suc, ◌+◌, ◌*◌, ◌≤◌, ◌<◌, ◌≡◌, refl, ap, ◌∙◌, List, [], ◌∷◌, ◌++◌, map, ℤ, pos, ◌+ℤ◌,
  div_ℕ, i16, i32, Fits, Between, +ℤ-Between, div_ℕ-Between, wrap-fits, length, length-append,
  length-map, take, drop, flatten, take-drop, length-drop, All, arith,
}
use rdoc_sacompanion.Core.Audio.Devices.{
  chunks, chunks_fuel, sum_i32, mono_i16, fill_output, play_frames,
}

-- The sum without a bound.
abbrev pub total : (acc : ℤ) → List ℤ → ℤ
total acc [] = acc
total acc (x ∷ xs) = total (acc +ℤ x) xs

-- A sum of `k` samples of 16 bits.
abbrev Within : (k : ℕ) → ℤ → Type 0
Within k z = Between (k * 32768) (k * 32767) z

sample-Between : (x : ℤ) → Fits i16 x → Between 32768 32767 x
sample-Between x h = record { above = omega (arith, h.above); below = omega (arith, h.below) }

Within-Fits : (k : ℕ) (z : ℤ) → Within k z → k ≤ 65535 → Fits i32 z
Within-Fits k z w h = record { above = omega arith; below = omega arith }

sum-total :
    (k : ℕ) (xs : List ℤ) (acc : ℤ)
    → All (Fits i16) xs
    → Within k acc
    → k + length xs ≤ 65535
    → (sum_i32 acc xs ≡ total acc xs) × Within (k + length xs) (total acc xs)
unfolding sum_i32
sum-total k [] acc h w low = (refl, record { above = omega arith; below = omega arith })
sum-total k (x ∷ xs) acc h w low =
    let w1 = +ℤ-Between acc x w (sample-Between x h.0) in
    let w2 : Within (suc k) (acc +ℤ x) = record {
      above = omega (arith, w1.above);
      below = omega (arith, w1.below);
    } in
    let (e, r) = sum-total (suc k) xs (acc +ℤ x) h.1 w2 (omega arith) in
    rw (wrap-fits i32 (acc +ℤ x) (Within-Fits (suc k) (acc +ℤ x) w2 (omega arith)))
      (e, record { above = omega (arith, r.above); below = omega (arith, r.below) })

-- A frame of up to 65535 channels is mixed down to the average of its samples, rounded towards
-- zero: neither the 32-bit sum nor the cast back to 16 bits loses anything.
pub mono_i16-average :
    (fr : List ℤ)
    → All (Fits i16) fr
    → length fr ≤ 65535
    → (mono_i16 (length fr) fr ≡ div_ℕ (total (pos 0) fr) (length fr))
      × Fits i16 (mono_i16 (length fr) fr)
unfolding mono_i16
mono_i16-average fr h low =
    let n = length fr in
    let (e, w) =
      sum-total 0 fr (pos 0) h (record { above = omega arith; below = omega arith })
        (omega arith) in
    let d =
      div_ℕ-Between 32768 32767 n (total (pos 0) fr)
        (record { above = omega (arith, w.above); below = omega (arith, w.below) }) in
    let fits : Fits i16 (div_ℕ (total (pos 0) fr) n) = record {
      above = omega (arith, d.above);
      below = omega (arith, d.below);
    } in
    rw (e, wrap-fits i16 _ fits) (refl, fits)

module _ {A : Type 0} (n : ℕ) (some : 0 < n) where
  chunks_fuel-flatten :
      (fuel : ℕ) (xs : List A) → length xs ≤ fuel → flatten (chunks_fuel n fuel xs) ≡ xs
  chunks_fuel-flatten zero [] h = refl
  chunks_fuel-flatten zero (x ∷ xs) h = absurd (omega arith)
  chunks_fuel-flatten (suc fuel) [] h = refl
  chunks_fuel-flatten (suc fuel) (x ∷ xs) h =
      ap (λ ys. take n (x ∷ xs) ++ ys)
        (chunks_fuel-flatten fuel (drop n (x ∷ xs)) (omega (arith, length-drop n (x ∷ xs))))
      ∙ take-drop n (x ∷ xs)

  -- Cutting into frames loses nothing.
  pub chunks-flatten : (xs : List A) → flatten (chunks n xs) ≡ xs
  unfolding chunks
  chunks-flatten xs = chunks_fuel-flatten (length xs) xs (omega arith)

drop-nil : (n : ℕ) → drop {A = ℤ} n [] ≡ []
drop-nil zero = refl
drop-nil (suc n) = refl

module _ {A : Type 0} (emit : ℤ → A) where
  length-fill :
      (a : A) (fr out rest : List A)
      → length out ≡ length rest
      → length (map (λ o. a) fr ++ out) ≡ length (fr ++ rest)
  length-fill a fr out rest e =
      let filled = length-append (map (λ o. a) fr) out in
      omega (arith, filled, length-append fr rest, length-map fr (λ o. a))

  play_frames-filled :
      (frs : List (List A)) (play : List ℤ)
      → let (out, rest) = play_frames emit frs play in
        (length out ≡ length (flatten frs)) × (rest ≡ drop (length frs) play)
  play_frames-filled [] play = (refl, refl)
  play_frames-filled (fr ∷ frs) [] =
      let i = play_frames-filled frs [] in
      (length-fill _ fr _ (flatten frs) i.0, i.1 ∙ drop-nil (length frs))
  play_frames-filled (fr ∷ frs) (v ∷ play) =
      let i = play_frames-filled frs play in (length-fill _ fr _ (flatten frs) i.0, i.1)

  pub fill_output-rest :
      (ch : ℕ) (data_out : List A) (play : List ℤ)
      → (fill_output emit ch data_out play).1 ≡ drop (length (chunks ch data_out)) play
  unfolding fill_output
  fill_output-rest ch data_out play = (play_frames-filled (chunks ch data_out) play).1

  -- An output callback writes all of the device's buffer, and takes one sample for each frame, or
  -- all that there are.
  pub fill_output-filled :
      (ch : ℕ) (data_out : List A) (play : List ℤ)
      → 0 < ch
      → let (out, rest) = fill_output emit ch data_out play in
        (length out ≡ length data_out) × (rest ≡ drop (length (chunks ch data_out)) play)
  fill_output-filled ch data_out play some = (
    unfold fill_output in
        (play_frames-filled (chunks ch data_out) play).0
        ∙ ap length (chunks-flatten ch some data_out),
    fill_output-rest ch data_out play,
  )
