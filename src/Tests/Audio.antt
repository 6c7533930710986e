-- ===== src/Tests/Audio.antt =====
-- Runs of the audio threads on concrete inputs, with fixed-point numbers for the floats.
use rdoc_sacompanion.Base.{
  ℕ, zero, suc, ◌+◌, ◌-◌, ◌*◌, ◌/◌, ◌≤◌, String, ◌≡◌, refl, Bool, true, false, none, some, List, [],
  ◌∷◌, map, ℤ, pos, negsuc, pos_part, neg_part, sub_ℕ, abs, ◌+ℤ◌, div_ℕ, i16, Fits, Between, ltb,
  leb, length, replicate, flatten, trim, arith, if◌then◌else◌,
}
use rdoc_sacompanion.Dict.{Dict, get}
use rdoc_sacompanion.Core.Audio.{frame, new_gains}
use rdoc_sacompanion.Core.Audio.Floats.{Float, clamp}
use rdoc_sacompanion.Core.Audio.Resampler.{Resampler, new_resampler, process}
use rdoc_sacompanion.Core.Audio.Resampler.Rate.{IsClock, IsOn, Processed}
use rdoc_sacompanion.Core.Audio.Resampler.Fuel.{process-Processed}
use rdoc_sacompanion.Core.Audio.Dsp.{default_config}
use rdoc_sacompanion.Core.Audio.Encode.{
  Codec, Packet, Flags, Turn, Encoding, new_encoding, encode_chunk, encode_loop,
}
use rdoc_sacompanion.Core.Audio.Encode.Chunks.{encode_loop-flatten}
use rdoc_sacompanion.Core.Audio.Encode.Sending.{encode_loop-muted}
use rdoc_sacompanion.Core.Audio.Decode.{Decoder, Decoding, peer_cap, decode_packet, decode_loop}
use rdoc_sacompanion.Core.Audio.Decode.Peers.{decoder_of, buffer_of, decode_loop_refines}
use rdoc_sacompanion.Core.Audio.Mixer.{Mixing, Meanwhile, mix_peers, refill}
use rdoc_sacompanion.Core.Audio.Mixer.Sum.{Setting, settled, IsScale, mix_exact, mix_peers-exact}
use rdoc_sacompanion.Core.Audio.Mixer.Refill.{IsReady, taken, refill-filled}
use rdoc_sacompanion.Core.Audio.World.{Shared, Step, Reach}
use rdoc_sacompanion.Core.Audio.World.Bounds.{IsBounded, Reach-IsBounded}

-- The difference of two integers.
abbrev diff : ℤ → ℤ → ℤ
diff a b = sub_ℕ (pos_part a + neg_part b) (neg_part a + pos_part b)

abbrev less : ℤ → ℤ → Bool
less a b = ltb (pos_part a + neg_part b) (pos_part b + neg_part a)

abbrev product : ℤ → ℤ → ℤ
product a b =
    sub_ℕ (pos_part a * pos_part b + neg_part a * neg_part b)
      (pos_part a * neg_part b + neg_part a * pos_part b)

-- f32 as thousandths.
instance abbrev thousandths : Float ℤ
thousandths = record {
  lit = λ n d. pos (n * 1000 / d);
  plus = λ a b. a +ℤ b;
  minus = diff;
  times = λ a b. div_ℕ (product a b) 1000;
  over = λ a b. div_ℕ (product a (pos 1000)) (abs b);
  neg = λ a. diff (pos 0) a;
  abs = λ a. pos (abs a);
  max = λ a b. if less a b then b else a;
  exp = λ a. pos 900;
  tanh = λ a. a;
  lt = less;
  le = λ a b. leb (pos_part a + neg_part b) (pos_part b + neg_part a);
  is_finite = λ a. true;
  of_int = λ a. product a (pos 1000);
  to_int = λ w a. div_ℕ a 1000;
}

-- f64 as thousandths, without a sign.
instance abbrev phases : Float ℕ
phases = record {
  lit = λ n d. n * 1000 / d;
  plus = λ a b. a + b;
  minus = λ a b. a - b;
  times = λ a b. a * b / 1000;
  over = λ a b. a * 1000 / b;
  neg = λ a. 0;
  abs = λ a. a;
  max = λ a b. if ltb a b then b else a;
  exp = λ a. 900;
  tanh = λ a. a;
  lt = λ a b. ltb a b;
  le = λ a b. leb a b;
  is_finite = λ a. true;
  of_int = λ a. pos_part a * 1000;
  to_int = λ w a. pos (a / 1000);
}

abbrev narrow : ℕ → ℤ
narrow n = pos n

carry_back : (t : ℕ) → Unit {0} → ltb t 1000 ≡ false → t - 1000 + 1000 ≡ t
carry_back t u h = ground arith

-- From 48 kHz to 48 kHz.
abbrev clock : IsClock {D = ℕ} 1000
clock = record {
  Taken = λ t. Unit;
  ticks = λ t. t;
  one = 1000;
  lo = 1000;
  hi = 1000;
  lo_pos = omega arith;
  start = tt;
  ticks-start = refl;
  below = λ t u. refl;
  advance = λ t u h. tt;
  fast = λ t u h. omega arith;
  slow = λ t u h. omega arith;
  carry = λ t u h. tt;
  ticks-carry = carry_back;
}

abbrev primed : Resampler ℤ ℕ
primed = record { step = 1000; t = 0; prev = pos 5; have_prev = true }

abbrev primed_on : IsOn narrow 1000 clock primed
primed_on = record { same_step = refl; taken = tt; low = omega arith }

process-Processed_example :
    let (r, out) = process narrow 1000 primed (pos 7 ∷ pos 9 ∷ []) in
    Processed narrow 1000 clock primed 2 out r
    × (process narrow 5000 primed (pos 7 ∷ pos 9 ∷ []) ≡ (r, out))
process-Processed_example =
    process-Processed narrow 1000 clock 1000 (omega arith) 5000 (omega arith) primed
      (pos 7 ∷ pos 9 ∷ []) primed_on refl

-- An encoder that numbers its packets, a denoiser that does nothing, and a decoder that refuses empty
-- packets and makes each byte a sample.
abbrev codec : Codec ℤ ℕ Unit
codec = record {
  new_encoder = 0;
  set_bitrate = λ e b. e;
  encode = λ e samples. (suc e, some (e ∷ []));
  new_denoiser = tt;
  denoise = λ n xs. (n, xs);
}

abbrev opus : Decoder ℕ
opus = record {
  new_decoder = 0;
  decode = λ c p. (suc c, elim p [ [] ↦ none | ◌∷◌ x xs ↦ some (map pos (x ∷ xs)) ]);
}

abbrev flags : (transmit : Bool) → ℕ → Flags ℤ
flags transmit n = record {
  transmit = transmit;
  monitor = ltb n 2;
  dtx = true;
  bitrate = 16000;
  dsp_cfg = default_config;
}

abbrev fresh : Encoding ℤ ℕ ℕ Unit
fresh = new_encoding narrow codec 48000 []

abbrev voice : List ℤ
voice = replicate 1500 (pos 20000)

abbrev turns : List Turn
turns = record { stop = false; chunk = voice } ∷ record { stop = false; chunk = voice } ∷ []

encode_loop-flatten_example :
    encode_loop narrow codec 1000 (flags true) fresh turns
    ≡ encode_chunk narrow codec 1000 (flags true) fresh (flatten (voice ∷ voice ∷ []))
encode_loop-flatten_example =
    encode_loop-flatten narrow codec 1000 (flags true) fresh (voice ∷ voice ∷ [])

encode_loop-muted_example :
    let after = (encode_loop narrow codec 1000 (flags false) fresh turns).output in
    (after.sent ≡ []) × (after.enc ≡ 0)
encode_loop-muted_example =
    encode_loop-muted narrow codec 1000 (flags false) fresh turns (λ n. refl)

abbrev quiet : Decoding ℕ
quiet = record { decoders = []; mix = [] }

abbrev heard : List (String × Packet)
heard = ("kite", 1 ∷ 2 ∷ []) ∷ ("rook", 9 ∷ []) ∷ ("kite", []) ∷ ("kite", 3 ∷ []) ∷ []

decode_loop_refines_example :
    let s = decode_loop opus quiet heard in
    (decoder_of opus s "kite" ≡ 3)
    × (buffer_of opus s "kite" ≡ trim peer_cap (pos 1 ∷ pos 2 ∷ pos 3 ∷ []))
unfolding trim get
decode_loop_refines_example = decode_loop_refines opus quiet heard "kite" (ground arith)

abbrev mixing : Mixing ℤ ℕ
mixing = record {
  down = new_resampler 48000 48000;
  mix = ("kite", replicate 2000 (pos 500)) ∷ ("rook", pos 7 ∷ []) ∷ [];
  play = pos 1 ∷ [];
}

-- In each round a device takes 150 samples, and a speaker's samples come.
abbrev meanwhile : Meanwhile
meanwhile = record { mix = mixing.mix; before_push = 100; behind_push = 50 }

abbrev rounds : List Meanwhile
rounds = replicate 4 meanwhile

mixing-IsReady :
    IsReady narrow 1000 clock 1000 (omega arith) 957 (omega arith) 48000 (omega arith) mixing
mixing-IsReady = record {
  on = unfold new_resampler in record { same_step = refl; taken = tt; low = omega arith };
  low = omega arith;
}

refill-filled_example :
    (s : Mixing ℤ ℕ) × (refill narrow 1000 48000 rounds new_gains mixing ≡ some s)
    × IsReady narrow 1000 clock 1000 (omega arith) 957 (omega arith) 48000 (omega arith) s
    × (2880 ≤ length s.play)
refill-filled_example =
    refill-filled narrow 1000 clock 1000 (omega arith) 957 (omega arith) 48000 (omega arith) rounds
      new_gains mixing mixing-IsReady (unfold taken in omega arith)

abbrev shared : Shared
shared = record { cap = pos 8 ∷ []; mix = ("kite", pos 3 ∷ []) ∷ []; play = pos 1 ∷ pos 2 ∷ [] }

abbrev decoding : Decoding ℕ
decoding = record { decoders = []; mix = shared.mix }

Reach-IsBounded_example :
    IsBounded 48000
      (record shared { cap = []; mix = (decode_packet opus decoding ("kite", 5 ∷ [])).mix })
Reach-IsBounded_example =
    Reach-IsBounded narrow codec opus 48000
      (Reach.next shared (record shared { cap = [] }) _
        (Reach.next shared shared _ (Reach.start shared) (Step.drained shared))
        (Step.decoded (record shared { cap = [] }) decoding "kite" (5 ∷ []) refl))
      (record { peers = (omega arith, tt); ring = omega arith })

-- Whole numbers for the floats.
abbrev whole : Float ℤ
whole = record thousandths {
  lit = λ n d. pos (n / d);
  times = product;
  of_int = λ a. a;
  to_int = λ w a. a;
}

clamped : (v : ℤ) → Between 0 2 (clamp ⦃f = whole⦄ v (pos 0) (pos 2))
unfolding clamp
clamped v = record { above = ground arith; below = ground arith }

product-Between : (s c : ℤ) → Fits i16 s → Between 0 2 c → Between 65536 65536 (product s c)
product-Between s (pos zero) h b = record { above = ground arith; below = ground arith }
product-Between s (pos (suc zero)) h b =
    let above = h.above in
    let below = h.below in record { above = ground arith; below = ground arith }
product-Between s (pos (suc (suc zero))) h b =
    let above = h.above in
    let below = h.below in record { above = ground arith; below = ground arith }
product-Between s (pos (suc (suc (suc n)))) h b = absurd (omega (arith, b.above))
product-Between s (negsuc n) h b = absurd (omega (arith, b.below))

doubled_whole :
    (s v : ℤ) → Fits i16 s → Between 65536 65536 (product s (clamp ⦃f = whole⦄ v (pos 0) (pos 2)))
doubled_whole s v h = product-Between s _ h (clamped v)

abbrev whole_scale : IsScale ℤ ⦃f = whole⦄
whole_scale = record {
  doubled = doubled_whole;
  unchanged =
      λ s h. product-Between s (pos 1) h (record { above = omega arith; below = omega arith });
}

abbrev peers : Dict (List ℤ)
peers = ("kite", replicate 3 (pos 32767)) ∷ ("rook", pos 32767 ∷ []) ∷ []

abbrev full : Fits i16 (pos 32767)
full = record { above = omega arith; below = omega arith }

abbrev settings : List (Setting ℤ)
settings = Setting.peer "kite" (pos 9) ∷ Setting.master (pos 1) ∷ []

mix_peers-exact_example :
    let silence = replicate frame (pos 0) in
    (mix_peers ⦃f = whole⦄ (settled ⦃f = whole⦄ settings) peers silence).1
    ≡ mix_exact ⦃f = whole⦄ (settled ⦃f = whole⦄ settings) peers silence
mix_peers-exact_example =
    mix_peers-exact ⦃f = whole⦄ whole_scale settings peers
      ((full, (full, (full, tt))), ((full, tt), tt)) (omega arith)
