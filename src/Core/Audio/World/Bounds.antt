-- ===== src/Core/Audio/World/Bounds.antt =====
-- The mix map's buffers and the playback ring stay within their caps, whatever the threads do.
use rdoc_sacompanion.Base.{
  ℕ, ◌≤◌, ◌≡◌, sym, subst, String, ◌==◌, Bool, true, false, Bool-cases, inl, inr, Option-cases,
  List, [], ◌∷◌, ◌++◌, ◌&&◌, unwrap_or, ℤ, length, length-trim_le, length-drop, All, arith,
  if◌then◌else◌,
}
use rdoc_sacompanion.Dict.{Dict, get, insert, remove}
use rdoc_sacompanion.Core.Audio.{Gains, frame}
use rdoc_sacompanion.Core.Audio.Floats.{Float, lit, ◌/f◌}
use rdoc_sacompanion.Core.Audio.Devices.{chunks, fill_output}
use rdoc_sacompanion.Core.Audio.Devices.Downmix.{fill_output-rest}
use rdoc_sacompanion.Core.Audio.Encode.{
  Codec, Packet, self_cap, silent, Flags, Output, push_capped, update_bitrate, send_frame,
  transmit_frame, encode_frame,
}
use rdoc_sacompanion.Core.Audio.Decode.{Decoder, Decoding, peer_cap, decode_packet}
use rdoc_sacompanion.Core.Audio.Mixer.{min, ring_cap, mix_peers, push_ring}
use rdoc_sacompanion.Core.Audio.World.{Shared, Step, Reach}

abbrev Short : String × List ℤ → Type 0
Short e = length e.1 ≤ peer_cap

-- No peer's buffer holds more than 400 ms, and the ring no more than half a second.
pub record IsBounded (out_rate : ℕ) (s : Shared) : Type 0 where
  pub peers : All Short s.mix
  pub ring : length s.play ≤ ring_cap out_rate

remove-Short : (k : String) (m : Dict (List ℤ)) → All Short m → All Short (remove k m)
unfolding remove
remove-Short k [] h = tt
remove-Short k ((j, b) ∷ m) h = elim (Bool-cases (j == k)) [
  | inl e ↦ rw e (remove-Short k m h.1)
  | inr e ↦ rw e (h.0, remove-Short k m h.1)
]

push_capped-Short :
    (cap : ℕ) (peer : String) (new : List ℤ) (m : Dict (List ℤ))
    → cap ≤ peer_cap
    → All Short m
    → All Short (push_capped cap peer new m)
unfolding push_capped insert
push_capped-Short cap peer new m low h =
    (omega (arith, length-trim_le cap (unwrap_or (get peer m) [] ++ new)), remove-Short peer m h)

module _ {F D E N C : Type 0} ⦃f : Float F⦄ ⦃d : Float D⦄ (narrow : D → F) (codec : Codec F E N)
    (opus : Decoder C) (out_rate : ℕ) where
  transmit_frame-mix :
      (flags : Flags F) (samples : List ℤ) (o : Output F E)
      → (transmit_frame narrow codec flags samples o).mix ≡ o.mix
  unfolding transmit_frame update_bitrate send_frame
  transmit_frame-mix flags samples o = elim (Bool-cases (flags.dtx && silent samples)) [
    | inl e ↦ rw e (ground arith)
    | inr e ↦ rw e (ground arith)
  ]

  monitored-Short :
      (monitor : Bool) (samples : List ℤ) (m : Dict (List ℤ))
      → All Short m
      → All Short (if monitor then push_capped self_cap "self" samples m else m)
  monitored-Short true samples m h = push_capped-Short self_cap "self" samples m (omega arith) h
  monitored-Short false samples m h = h

  encode_frame-Short :
      (flags : ℕ → Flags F) (o : Output F E) (block : List F)
      → All Short o.mix
      → All Short (encode_frame narrow codec flags o block).mix
  unfolding encode_frame
  encode_frame-Short flags o block h =
      let now = flags o.count in
      elim (Bool-cases now.transmit) [
        | inl e ↦ simp (e, transmit_frame-mix) (monitored-Short now.monitor _ o.mix h)
        | inr e ↦ rw e (monitored-Short now.monitor _ o.mix h)
      ]

  decode_packet-Short :
      (s : Decoding C) (from : String) (payload : Packet)
      → All Short s.mix
      → All Short (decode_packet opus s (from, payload)).mix
  unfolding decode_packet
  decode_packet-Short s from payload h =
      elim (Option-cases
        (opus.decode (unwrap_or (get from s.decoders) opus.new_decoder) payload).1) [
          | inl e ↦ rw e h
          | inr (out, e) ↦ rw e (push_capped-Short peer_cap from out s.mix (omega arith) h)
        ]

  mix_peers-Short :
      (gains : Gains F) (m : Dict (List ℤ)) (mixed : List ℤ)
      → All Short m
      → All Short (mix_peers gains m mixed).0
  unfolding mix_peers
  mix_peers-Short gains [] mixed h = tt
  mix_peers-Short gains ((peer, b) ∷ m) mixed h =
      (omega (arith, length-drop (min (length b) frame) b, h.0), mix_peers-Short gains m _ h.1)

  output-low :
      {A : Type 0} (emit : ℤ → A) (ch : ℕ) (data_out : List A) (play : List ℤ)
      → length play ≤ ring_cap out_rate
      → length (fill_output emit ch data_out play).1 ≤ ring_cap out_rate
  output-low emit ch data_out play h =
      rw (fill_output-rest emit ch data_out play)
        (omega (arith, length-drop (length (chunks ch data_out)) play))

  Step-IsBounded :
      {s t : Shared}
      → Step narrow codec opus out_rate s t
      → IsBounded out_rate s
      → IsBounded out_rate t
  Step-IsBounded (Step.captured_i16 s ch data_in) i = record { peers = i.peers; ring = i.ring }
  Step-IsBounded (Step.captured_f32 s ch data_in) i = record { peers = i.peers; ring = i.ring }
  Step-IsBounded (Step.drained s) i = record { peers = i.peers; ring = i.ring }
  Step-IsBounded (Step.encoded s flags o block e) i = record {
    peers = encode_frame-Short flags o block (subst (All Short) (sym e) i.peers);
    ring = i.ring;
  }
  Step-IsBounded (Step.decoded s d from payload e) i = record {
    peers = decode_packet-Short d from payload (subst (All Short) (sym e) i.peers);
    ring = i.ring;
  }
  Step-IsBounded (Step.mixed s gains silence) i = record {
    peers = mix_peers-Short gains s.mix silence i.peers;
    ring = i.ring;
  }
  Step-IsBounded (Step.pushed s o) i = record {
    peers = i.peers;
    ring = unfold push_ring in length-trim_le (ring_cap out_rate) _;
  }
  Step-IsBounded (Step.played_i16 s ch data_out) i = record {
    peers = i.peers;
    ring = output-low (λ v. v) ch data_out s.play i.ring;
  }
  Step-IsBounded (Step.played_f32 s ch data_out) i = record {
    peers = i.peers;
    ring = output-low (λ v. f.of_int v /f lit 32768 1) ch data_out s.play i.ring;
  }

  -- From a start within the caps of the mix map and of the ring, no interleaving of the threads leaves
  -- them. (The capture buffer has no cap.)
  pub Reach-IsBounded :
      {s t : Shared}
      → Reach narrow codec opus out_rate s t
      → IsBounded out_rate s
      → IsBounded out_rate t
  Reach-IsBounded (Reach.start s) i = i
  Reach-IsBounded (Reach.next s t u r step) i = Step-IsBounded step (Reach-IsBounded r i)
