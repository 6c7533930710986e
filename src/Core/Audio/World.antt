-- ===== src/Core/Audio/World.antt =====
-- The threads of apps/companion-core/src/audio.rs and what they share: each step is what one thread
-- does while it holds a lock.
pub mod Bounds
use rdoc_sacompanion.Base.{ℕ, String, Bool, true, List, [], ◌++◌, ℤ, ◌≡◌}
use rdoc_sacompanion.Dict.{Dict}
use rdoc_sacompanion.Core.Audio.{Gains}
use rdoc_sacompanion.Core.Audio.Floats.{Float}
use rdoc_sacompanion.Core.Audio.Devices.{capture_i16, capture_f32, play_i16, play_f32}
use rdoc_sacompanion.Core.Audio.Encode.{Codec, Flags, Output, Packet, encode_frame}
use rdoc_sacompanion.Core.Audio.Decode.{Decoder, Decoding, decode_packet}
use rdoc_sacompanion.Core.Audio.Mixer.{ring_cap, mix_peers, push_ring}

-- The capture `Buf`, which has no cap, `MixMap` and the playback `Buf`.
pub record Shared : Type 0 where
  pub cap : List ℤ
  pub mix : Dict (List ℤ)
  pub play : List ℤ

module _ {F D E N C : Type 0} ⦃f : Float F⦄ ⦃d : Float D⦄ (narrow : D → F) (codec : Codec F E N)
    (opus : Decoder C) (out_rate : ℕ) where
  pub data Step : Shared → Shared → Type 0 where
    -- the input callbacks
    captured_i16 :
        (s : Shared) (ch : ℕ) (data_in : List ℤ)
        → Step s (record s { cap = capture_i16 ch data_in s.cap })
    captured_f32 :
        (s : Shared) (ch : ℕ) (data_in : List F)
        → Step s (record s { cap = capture_f32 ch data_in s.cap })
    -- `encode_loop`, the lock of the capture buffer: all of it is the next chunk
    drained : (s : Shared) → Step s (record s { cap = [] })
    -- `encode_loop`, one frame
    encoded :
        (s : Shared) (flags : ℕ → Flags F) (o : Output F E) (block : List F)
        → o.mix ≡ s.mix
        → Step s (record s { mix = (encode_frame narrow codec flags o block).mix })
    -- `decode_loop`, one packet
    decoded :
        (s : Shared) (d : Decoding C) (from : String) (payload : Packet)
        → d.mix ≡ s.mix
        → Step s (record s { mix = (decode_packet opus d (from, payload)).mix })
    -- `mixer_loop`, the lock of the map
    mixed :
        (s : Shared) (gains : Gains F) (silence : List ℤ)
        → Step s (record s { mix = (mix_peers gains s.mix silence).0 })
    -- `mixer_loop`, the lock of the ring
    pushed :
        (s : Shared) (o : List F)
        → Step s (record s { play = push_ring (ring_cap out_rate) o s.play })
    -- the output callbacks
    played_i16 :
        (s : Shared) (ch : ℕ) (data_out : List ℤ)
        → Step s (record s { play = (play_i16 ch data_out s.play).1 })
    played_f32 :
        (s : Shared) (ch : ℕ) (data_out : List F)
        → Step s (record s { play = (play_f32 ch data_out s.play).1 })

  pub data Reach : Shared → Shared → Type 0 where
    start : (s : Shared) → Reach s s
    next : (s t u : Shared) → Reach s t → Step t u → Reach s u
