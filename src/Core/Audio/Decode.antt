-- ===== src/Core/Audio/Decode.antt =====
-- `decode_loop` of apps/companion-core/src/audio.rs: from the peers' Opus packets to the mix map. The
-- decoder is a parameter.
pub mod Peers
use rdoc_sacompanion.Base.{ℕ, String, Option, none, some, List, [], ◌∷◌, ℤ, unwrap_or}
use rdoc_sacompanion.Dict.{Dict, get, insert}
use rdoc_sacompanion.Core.Audio.Encode.{Packet, push_capped}

-- About 400 ms of one peer.
abbrev pub peer_cap : ℕ
peer_cap = 19200

-- The crate audiopus: `decode` changes the decoder, and returns its samples or an error.
pub record Decoder (C : Type 0) : Type 0 where
  pub new_decoder : C
  pub decode : C → Packet → C × Option (List ℤ)

pub record Decoding (C : Type 0) : Type 0 where
  pub decoders : Dict C
  pub mix : Dict (List ℤ)

module _ {C : Type 0} (opus : Decoder C) where
  -- One turn of the loop.
  unfoldable pub decode_packet : Decoding C → String × Packet → Decoding C
  decode_packet s (peer, payload) =
      let (dec, out) = opus.decode (unwrap_or (get peer s.decoders) opus.new_decoder) payload in
      record {
        decoders = insert peer dec s.decoders;
        mix = elim out [ none ↦ s.mix | some samples ↦ push_capped peer_cap peer samples s.mix ];
      }

  -- The loop runs until the channel is closed.
  unfoldable pub decode_loop : Decoding C → List (String × Packet) → Decoding C
  decode_loop s [] = s
  decode_loop s (p ∷ ps) = decode_loop (decode_packet s p) ps
