-- ===== src/Core/Audio/Decode/Peers.antt =====
-- `decode_loop` keeps the peers apart.
use mathlib.Core.List.{append_assoc, append-nil}
use rdoc_sacompanion.Base.{
  String, ◌==◌, eq_iff, eq_refl, ◌≡◌, refl, sym, ap, subst, ◌∙◌, false, List, [], ◌∷◌, ◌++◌, ℤ,
  unwrap_or, trim, trim-append, trim-short, length, length-trim_le, if◌then◌else◌, Bool-cases,
  Option-cases, inl, inr, ◌≤◌,
}
use rdoc_sacompanion.Dict.{get, get-insert}
use rdoc_sacompanion.Core.Audio.Encode.{Packet, push_capped}
use rdoc_sacompanion.Core.Audio.Decode.{Decoder, Decoding, peer_cap, decode_packet, decode_loop}

module _ {C : Type 0} (opus : Decoder C) where
  -- What one peer's packets decode to, one after the other, and the decoder behind them.
  abbrev pub decoded : C → List Packet → C × List ℤ
  decoded c [] = (c, [])
  decoded c (p ∷ ps) =
      let (c1, out) = opus.decode c p in
      let (c2, rest) = decoded c1 ps in (c2, unwrap_or out [] ++ rest)

  -- The packets that a peer sent, in their order.
  abbrev pub packets_of : String → List (String × Packet) → List Packet
  packets_of peer [] = []
  packets_of peer ((from, p) ∷ ps) =
      let rest = packets_of peer ps in if from == peer then p ∷ rest else rest

  -- One peer's view of the loop's state.
  abbrev pub decoder_of : Decoding C → String → C
  decoder_of s peer = unwrap_or (get peer s.decoders) opus.new_decoder

  abbrev pub buffer_of : Decoding C → String → List ℤ
  buffer_of s peer = unwrap_or (get peer s.mix) []

  decode_packet-others :
      (s : Decoding C) (from peer : String) (p : Packet)
      → (from == peer) ≡ false
      → let s' = decode_packet opus s (from, p) in
        (decoder_of s' peer ≡ decoder_of s peer) × (buffer_of s' peer ≡ buffer_of s peer)
  unfolding decode_packet push_capped
  decode_packet-others s from peer p e = elim (Option-cases (opus.decode (decoder_of s from) p).1) [
    | inl o ↦ rw (o, get-insert, e) (refl, refl)
    | inr (out, o) ↦ rw (o, get-insert, get-insert, e) (refl, refl)
  ]

  decode_packet-own :
      (s : Decoding C) (peer : String) (p : Packet)
      → length (buffer_of s peer) ≤ peer_cap
      → let (c, out) = opus.decode (decoder_of s peer) p in
        let s' = decode_packet opus s (peer, p) in
        (decoder_of s' peer ≡ c)
        × (buffer_of s' peer ≡ trim peer_cap (buffer_of s peer ++ unwrap_or out []))
  unfolding decode_packet push_capped
  decode_packet-own s peer p low = elim (Option-cases (opus.decode (decoder_of s peer) p).1) [
    | inl e ↦ rw (e, get-insert, eq_refl, append-nil) (refl, sym (trim-short peer_cap _ low))
    | inr (out, e) ↦ rw (e, get-insert, get-insert, eq_refl) (refl, refl)
  ]

  -- While the mixer takes nothing, a peer's buffer holds the newest 19200 samples of what was there
  -- and of all that its own decoder makes of its own packets, however the packets of the peers are
  -- interleaved.
  pub decode_loop_refines :
      (s : Decoding C) (ps : List (String × Packet)) (peer : String)
      → length (buffer_of s peer) ≤ peer_cap
      → let (c, samples) = decoded (decoder_of s peer) (packets_of peer ps) in
        let s' = decode_loop opus s ps in
        (decoder_of s' peer ≡ c) × (buffer_of s' peer ≡ trim peer_cap (buffer_of s peer ++ samples))
  unfolding decode_loop
  decode_loop_refines s [] peer low = (refl, rw (append-nil) (sym (trim-short peer_cap _ low)))
  decode_loop_refines s ((from, p) ∷ ps) peer low = elim (Bool-cases (from == peer)) [
    | inl e ↦
        let s1 = decode_packet opus s (peer, p) in
        let (hd, hb) = decode_packet-own s peer p low in
        let i =
          decode_loop_refines s1 ps peer
            (subst (λ b. length b ≤ peer_cap) (sym hb) (length-trim_le peer_cap _)) in
        let own = packets_of peer ps in
        let (c, out) = opus.decode (decoder_of s peer) p in
        let rest = (decoded c own).1 in
        rw ((eq_iff from peer).0 e, eq_refl)
          (
            i.0 ∙ ap (λ c. (decoded c own).0) hd,
            i.1
                ∙ ap (λ c. trim peer_cap (buffer_of s1 peer ++ (decoded c own).1)) hd
                ∙ ap (λ b. trim peer_cap (b ++ rest)) hb
                ∙ trim-append peer_cap (buffer_of s peer ++ unwrap_or out []) rest
                ∙ ap (trim peer_cap) (append_assoc (buffer_of s peer) (unwrap_or out []) rest),
          )
    | inr e ↦
        let (hd, hb) = decode_packet-others s from peer p e in
        rw (e, ← hd, ← hb)
          (decode_loop_refines (decode_packet opus s (from, p)) ps peer
            (subst (λ b. length b ≤ peer_cap) (sym hb) low))
  ]
