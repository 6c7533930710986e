-- ===== src/Core/Serverless/Handshake.antt =====
-- The exchange of codes of apps/companion-core/src/serverless.rs, from both sides.
use rdoc_sacompanion.Base.{String, ◌≡◌, refl, true, false, none, some}
use rdoc_sacompanion.Text.{trim}
use rdoc_sacompanion.Text.Bytes.{as_bytes}
use rdoc_sacompanion.Core.Serverless.{
  Codec, Rtc, Session, decode_code, create_offer, accept_offer, accept_answer,
}

-- The documented behaviour of base64 and of UTF-8 on this text: decoding gives back what was
-- encoded.
abbrev pub RoundTrips : Codec → String → Type 0
RoundTrips codec sdp =
    (codec.decode (trim (codec.encode (as_bytes sdp))) ≡ some (as_bytes sdp))
    × (codec.from_utf8 (as_bytes sdp) ≡ some sdp)

decode_code-encode :
    (codec : Codec) (sdp : String)
    → RoundTrips codec sdp
    → decode_code codec (codec.encode (as_bytes sdp)) ≡ some sdp
unfolding decode_code
decode_code-encode codec sdp laws = rw (laws.0, laws.1) refl

-- The exchange works: where the library makes an offer on one side, and an answer to it on the
-- other, and both accept what they are given, the two codes carry the descriptions over: the
-- answering side has exactly the offer, and the offering side exactly the answer to it. (Decoding
-- the codes of these two descriptions gives back what was encoded.)
pub exchange-connects :
    (codec : Codec) (a b : Rtc) (me peer offer answer : String)
    → RoundTrips codec offer
    → RoundTrips codec answer
    → (a.builds ≡ true) × (a.opens_channel ≡ true) × (a.local_offer ≡ some offer)
    → (b.builds ≡ true) × (b.accepts offer ≡ true) × (b.local_answer offer ≡ some answer)
    → a.accepts answer ≡ true
    → (sa : Session) × (offer_code : String) × (sb : Session) × (answer_code : String)
      × (create_offer codec a me ≡ some (sa, offer_code))
      × (accept_offer codec b offer_code peer ≡ some (sb, answer_code))
      × (sb.remote ≡ some offer)
      × (accept_answer codec a answer_code sa ≡ some (record sa { remote = some answer }))
unfolding create_offer accept_offer accept_answer
exchange-connects codec a b me peer offer answer offered answered (builds, opens, offers)
      (built, takes, answers) accepts =
    let offer_back = decode_code-encode codec offer offered in
    let answer_back = decode_code-encode codec answer answered in
    (
      record { transmit = false; chat = true; me = me; remote = none },
      codec.encode (as_bytes offer),
      record { transmit = false; chat = false; me = peer; remote = some offer },
      codec.encode (as_bytes answer),
      rw (builds, opens, offers) refl,
      rw (built, offer_back, takes, answers) refl,
      refl,
      rw (answer_back, accepts) refl,
    )
