-- ===== src/Core/Serverless.antt =====
-- apps/companion-core/src/serverless.rs: a call between two peers who exchange their descriptions as
-- codes by hand. The WebRTC library and the base64 and UTF-8 decoders are parameters; what a call
-- sends to the frontend and over the data channel is a list of effects, in order.
pub mod Handshake
use rdoc_sacompanion.Base.{
  ℕ, zero, suc, String, Bool, true, false, not, Option, none, some, List, [], ◌∷◌, ◌++◌,
  if◌then◌else◌, ◌>>=◌,
}
use rdoc_sacompanion.Text.{trim}
use rdoc_sacompanion.Text.Bytes.{as_bytes}
use rdoc_sacompanion.Protocol.{ChatMsg}
use rdoc_sacompanion.Core.Mesh.{IceServer}
use rdoc_sacompanion.Core.Client.{LocalTrack, Sample}
use rdoc_sacompanion.Core.Engine.{Participant, UiEvent, roster, status, same}

pub record Codec : Type 0 where
  pub encode : List ℕ → String
  pub decode : String → Option (List ℕ)
  pub from_utf8 : List ℕ → Option String

-- What the library answers for one connection. A local description is complete, candidates
-- included, or `none` where one of the calls that make it fails.
pub record Rtc : Type 0 where
  pub builds : Bool
  pub opens_channel : Bool
  pub local_offer : Option String
  pub accepts : (sdp : String) → Bool
  pub local_answer : (offer : String) → Option String

-- `Serverless`; `chat` is whether the slot holds a channel, `remote` the remote description.
pub record Session : Type 0 where
  pub transmit : Bool
  pub chat : Bool
  pub me : String
  pub remote : Option String

pub data Effect : Type 0 where
  ui : UiEvent → Effect
  send_text : ChatMsg → Effect

abbrev pub guard : Bool → Option Bool
guard true = some true
guard false = none

module _ (codec : Codec) where
  unfoldable pub decode_code : (code : String) → Option String
  decode_code code = codec.decode (trim code) >>= codec.from_utf8

  -- Role A: the offer's code
  unfoldable pub create_offer : Rtc → (me : String) → Option (Session × String)
  create_offer rtc me = do
    _ ← guard rtc.builds
    _ ← guard rtc.opens_channel
    sdp ← rtc.local_offer
    some (
      record { transmit = false; chat = true; me = me; remote = none },
      codec.encode (as_bytes sdp),
    )

  -- Role B: the answer's code
  unfoldable pub accept_offer : Rtc → (code me : String) → Option (Session × String)
  unfolding decode_code
  accept_offer rtc code me = do
    _ ← guard rtc.builds
    offer ← decode_code code
    _ ← guard (rtc.accepts offer)
    sdp ← rtc.local_answer offer
    some (
      record { transmit = false; chat = false; me = me; remote = some offer },
      codec.encode (as_bytes sdp),
    )

  -- Role A, with the answer's code
  unfoldable pub accept_answer : Rtc → (code : String) → Session → Option Session
  unfolding decode_code
  accept_answer rtc code s = do
    answer ← decode_code code
    _ ← guard (rtc.accepts answer)
    some (record s { remote = some answer })

-- `wire_chat` of an incoming channel
unfoldable pub on_data_channel : Session → Session
on_data_channel s = record s { chat = true }

-- A message on the channel, where it parses.
unfoldable pub on_chat_message : Option ChatMsg → List Effect
on_chat_message none = []
on_chat_message (some c) = ui (UiEvent.chat "Peer" c.text) ∷ []

-- The connection is opened with the STUN server alone.
abbrev pub ice_servers : List IceServer
ice_servers =
    record { urls = "stun:stun.l.google.com:19302" ∷ []; username = ""; credential = "" } ∷ []

abbrev pub local : (mime_type_opus : String) → LocalTrack
local mime_type_opus = record {
  mime_type = mime_type_opus;
  clock_rate = 48000;
  channels = 2;
  id = "audio";
  stream_id = "rdoc-sa";
}

-- The task that writes the encoder's packets to the track.
unfoldable pub write_samples : List (List ℕ) → List Sample
write_samples [] = []
write_samples (b ∷ packets) = record { bytes = b; millis = 20 } ∷ write_samples packets

-- `read_track`: the packets up to the first error, for the decoder.
unfoldable pub read_track : List (Option (List ℕ)) → List (String × List ℕ)
read_track [] = []
read_track (none ∷ packets) = []
read_track (some [] ∷ packets) = read_track packets
read_track (some (b ∷ bs) ∷ packets) = ("peer", b ∷ bs) ∷ read_track packets

-- `badge_of`: the pair that each look at the transport finds, if any, as whether a relay is in it;
-- at most so many looks.
unfoldable pub badge_of : (looks : ℕ) → List (Option Bool) → String
badge_of zero pairs = "DIREKT"
badge_of (suc n) [] = "DIREKT"
badge_of (suc n) (some relayed ∷ pairs) = if relayed then "RELAY (TURN)" else "DIREKT"
badge_of (suc n) (none ∷ pairs) = badge_of n pairs

pub data PeerState : Type 0 where
  connected failed disconnected other : PeerState

-- The connection's state changes; the badge is `badge_of`'s answer.
unfoldable pub on_state : PeerState → (badge me : String) → List Effect
on_state connected badge me =
    ui (status true false)
    ∷ ui (
        roster (
          record { user_id = "me"; name = me; you = true; badge = none; speaking = false }
          ∷ record {
            user_id = "peer";
            name = "Peer";
            you = false;
            badge = some badge;
            speaking = false;
          }
          ∷ []))
    ∷ []
on_state failed badge me = ui (status false false) ∷ []
on_state disconnected badge me = ui (status false false) ∷ []
on_state other badge me = []

unfoldable pub set : (on : Bool) → Session → Session × List Effect
set on s = (record s { transmit = on }, ui (status true on) ∷ [])

unfoldable pub toggle_transmit : Session → Session × List Effect
unfolding set
toggle_transmit s = set (not s.transmit) s

unfoldable pub set_transmit : (on : Bool) → Session → Session × List Effect
unfolding set
set_transmit on s = if same s.transmit on then (s, []) else set on s

unfoldable pub send_chat : (text : String) (ts : ℕ) → Session → List Effect
send_chat text ts s =
    (if s.chat then send_text (record { text = text; ts = ts }) ∷ [] else [])
    ++ ui (UiEvent.chat s.me text) ∷ []
