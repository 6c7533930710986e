-- ===== src/Server/Socket.antt =====
-- `handle_socket` of server/init/src/main.rs, as a state machine: one step for each message that a
-- connection's task reads. What the frame's JSON decodes to is the input.
pub mod World
pub mod Invariant
pub mod Queues
pub mod Safety
pub mod Admission
pub mod Isolation
use rdoc_sacompanion.Base.{
  ℕ, ◌*◌, String, Bool, true, false, ◌||◌, ◌&&◌, not, Option, none, some, List, ltb, leb, len,
  if◌then◌else◌,
}
use rdoc_sacompanion.Text.{is_empty}
use rdoc_sacompanion.Protocol.{
  PeerInfo, JoinRequest, ClientMsg, ServerMsg, roster, turn, offer, answer, ice, error,
}
use rdoc_sacompanion.Server.{Crypto}
use rdoc_sacompanion.Server.Auth.{AuthConfig, check}
use rdoc_sacompanion.Server.Turn.{TurnConfig, mint}
use rdoc_sacompanion.Server.Channel.{Channels, send}
use rdoc_sacompanion.Server.Room.{
  Hub, join_room, leave_room, relay_to, broadcast_ptt, broadcast_rekey,
}

abbrev pub max_id : ℕ
max_id = 64

abbrev pub max_name : ℕ
max_name = 64

abbrev pub max_token : ℕ
max_token = 128

abbrev pub max_sdp : ℕ
max_sdp = 16384

abbrev pub max_ice : ℕ
max_ice = 4096

-- `len_ok`: not empty, and at most so many bytes
abbrev pub len_ok : String → ℕ → Bool
len_ok s max = not (is_empty s) && leb (len s) max

-- The parts of `AppState` that do not change.
pub record Config : Type 0 where
  pub crypto : Crypto
  pub auth : AuthConfig
  pub turn : Option TurnConfig

-- `(room, user_id)` once the socket has joined.
abbrev pub Me : Type 0
Me = Option (String × String)

-- A frame from the socket: a message, a text that serde refuses with this error, the end of the
-- stream, or a frame of another kind.
pub data Incoming : Type 0 where
  text : ClientMsg → Incoming
  bad_text : (message : String) → Incoming
  close : Incoming
  other_frame : Incoming

-- How the loop goes on: read again, first send the answer to a join, or leave the loop.
pub data Next : Type 0 where
  reading : Me → Next
  greeting : (room user : String) (peers : List PeerInfo) → Next
  leaving : Me → Next

-- A message to the connection's own channel.
abbrev pub reply : ℕ → ServerMsg → Hub → Hub
reply conn msg hub = record hub { chans = send conn msg hub.chans }

unfoldable pub token_too_long : Option String → Bool
token_too_long none = false
token_too_long (some t) = ltb max_token (len t)

-- The bounds on a join's fields.
unfoldable pub bad_input : JoinRequest → Bool
unfolding token_too_long
bad_input j =
    not (len_ok j.room max_id)
    || not (len_ok j.user_id max_id)
    || not (len_ok j.name max_name)
    || token_too_long j.token

unfoldable pub after_join_room : (j : JoinRequest) → Option (List PeerInfo) × Hub → Next × Hub
after_join_room j (none, hub) = (leaving none, hub)
after_join_room j (some peers, hub) = (greeting j.room j.user_id peers, hub)

-- `ClientMsg::Join` on a socket that has not joined.
unfoldable pub on_first_join : Config → ℕ → JoinRequest → Hub → Next × Hub
unfolding bad_input after_join_room
on_first_join cfg conn j hub =
    if bad_input j
    then (leaving none, reply conn (error "bad_input" "field empty or too long") hub)
    else if not (check cfg.crypto cfg.auth j.room j.token)
    then (leaving none, reply conn (error "bad_token" "invalid room token") hub)
    else after_join_room j (join_room conn j.room j.user_id j.name hub)

unfoldable pub on_join : Config → ℕ → Me → JoinRequest → Hub → Next × Hub
unfolding on_first_join
on_join cfg conn none j hub = on_first_join cfg conn j hub
on_join cfg conn (some me) j hub =
    (reading (some me), reply conn (error "already_joined" "this socket already joined a room") hub)

-- The relayed messages: the bound on the payload, and the message that is built.
relay_if_ok :
    (payload : String) (max : ℕ) (me : Me) (to : String) (build : String → ServerMsg) → Hub → Hub
relay_if_ok payload max me to build hub =
    if not (len_ok to max_id) || ltb max (len payload) then hub else relay_to me to build hub

-- The body of the `match` on a client's message.
unfoldable pub on_message : Config → ℕ → Me → ClientMsg → Hub → Next × Hub
unfolding on_join relay_if_ok
on_message cfg conn me (ClientMsg.join j) hub = on_join cfg conn me j hub
on_message cfg conn me (ClientMsg.offer to sdp) hub =
    (reading me, relay_if_ok sdp max_sdp me to (λ from. offer from sdp) hub)
on_message cfg conn me (ClientMsg.answer to sdp) hub =
    (reading me, relay_if_ok sdp max_sdp me to (λ from. answer from sdp) hub)
on_message cfg conn me (ClientMsg.ice to candidate) hub =
    (reading me, relay_if_ok candidate max_ice me to (λ from. ice from candidate) hub)
on_message cfg conn me (ClientMsg.ptt active) hub = (reading me, broadcast_ptt me active hub)
on_message cfg conn me ClientMsg.rekey hub = (reading me, broadcast_rekey me hub)
on_message cfg conn me ClientMsg.leave hub = (leaving me, hub)

-- One round of the loop.
unfoldable pub on_incoming : Config → ℕ → Me → Incoming → Hub → Next × Hub
unfolding on_message
on_incoming cfg conn me (text msg) hub = on_message cfg conn me msg hub
on_incoming cfg conn me (bad_text e) hub = (reading me, reply conn (error "bad_json" e) hub)
on_incoming cfg conn me close hub = (leaving me, hub)
on_incoming cfg conn me other_frame hub = (reading me, hub)

-- What follows the locked region of a join: the roster and the relay's credentials.
unfoldable pub greet : Config → ℕ → (now : ℕ) (user : String) (peers : List PeerInfo) → Hub → Hub
greet cfg conn now user peers hub = elim cfg.turn [
  | none ↦ reply conn (roster peers) hub
  | some t ↦ reply conn (turn (mint cfg.crypto t user now)) (reply conn (roster peers) hub)
]

-- The cleanup behind the loop.
unfoldable pub cleanup : Me → Hub → Hub
cleanup none hub = hub
cleanup (some (room, user)) hub = leave_room room user hub
