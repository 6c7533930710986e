-- ===== src/Server/Room.antt =====
-- The rooms of server/init/src/main.rs: the parts of `handle_socket` that hold the lock of
-- `AppState::rooms`, and `relay_to`. One function is one locked region.
pub mod Sends
pub mod Delivery
pub mod Members
use rdoc_sacompanion.Base.{
  ℕ, String, ◌==◌, Bool, true, false, ◌&&◌, not, Option, none, some, List, [], ◌∷◌, leb, length,
  if◌then◌else◌, unwrap_or, map,
}
use rdoc_sacompanion.Dict.{Dict, get, insert, remove, contains_key}
use rdoc_sacompanion.Protocol.{
  PeerInfo, ServerMsg, peer_joined, peer_left, ptt, rekey, room_full, warn, error,
}
use rdoc_sacompanion.Server.Channel.{Channels, send}

abbrev pub warn_cap : ℕ
warn_cap = 12

abbrev pub hard_cap : ℕ
hard_cap = 16

-- `tx` is the connection whose channel the handle's sender belongs to.
pub record PeerHandle : Type 0 where
  pub name : String
  pub tx : ℕ

abbrev pub Room : Type 0
Room = Dict PeerHandle

abbrev pub Rooms : Type 0
Rooms = Dict Room

-- What the connections' tasks share.
pub record Hub : Type 0 where
  pub rooms : Rooms
  pub chans : Channels

-- `for h in r.values() { h.tx.try_send(msg) }`
unfoldable pub send_all : ServerMsg → Room → Channels → Channels
send_all msg [] chans = chans
send_all msg ((id, h) ∷ r) chans = send_all msg r (send h.tx msg chans)

-- The same over every member but one.
unfoldable pub send_others : String → ServerMsg → Room → Channels → Channels
send_others me msg [] chans = chans
send_others me msg ((id, h) ∷ r) chans =
    send_others me msg r (if id == me then chans else send h.tx msg chans)

abbrev pub peer_info : String × PeerHandle → PeerInfo
peer_info (id, h) = record { user_id = id; name = h.name }

-- The old connection of the same user is told.
unfoldable pub supersede : Option PeerHandle → Channels → Channels
supersede none chans = chans
supersede (some old) chans = send old.tx (error "superseded" "joined from another connection") chans

unfoldable pub warn_all : Room → Channels → Channels
unfolding send_all
warn_all r chans =
    if leb warn_cap (length r) then send_all (warn (length r) warn_cap) r chans else chans

abbrev pub room_of : String → Rooms → Room
room_of room rooms = unwrap_or (get room rooms) []

-- The cap check: a user who joins again is no growth.
abbrev pub is_full : String → Room → Bool
is_full user r = leb hard_cap (length r) && not (contains_key user r)

-- The room with the new member, and the roster of the others.
unfoldable pub add_member : ℕ → (user name : String) → Room → Room
add_member conn user name r = insert user (record { name = name; tx = conn }) (remove user r)

abbrev pub roster_for : String → Room → List PeerInfo
roster_for user r = map peer_info (remove user r)

-- The refused join; `entry(…).or_default()` has made sure that the room is in the map.
refuse_join : (conn : ℕ) (room : String) → Hub → Hub
refuse_join conn room hub = record {
  rooms = insert room (room_of room hub.rooms) hub.rooms;
  chans = send conn (room_full hard_cap) hub.chans;
}

-- The join that is let in: the old connection is told, the others are told, and all are warned if
-- the room is large.
admit_join : (conn : ℕ) (room user name : String) → Hub → Hub
unfolding supersede warn_all send_others add_member
admit_join conn room user name hub =
    let r = room_of room hub.rooms in
    let r' = add_member conn user name r in
    record {
      rooms = insert room r' hub.rooms;
      chans =
          warn_all r'
            (send_others user (peer_joined user name) r' (supersede (get user r) hub.chans));
    }

-- The locked region of a join: the roster, or `none` if the room is full.
unfoldable pub join_room : (conn : ℕ) (room user name : String) → Hub → Option (List PeerInfo) × Hub
unfolding refuse_join admit_join
join_room conn room user name hub =
    if is_full user (room_of room hub.rooms)
    then (none, refuse_join conn room hub)
    else (some (roster_for user (room_of room hub.rooms)), admit_join conn room user name hub)

abbrev is_nil : Room → Bool
is_nil [] = true
is_nil (_ ∷ _) = false

leave_found : (room user : String) → Room → Hub → Hub
unfolding send_all
leave_found room user r hub =
    let rest = remove user r in
    record {
      rooms = if is_nil rest then remove room hub.rooms else insert room rest hub.rooms;
      chans = send_all (peer_left user) rest hub.chans;
    }

-- The cleanup at the end of `handle_socket`.
unfoldable pub leave_room : (room user : String) → Hub → Hub
unfolding leave_found
leave_room room user hub = elim (get room hub.rooms) [
  | none ↦ hub
  | some r ↦ leave_found room user r hub
]

-- `relay_to`, with the sender's identity
unfoldable pub relay_to :
    (me : Option (String × String)) (to : String) (build : String → ServerMsg) → Hub → Hub
relay_to none to build hub = hub
relay_to (some (room, from)) to build hub = elim (get room hub.rooms) [
  | none ↦ hub
  | some r ↦ elim (get to r) [
    | none ↦ hub
    | some h ↦ record hub { chans = send h.tx (build from) hub.chans }
  ]
]

-- `ClientMsg::Ptt`
unfoldable pub broadcast_ptt : (me : Option (String × String)) (active : Bool) → Hub → Hub
unfolding send_others
broadcast_ptt none active hub = hub
broadcast_ptt (some (room, from)) active hub = elim (get room hub.rooms) [
  | none ↦ hub
  | some r ↦ record hub { chans = send_others from (ptt from active) r hub.chans }
]

abbrev pub name_of : Option PeerHandle → String
name_of none = ""
name_of (some h) = h.name

-- `ClientMsg::Rekey`, to every member, the sender included
unfoldable pub broadcast_rekey : (me : Option (String × String)) → Hub → Hub
unfolding send_all
broadcast_rekey none hub = hub
broadcast_rekey (some (room, from)) hub = elim (get room hub.rooms) [
  | none ↦ hub
  | some r ↦ record hub { chans = send_all (rekey (name_of (get from r))) r hub.chans }
]
