-- ===== src/Server/Socket/Invariant.antt =====
-- What a round of the loop of `handle_socket` does to the rooms.
use rdoc_sacompanion.Base.{
  ℕ, String, ◌≡◌, ◌≢◌, refl, ◌⊎◌, inl, inr, Bool, true, false, Option, none, some, List, arith,
  Bool-cases, is_some,
}
use rdoc_sacompanion.Protocol.{PeerInfo, JoinRequest, ClientMsg, ServerMsg}
use rdoc_sacompanion.Server.Auth.{check}
use rdoc_sacompanion.Server.Room.{
  PeerHandle, Hub, join_room, relay_to, broadcast_ptt, broadcast_rekey,
}
use rdoc_sacompanion.Server.Room.Members.{
  member, AllRooms, join_room-AllRooms, leave_room-AllRooms, member-leave_room_cases,
}
use rdoc_sacompanion.Server.Socket.{
  Config, Me, Incoming, text, bad_text, close, other_frame, Next, bad_input, on_first_join,
  after_join_room, on_join, relay_if_ok, on_incoming, greet, cleanup,
}
use rdoc_sacompanion.Server.Socket.World.{identity}

-- Messages other than a join leave the rooms alone.
relay_to-rooms :
    (me : Me) (to : String) (build : String → ServerMsg) (hub : Hub)
    → (relay_to me to build hub).rooms ≡ hub.rooms
unfolding relay_to
relay_to-rooms me to build hub = ground arith

relay_if_ok-rooms :
    (payload : String) (max : ℕ) (me : Me) (to : String) (build : String → ServerMsg) (hub : Hub)
    → (relay_if_ok payload max me to build hub).rooms ≡ hub.rooms
unfolding relay_if_ok
relay_if_ok-rooms payload max me to build hub = ground (arith, relay_to-rooms me to build hub)

broadcast_ptt-rooms : (me : Me) (b : Bool) (hub : Hub) → (broadcast_ptt me b hub).rooms ≡ hub.rooms
unfolding broadcast_ptt
broadcast_ptt-rooms me b hub = ground arith

broadcast_rekey-rooms : (me : Me) (hub : Hub) → (broadcast_rekey me hub).rooms ≡ hub.rooms
unfolding broadcast_rekey
broadcast_rekey-rooms me hub = ground arith

-- A join on a socket leaves the rooms alone, or the checks were passed by a socket that had not
-- joined.
abbrev pub RoomsAlone : Me → Next × Hub → Hub → Type 0
RoomsAlone me r hub = (r.1.rooms ≡ hub.rooms) × (identity r.0 ≡ me)

abbrev pub Joins : Config → ℕ → Me → Next × Hub → Hub → Type 0
Joins cfg conn me r hub =
    (j : JoinRequest) × (me ≡ none)
    × ((bad_input j ≡ false) × (check cfg.crypto cfg.auth j.room j.token ≡ true))
    × (r ≡ after_join_room j (join_room conn j.room j.user_id j.name hub))

on_first_join-rooms :
    (cfg : Config) (conn : ℕ) (j : JoinRequest) (hub : Hub)
    → RoomsAlone none (on_first_join cfg conn j hub) hub
      ⊎ Joins cfg conn none (on_first_join cfg conn j hub) hub
unfolding on_first_join
on_first_join-rooms cfg conn j hub = elim (Bool-cases (bad_input j)) [
  | inl bad ↦ rw (bad, on_first_join) (inl (refl, refl))
  | inr fits ↦ elim (Bool-cases (check cfg.crypto cfg.auth j.room j.token)) [
    | inl accepted ↦ inr (j, refl, (fits, accepted), rw (fits, on_first_join) (rw accepted))
    | inr denied ↦ rw (fits, on_first_join) (rw denied (inl (refl, refl)))
  ]
]

on_join-rooms :
    (cfg : Config) (conn : ℕ) (me : Me) (j : JoinRequest) (hub : Hub)
    → RoomsAlone me (on_join cfg conn me j hub) hub
      ⊎ Joins cfg conn me (on_join cfg conn me j hub) hub
unfolding on_join
on_join-rooms cfg conn none j hub = on_first_join-rooms cfg conn j hub
on_join-rooms cfg conn (some me) j hub = inl (refl, refl)

-- A round of the loop leaves the rooms alone, or it is the join of a socket that has not joined.
pub on_incoming-rooms :
    (cfg : Config) (conn : ℕ) (me : Me) (inc : Incoming) (hub : Hub)
    → RoomsAlone me (on_incoming cfg conn me inc hub) hub
      ⊎ Joins cfg conn me (on_incoming cfg conn me inc hub) hub
unfolding on_incoming
on_incoming-rooms cfg conn me (text (ClientMsg.join j)) hub = on_join-rooms cfg conn me j hub
on_incoming-rooms cfg conn me (text (ClientMsg.offer to sdp)) hub =
    inl (relay_if_ok-rooms _ _ me to _ hub, refl)
on_incoming-rooms cfg conn me (text (ClientMsg.answer to sdp)) hub =
    inl (relay_if_ok-rooms _ _ me to _ hub, refl)
on_incoming-rooms cfg conn me (text (ClientMsg.ice to candidate)) hub =
    inl (relay_if_ok-rooms _ _ me to _ hub, refl)
on_incoming-rooms cfg conn me (text (ClientMsg.ptt active)) hub =
    inl (broadcast_ptt-rooms me active hub, refl)
on_incoming-rooms cfg conn me (text ClientMsg.rekey) hub = inl (broadcast_rekey-rooms me hub, refl)
on_incoming-rooms cfg conn me (text ClientMsg.leave) hub = inl (refl, refl)
on_incoming-rooms cfg conn me (bad_text e) hub = inl (refl, refl)
on_incoming-rooms cfg conn me close hub = inl (refl, refl)
on_incoming-rooms cfg conn me other_frame hub = inl (refl, refl)

-- What follows the locked region of a join keeps its rooms, and the task has the joiner's identity.
pub after_join_room_lem :
    (j : JoinRequest) (r : Option (List PeerInfo) × Hub)
    → ((after_join_room j r).1 ≡ r.1)
      × (is_some r.0 ≡ true → identity (after_join_room j r).0 ≡ some (j.room, j.user_id))
unfolding after_join_room
after_join_room_lem j (none, hub) = (refl, λ e. cc)
after_join_room_lem j (some peers, hub) = (refl, λ e. refl)

pub greet-rooms :
    (cfg : Config) (conn now : ℕ) (user : String) (peers : List PeerInfo) (hub : Hub)
    → (greet cfg conn now user peers hub).rooms ≡ hub.rooms
unfolding greet
greet-rooms cfg conn now user peers hub = ground arith

pub cleanup-AllRooms : (me : Me) (hub : Hub) → AllRooms hub.rooms → AllRooms (cleanup me hub).rooms
unfolding cleanup
cleanup-AllRooms none hub v = v
cleanup-AllRooms (some (room, user)) hub v = leave_room-AllRooms room user hub v

pub member-cleanup :
    (me : Me) (hub : Hub) (room user : String) (h : PeerHandle)
    → member room user (cleanup me hub).rooms ≡ some h
    → (member room user hub.rooms ≡ some h) × (me ≢ some (room, user))
unfolding cleanup
member-cleanup none hub room user h e = (e, λ eq. cc)
member-cleanup (some (r, u)) hub room user h e =
    let (old, differs) = member-leave_room_cases r u hub room user h e in
    (old, λ eq. differs (cc, cc))

pub on_incoming-AllRooms :
    (cfg : Config) (conn : ℕ) (me : Me) (inc : Incoming) (hub : Hub)
    → AllRooms hub.rooms
    → AllRooms (on_incoming cfg conn me inc hub).1.rooms
on_incoming-AllRooms cfg conn me inc hub v = elim (on_incoming-rooms cfg conn me inc hub) [
  | inl (same, _) ↦ rw same v
  | inr (j, _, _, e) ↦
      rw (e, (after_join_room_lem j (join_room conn j.room j.user_id j.name hub)).0)
        (join_room-AllRooms conn j.room j.user_id j.name hub v)
]
