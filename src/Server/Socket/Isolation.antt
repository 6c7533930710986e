-- ===== src/Server/Socket/Isolation.antt =====
-- What one connection's messages do to the queues of the others, in server/init/src/main.rs.
use rdoc_sacompanion.Base.{
  ℕ, String, eq_iff, ◌≡◌, ◌≢◌, refl, sym, subst, ◌∙◌, ap, inl, inr, not, ◌||◌, none, some, [], ◌∷◌,
  arith, ltb, len, Bool-cases,
}
use rdoc_sacompanion.Dict.{get}
use rdoc_sacompanion.Dict.Distinct.{DistinctKeys}
use rdoc_sacompanion.Protocol.{JoinRequest, ClientMsg, ServerMsg}
use rdoc_sacompanion.Server.Auth.{check}
use rdoc_sacompanion.Server.Channel.{send_other}
use rdoc_sacompanion.Server.Room.{
  broadcast_ptt, broadcast_rekey, PeerHandle, Room, Rooms, Hub, room_of, is_full, join_room,
  relay_to,
}
use rdoc_sacompanion.Server.Room.Sends.{NoTx, DistinctTx}
use rdoc_sacompanion.Server.Room.Members.{room_of-bounds}
use rdoc_sacompanion.Server.Room.Delivery.{
  join_room-NoTx, relay_to-NoTx, broadcast_ptt-NoTx, broadcast_rekey-NoTx,
}
use rdoc_sacompanion.Server.Socket.{
  Config, Me, Incoming, text, bad_text, close, other_frame, Next, reading, len_ok, max_id,
  bad_input, after_join_room, on_first_join, relay_if_ok, on_incoming,
}
use rdoc_sacompanion.Server.Socket.World.{
  running, World, read, Reach, initial, identity, identity_of,
}
use rdoc_sacompanion.Server.Socket.Queues.{after_join_room-chans}
use rdoc_sacompanion.Server.Socket.Safety.{Reach-IsValid, Reach-one_place}

room_of-NoTx :
    (c : ℕ) (r : Room)
    → DistinctKeys r
    → ((id : String) (h : PeerHandle) → get id r ≡ some h → h.tx ≢ c)
    → NoTx c r
unfolding get
room_of-NoTx c [] d apart = tt
room_of-NoTx c ((id, h) ∷ r) d apart = (
  apart id h (ground (arith, eq_iff id id)),
  room_of-NoTx c r d.1 λ id' h' e. apart id' h' (ground (arith, eq_iff id id')),
)

room_of-DistinctTx :
    (r : Room)
    → DistinctKeys r
    → ((id id' : String) (h h' : PeerHandle)
        → get id r ≡ some h
        → get id' r ≡ some h'
        → h.tx ≡ h'.tx
        → id ≡ id')
    → DistinctTx r
unfolding get
room_of-DistinctTx [] d apart = tt
room_of-DistinctTx ((id, h) ∷ r) d apart =
    let skip : (i : String) (k : PeerHandle) → get i r ≡ some k → get i ((id, h) ∷ r) ≡ some k =
      λ i k e. ground (arith, eq_iff id i) in
    (
      room_of-NoTx h.tx r d.1 λ id' h' e same.
          let equal = apart id' id h' h (skip id' h' e) (ground (arith, eq_iff id id)) same in
          ground arith,
      room_of-DistinctTx r d.1 λ i i' k k' e e'. apart i i' k k' (skip i k e) (skip i' k' e'),
    )

-- In every state that the server reaches, the members of a room have different channels.
pub Reach-DistinctTx :
    {cfg : Config} {w : World} (r : Reach cfg initial w) (room : String)
    → DistinctTx (room_of room w.hub.rooms)
Reach-DistinctTx {w = w} r room =
    room_of-DistinctTx (room_of room w.hub.rooms)
      (room_of-bounds room w.hub.rooms (Reach-IsValid r).rooms).1
      λ id id' h h' e e' same. (Reach-one_place r room room id id' h h' e e' same).1

-- The room that a connection is in after a round, if any, has no member with the other's channel.
abbrev Apart : ℕ → Next → Rooms → Type 0
Apart d n rooms =
    (room user : String) → identity n ≡ some (room, user) → NoTx d (room_of room rooms)

join-chans :
    (conn : ℕ) (j : JoinRequest) (hub : Hub) (d : ℕ)
    → conn ≢ d
    → Apart d (after_join_room j (join_room conn j.room j.user_id j.name hub)).0 hub.rooms
    → (after_join_room j (join_room conn j.room j.user_id j.name hub)).1.chans d ≡ hub.chans d
unfolding after_join_room join_room
join-chans conn j hub d differs apart =
    elim (Bool-cases (is_full j.user_id (room_of j.room hub.rooms))) [
      | inl full ↦ rw (full, join_room) (send_other conn _ hub.chans d differs)
      | inr free ↦
          let joined : identity (after_join_room j (join_room conn j.room j.user_id j.name hub)).0
              ≡ some (j.room, j.user_id) =
            rw (free, join_room) refl in
          let same =
            join_room-NoTx conn j.room j.user_id j.name hub d differs
              (apart j.room j.user_id joined) in
          rw (after_join_room-chans j (join_room conn j.room j.user_id j.name hub)) same
    ]

on_first_join-chans :
    (cfg : Config) (conn : ℕ) (j : JoinRequest) (hub : Hub) (d : ℕ)
    → conn ≢ d
    → Apart d (on_first_join cfg conn j hub).0 hub.rooms
    → (on_first_join cfg conn j hub).1.chans d ≡ hub.chans d
unfolding on_first_join
on_first_join-chans cfg conn j hub d differs apart = elim (Bool-cases (bad_input j)) [
  | inl bad ↦ rw (bad, on_first_join) (send_other conn _ hub.chans d differs)
  | inr fits ↦ elim (Bool-cases (check cfg.crypto cfg.auth j.room j.token)) [
    | inr denied ↦ rw (fits, on_first_join) (rw denied (send_other conn _ hub.chans d differs))
    | inl accepted ↦
        let same : on_first_join cfg conn j hub
            ≡ after_join_room j (join_room conn j.room j.user_id j.name hub) =
          rw (fits, on_first_join) (rw accepted refl) in
        rw same (join-chans conn j hub d differs (subst (λ r. Apart d r.0 hub.rooms) same apart))
  ]
]

relay_if_ok-chans :
    (payload : String) (max : ℕ) (me : Me) (to : String) (build : String → ServerMsg) (hub : Hub)
    (d : ℕ)
    → Apart d (reading me) hub.rooms
    → (relay_if_ok payload max me to build hub).chans d ≡ hub.chans d
unfolding relay_if_ok relay_to
relay_if_ok-chans payload max none to build hub d apart = ground arith
relay_if_ok-chans payload max (some (room, from)) to build hub d apart =
    elim (Bool-cases (not (len_ok to max_id) || ltb max (len payload))) [
      | inl dropped ↦ rw (dropped, relay_if_ok) refl
      | inr passed ↦
          rw (passed, relay_if_ok) (relay_to-NoTx room from to build hub d (apart room from refl))
    ]

on_incoming-chans :
    (cfg : Config) (c : ℕ) (me : Me) (inc : Incoming) (hub : Hub) (d : ℕ)
    → c ≢ d
    → Apart d (on_incoming cfg c me inc hub).0 hub.rooms
    → (on_incoming cfg c me inc hub).1.chans d ≡ hub.chans d
unfolding on_incoming broadcast_ptt broadcast_rekey
on_incoming-chans cfg c none (text (ClientMsg.join j)) hub d differs apart =
    on_first_join-chans cfg c j hub d differs apart
on_incoming-chans cfg c (some me) (text (ClientMsg.join j)) hub d differs apart =
    send_other c _ hub.chans d differs
on_incoming-chans cfg c me (text (ClientMsg.offer to sdp)) hub d differs apart =
    relay_if_ok-chans _ _ me to _ hub d apart
on_incoming-chans cfg c me (text (ClientMsg.answer to sdp)) hub d differs apart =
    relay_if_ok-chans _ _ me to _ hub d apart
on_incoming-chans cfg c me (text (ClientMsg.ice to candidate)) hub d differs apart =
    relay_if_ok-chans _ _ me to _ hub d apart
on_incoming-chans cfg c none (text (ClientMsg.ptt active)) hub d differs apart = refl
on_incoming-chans cfg c (some (room, from)) (text (ClientMsg.ptt active)) hub d differs apart =
    broadcast_ptt-NoTx room from active hub d (apart room from refl)
on_incoming-chans cfg c none (text ClientMsg.rekey) hub d differs apart = refl
on_incoming-chans cfg c (some (room, from)) (text ClientMsg.rekey) hub d differs apart =
    broadcast_rekey-NoTx room from hub d (apart room from refl)
on_incoming-chans cfg c me (text ClientMsg.leave) hub d differs apart = refl
on_incoming-chans cfg c me (bad_text e) hub d differs apart = send_other c _ hub.chans d differs
on_incoming-chans cfg c me close hub d differs apart = refl
on_incoming-chans cfg c me other_frame hub d differs apart = refl

-- Rooms are isolated: in every state that the server reaches, whatever a connection `c` sends, the
-- queue of another connection `d` changes only if `d` has joined the room that `c` is in once the
-- message is handled.
pub Reach-isolated :
    {cfg : Config} {w : World} (r : Reach cfg initial w) (c d : ℕ) (me : Me) (inc : Incoming)
    → w.tasks c ≡ running (reading me)
    → c ≢ d
    → ((room user user' : String)
        → identity_of (w.tasks d) ≡ some (room, user')
        → identity (on_incoming cfg c me inc w.hub).0 ≢ some (room, user))
    → (read cfg c me inc w).hub.chans d ≡ w.hub.chans d
Reach-isolated {cfg = cfg} {w = w} r c d me inc e differs strangers =
    let i = Reach-IsValid r in
    on_incoming-chans cfg c me inc w.hub d differs λ room user joined.
      room_of-NoTx d (room_of room w.hub.rooms) (room_of-bounds room w.hub.rooms i.rooms).1
        λ id h m same.
          strangers room user id
            (ap (λ n. identity_of (w.tasks n)) (sym same) ∙ i.owned room id h m) joined
