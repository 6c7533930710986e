-- ===== src/Server/Socket/Queues.antt =====
-- The queues of server/init/src/main.rs stay within their capacity, whatever is sent.
use rdoc_sacompanion.Base.{
  ℕ, String, ◌≡◌, refl, leb, inl, inr, Bool, true, false, Option, none, some, List, arith, length,
  if◌then◌else◌, Bool-cases, Option-cases,
}
use rdoc_sacompanion.Dict.{get, remove}
use rdoc_sacompanion.Protocol.{
  PeerInfo, JoinRequest, ClientMsg, ServerMsg, ptt, rekey, peer_left, peer_joined, room_full, error,
  warn,
}
use rdoc_sacompanion.Server.Auth.{check}
use rdoc_sacompanion.Server.Channel.{Channels, IsBounded, send-IsBounded}
use rdoc_sacompanion.Server.Room.{
  PeerHandle, Hub, Room, supersede, warn_all, warn_cap, is_full, hard_cap, add_member, send_others,
  room_of, name_of, send_all, join_room, leave_room, relay_to, broadcast_ptt, broadcast_rekey,
}
use rdoc_sacompanion.Server.Room.Sends.{send_all-IsBounded, send_others-IsBounded}
use rdoc_sacompanion.Server.Socket.{
  Config, Me, Incoming, text, bad_text, close, other_frame, bad_input, on_first_join,
  after_join_room, on_join, relay_if_ok, on_incoming, greet, cleanup,
}

relay_to-IsBounded :
    (me : Me) (to : String) (build : String → ServerMsg) (hub : Hub) (c : ℕ)
    → IsBounded (hub.chans c)
    → IsBounded ((relay_to me to build hub).chans c)
unfolding relay_to
relay_to-IsBounded none to build hub c b = b
relay_to-IsBounded (some (room, from)) to build hub c b = elim (Option-cases (get room hub.rooms)) [
  | inl e ↦ rw (e, relay_to) b
  | inr (r, e) ↦ elim (Option-cases (get to r)) [
    | inl e' ↦ rw (e, relay_to) (rw (e', relay_to) b)
    | inr (h, e') ↦
        rw (e, relay_to) (rw (e', relay_to) (send-IsBounded h.tx (build from) hub.chans c b))
  ]
]

relay_if_ok-IsBounded :
    (payload : String) (max : ℕ) (me : Me) (to : String) (build : String → ServerMsg) (hub : Hub)
    (c : ℕ)
    → IsBounded (hub.chans c)
    → IsBounded ((relay_if_ok payload max me to build hub).chans c)
unfolding relay_if_ok
relay_if_ok-IsBounded payload max me to build hub c b =
    ground (arith, relay_to-IsBounded me to build hub c b)

broadcast_ptt-IsBounded :
    (me : Me) (active : Bool) (hub : Hub) (c : ℕ)
    → IsBounded (hub.chans c)
    → IsBounded ((broadcast_ptt me active hub).chans c)
unfolding broadcast_ptt
broadcast_ptt-IsBounded none active hub c b = b
broadcast_ptt-IsBounded (some (room, from)) active hub c b =
    elim (Option-cases (get room hub.rooms)) [
      | inl e ↦ rw (e, broadcast_ptt) b
      | inr (r, e) ↦
          rw (e, broadcast_ptt) (send_others-IsBounded from (ptt from active) r hub.chans c b)
    ]

broadcast_rekey-IsBounded :
    (me : Me) (hub : Hub) (c : ℕ)
    → IsBounded (hub.chans c)
    → IsBounded ((broadcast_rekey me hub).chans c)
unfolding broadcast_rekey
broadcast_rekey-IsBounded none hub c b = b
broadcast_rekey-IsBounded (some (room, from)) hub c b = elim (Option-cases (get room hub.rooms)) [
  | inl e ↦ rw (e, broadcast_rekey) b
  | inr (r, e) ↦
      rw (e, broadcast_rekey) (send_all-IsBounded (rekey (name_of (get from r))) r hub.chans c b)
]

if-IsBounded :
    (b : Bool) (x y : Channels) (c : ℕ)
    → IsBounded (x c)
    → IsBounded (y c)
    → IsBounded ((if b then x else y) c)
if-IsBounded true x y c p q = p
if-IsBounded false x y c p q = q

supersede-IsBounded :
    (old : Option PeerHandle) (chans : Channels) (c : ℕ)
    → IsBounded (chans c)
    → IsBounded (supersede old chans c)
unfolding supersede
supersede-IsBounded none chans c b = b
supersede-IsBounded (some old) chans c b =
    send-IsBounded old.tx (error "superseded" "joined from another connection") chans c b

warn_all-IsBounded :
    (r : Room) (chans : Channels) (c : ℕ) → IsBounded (chans c) → IsBounded (warn_all r chans c)
unfolding warn_all
warn_all-IsBounded r chans c b =
    if-IsBounded (leb warn_cap (length r)) (send_all (warn (length r) warn_cap) r chans) chans c
      (send_all-IsBounded (warn (length r) warn_cap) r chans c b) b

-- The channels of a room's members after a join that is let in.
admitted-IsBounded :
    (user name : String) (r r' : Room) (chans : Channels) (c : ℕ)
    → IsBounded (chans c)
    → IsBounded
        (warn_all r' (send_others user (peer_joined user name) r' (supersede (get user r) chans)) c)
admitted-IsBounded user name r r' chans c b =
    warn_all-IsBounded r'
      (send_others user (peer_joined user name) r' (supersede (get user r) chans)) c
      (send_others-IsBounded user (peer_joined user name) r' (supersede (get user r) chans) c
        (supersede-IsBounded (get user r) chans c b))

join_room-IsBounded :
    (conn : ℕ) (room user name : String) (hub : Hub) (c : ℕ)
    → IsBounded (hub.chans c)
    → IsBounded ((join_room conn room user name hub).1.chans c)
unfolding join_room
join_room-IsBounded conn room user name hub c b =
    let r = room_of room hub.rooms in
    elim (Bool-cases (is_full user r)) [
      | inl full ↦ rw (full, join_room) (send-IsBounded conn (room_full hard_cap) hub.chans c b)
      | inr admitted ↦
          rw (admitted, join_room)
            (admitted-IsBounded user name r (add_member conn user name r) hub.chans c b)
    ]

leave_room-IsBounded :
    (room user : String) (hub : Hub) (c : ℕ)
    → IsBounded (hub.chans c)
    → IsBounded ((leave_room room user hub).chans c)
unfolding leave_room
leave_room-IsBounded room user hub c b = elim (Option-cases (get room hub.rooms)) [
  | inl e ↦ rw (e, leave_room) b
  | inr (r, e) ↦
      rw (e, leave_room) (send_all-IsBounded (peer_left user) (remove user r) hub.chans c b)
]

pub after_join_room-chans :
    (j : JoinRequest) (r : Option (List PeerInfo) × Hub) → (after_join_room j r).1 ≡ r.1
unfolding after_join_room
after_join_room-chans j (none, hub) = refl
after_join_room-chans j (some peers, hub) = refl

on_first_join-IsBounded :
    (cfg : Config) (conn : ℕ) (j : JoinRequest) (hub : Hub) (c : ℕ)
    → IsBounded (hub.chans c)
    → IsBounded ((on_first_join cfg conn j hub).1.chans c)
unfolding on_first_join
on_first_join-IsBounded cfg conn j hub c b = elim (Bool-cases (bad_input j)) [
  | inl bad ↦ rw (bad, on_first_join) (send-IsBounded conn _ hub.chans c b)
  | inr fits ↦ elim (Bool-cases (check cfg.crypto cfg.auth j.room j.token)) [
    | inl accepted ↦
        rw (fits, on_first_join)
          (rw accepted (
            rw (after_join_room-chans j (join_room conn j.room j.user_id j.name hub))
              (join_room-IsBounded conn j.room j.user_id j.name hub c b)))
    | inr denied ↦ rw (fits, on_first_join) (rw denied (send-IsBounded conn _ hub.chans c b))
  ]
]

on_join-IsBounded :
    (cfg : Config) (conn : ℕ) (me : Me) (j : JoinRequest) (hub : Hub) (c : ℕ)
    → IsBounded (hub.chans c)
    → IsBounded ((on_join cfg conn me j hub).1.chans c)
unfolding on_join
on_join-IsBounded cfg conn none j hub c b = on_first_join-IsBounded cfg conn j hub c b
on_join-IsBounded cfg conn (some me) j hub c b = send-IsBounded conn _ hub.chans c b

pub on_incoming-IsBounded :
    (cfg : Config) (conn : ℕ) (me : Me) (inc : Incoming) (hub : Hub) (c : ℕ)
    → IsBounded (hub.chans c)
    → IsBounded ((on_incoming cfg conn me inc hub).1.chans c)
unfolding on_incoming
on_incoming-IsBounded cfg conn me (text (ClientMsg.join j)) hub c b =
    on_join-IsBounded cfg conn me j hub c b
on_incoming-IsBounded cfg conn me (text (ClientMsg.offer to sdp)) hub c b =
    relay_if_ok-IsBounded _ _ me to _ hub c b
on_incoming-IsBounded cfg conn me (text (ClientMsg.answer to sdp)) hub c b =
    relay_if_ok-IsBounded _ _ me to _ hub c b
on_incoming-IsBounded cfg conn me (text (ClientMsg.ice to candidate)) hub c b =
    relay_if_ok-IsBounded _ _ me to _ hub c b
on_incoming-IsBounded cfg conn me (text (ClientMsg.ptt active)) hub c b =
    broadcast_ptt-IsBounded me active hub c b
on_incoming-IsBounded cfg conn me (text ClientMsg.rekey) hub c b =
    broadcast_rekey-IsBounded me hub c b
on_incoming-IsBounded cfg conn me (bad_text e) hub c b = send-IsBounded conn _ hub.chans c b
on_incoming-IsBounded cfg conn me (text ClientMsg.leave) hub c b = b
on_incoming-IsBounded cfg conn me close hub c b = b
on_incoming-IsBounded cfg conn me other_frame hub c b = b

pub greet-IsBounded :
    (cfg : Config) (conn now : ℕ) (user : String) (peers : List PeerInfo) (hub : Hub) (c : ℕ)
    → IsBounded (hub.chans c)
    → IsBounded ((greet cfg conn now user peers hub).chans c)
unfolding greet
greet-IsBounded cfg conn now user peers hub c b = elim (Option-cases cfg.turn) [
  | inl e ↦ rw (e, greet) (send-IsBounded conn _ hub.chans c b)
  | inr (t, e) ↦ rw (e, greet) (send-IsBounded conn _ _ c (send-IsBounded conn _ hub.chans c b))
]

pub cleanup-IsBounded :
    (me : Me) (hub : Hub) (c : ℕ) → IsBounded (hub.chans c) → IsBounded ((cleanup me hub).chans c)
unfolding cleanup
cleanup-IsBounded none hub c b = b
cleanup-IsBounded (some (room, user)) hub c b = leave_room-IsBounded room user hub c b
