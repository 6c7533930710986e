-- ===== src/Server/Room/Delivery.antt =====
-- Who is told of a join, a leave, a key press and a rekey: the members of the room in the lock of
-- `AppState::rooms` in server/init/src/main.rs, and nobody else.
use rdoc_sacompanion.Base.{
  ℕ, String, ◌==◌, eq_iff, ◌≡◌, ◌≢◌, refl, sym, ◌∙◌, ap, subst, inl, inr, Bool, some, [], ◌∷◌,
  arith, length, leb, if◌then◌else◌, Bool-cases, Option-cases,
}
use rdoc_sacompanion.Dict.{get, insert, remove, get-remove, get-empty}
use rdoc_sacompanion.Protocol.{ServerMsg, peer_left, ptt, rekey}
use rdoc_sacompanion.Server.Channel.{Channels, try_send, send_other}
use rdoc_sacompanion.Server.Room.{
  PeerHandle, Room, Rooms, Hub, warn_cap, supersede, warn_all, room_of, is_full, add_member,
  join_room, leave_room, relay_to, broadcast_ptt, broadcast_rekey, name_of,
}
use rdoc_sacompanion.Server.Room.Sends.{
  NoTx, DistinctTx, NoTx-get, send_all-NoTx, send_others-NoTx, send_all_member, send_others_member,
  send_others_self,
}

room_of_found :
    (room : String) (r : Room) (rooms : Rooms) → get room rooms ≡ some r → room_of room rooms ≡ r
room_of_found room r rooms e = ground arith

NoTx-remove : (c : ℕ) (user : String) (r : Room) → NoTx c r → NoTx c (remove user r)
unfolding remove
NoTx-remove c user [] n = tt
NoTx-remove c user ((id, h) ∷ r) n = elim (Bool-cases (id == user)) [
  | inl same ↦ rw same (NoTx-remove c user r n.1)
  | inr other ↦ rw other (n.0, NoTx-remove c user r n.1)
]

pub NoTx-add_member :
    (c conn : ℕ) (user name : String) (r : Room)
    → conn ≢ c
    → NoTx c r
    → NoTx c (add_member conn user name r)
unfolding add_member insert
NoTx-add_member c conn user name r differs n =
    (differs, NoTx-remove c user (remove user r) (NoTx-remove c user r n))

DistinctTx-remove : (user : String) (r : Room) → DistinctTx r → DistinctTx (remove user r)
unfolding remove
DistinctTx-remove user [] d = tt
DistinctTx-remove user ((id, h) ∷ r) d = elim (Bool-cases (id == user)) [
  | inl same ↦ rw same (DistinctTx-remove user r d.1)
  | inr other ↦ rw other (NoTx-remove h.tx user r d.0, DistinctTx-remove user r d.1)
]

pub supersede-NoTx :
    (user : String) (r : Room) (chans : Channels) (c : ℕ)
    → NoTx c r
    → supersede (get user r) chans c ≡ chans c
unfolding supersede
supersede-NoTx user r chans c n = elim (Option-cases (get user r)) [
  | inl e ↦ rw e refl
  | inr (h, e) ↦ rw e (send_other h.tx _ chans c (NoTx-get c r user h n e))
]

warn_all-NoTx : (r : Room) (chans : Channels) (c : ℕ) → NoTx c r → warn_all r chans c ≡ chans c
unfolding warn_all
warn_all-NoTx r chans c n = elim (Bool-cases (leb warn_cap (length r))) [
  | inl large ↦ rw large (send_all-NoTx _ r chans c n)
  | inr small ↦ rw small refl
]

-- A channel of nobody in the room gets nothing from a join but of the joining connection's.
pub join_room-NoTx :
    (conn : ℕ) (room user name : String) (hub : Hub) (c : ℕ)
    → conn ≢ c
    → NoTx c (room_of room hub.rooms)
    → (join_room conn room user name hub).1.chans c ≡ hub.chans c
unfolding join_room
join_room-NoTx conn room user name hub c differs n =
    let r = room_of room hub.rooms in
    let n' = NoTx-add_member c conn user name r differs n in
    elim (Bool-cases (is_full user r)) [
      | inl full ↦ rw (full, join_room) (send_other conn _ hub.chans c differs)
      | inr open_room ↦
          rw (open_room, join_room)
            (warn_all-NoTx (add_member conn user name r) _ c n'
              ∙ send_others-NoTx user _ (add_member conn user name r) _ c n'
              ∙ supersede-NoTx user r hub.chans c n)
    ]

pub relay_to-NoTx :
    (room from to : String) (build : String → ServerMsg) (hub : Hub) (c : ℕ)
    → NoTx c (room_of room hub.rooms)
    → (relay_to (some (room, from)) to build hub).chans c ≡ hub.chans c
unfolding relay_to
relay_to-NoTx room from to build hub c n = elim (Option-cases (get room hub.rooms)) [
  | inl e ↦ rw (e, relay_to) refl
  | inr (r, e) ↦
      let n' = subst (NoTx c) (room_of_found room r hub.rooms e) n in
      elim (Option-cases (get to r)) [
        | inl e' ↦ rw (e, relay_to) (rw e' refl)
        | inr (h, e') ↦
            rw (e, relay_to) (rw e' (send_other h.tx _ hub.chans c (NoTx-get c r to h n' e')))
      ]
]

pub broadcast_ptt-NoTx :
    (room from : String) (active : Bool) (hub : Hub) (c : ℕ)
    → NoTx c (room_of room hub.rooms)
    → (broadcast_ptt (some (room, from)) active hub).chans c ≡ hub.chans c
unfolding broadcast_ptt
broadcast_ptt-NoTx room from active hub c n = elim (Option-cases (get room hub.rooms)) [
  | inl e ↦ rw (e, broadcast_ptt) refl
  | inr (r, e) ↦
      let n' = subst (NoTx c) (room_of_found room r hub.rooms e) n in
      rw (e, broadcast_ptt) (send_others-NoTx from _ r hub.chans c n')
]

pub broadcast_rekey-NoTx :
    (room from : String) (hub : Hub) (c : ℕ)
    → NoTx c (room_of room hub.rooms)
    → (broadcast_rekey (some (room, from)) hub).chans c ≡ hub.chans c
unfolding broadcast_rekey
broadcast_rekey-NoTx room from hub c n = elim (Option-cases (get room hub.rooms)) [
  | inl e ↦ rw (e, broadcast_rekey) refl
  | inr (r, e) ↦
      let n' = subst (NoTx c) (room_of_found room r hub.rooms e) n in
      rw (e, broadcast_rekey) (send_all-NoTx _ r hub.chans c n')
]

-- Where the members of the room have different channels, a leave offers `PeerLeft` with the
-- leaver's id exactly once to each other member.
pub leave_room-announced :
    (room user id : String) (h : PeerHandle) (hub : Hub)
    → DistinctTx (room_of room hub.rooms)
    → get id (room_of room hub.rooms) ≡ some h
    → id ≢ user
    → (leave_room room user hub).chans h.tx ≡ try_send (peer_left user) (hub.chans h.tx)
unfolding leave_room
leave_room-announced room user id h hub d e differs = elim (Option-cases (get room hub.rooms)) [
  | inl none_there ↦ absurd (ground (arith, get-empty {V = PeerHandle} id))
  | inr (r, found) ↦
      let same = room_of_found room r hub.rooms found in
      let d' = subst DistinctTx same d in
      let e' = ap (get id) (sym same) ∙ e in
      rw (found, leave_room)
        (send_all_member (peer_left user) (remove user r) hub.chans id h
          (DistinctTx-remove user r d') (ground (arith, get-remove user id r, eq_iff user id)))
]

-- Where the members of the room have different channels, a key press offers `Ptt` with the
-- sender's id exactly once to each other member, and the sender's own channel stays as it is.
pub broadcast_ptt-announced :
    (room from id : String) (active : Bool) (h : PeerHandle) (hub : Hub)
    → DistinctTx (room_of room hub.rooms)
    → get id (room_of room hub.rooms) ≡ some h
    → (broadcast_ptt (some (room, from)) active hub).chans h.tx
      ≡ (if id == from then hub.chans h.tx else try_send (ptt from active) (hub.chans h.tx))
unfolding broadcast_ptt
broadcast_ptt-announced room from id active h hub d e = elim (Option-cases (get room hub.rooms)) [
  | inl none_there ↦ absurd (ground (arith, get-empty {V = PeerHandle} id))
  | inr (r, found) ↦
      let same = room_of_found room r hub.rooms found in
      let d' = subst DistinctTx same d in
      let e' = ap (get id) (sym same) ∙ e in
      rw (found, broadcast_ptt)
        (elim (Bool-cases (id == from)) [
          | inl me ↦
              let mine : get from r ≡ some h = ground (arith, eq_iff id from) in
              rw me (send_others_self from (ptt from active) r hub.chans h d' mine)
          | inr other ↦ rw other (
              send_others_member from (ptt from active) r hub.chans id h d' e'
                (ground (arith, eq_iff id from)))
        ])
]

-- Where the members of the room have different channels, a rekey offers `Rekey` exactly once to
-- every member, the one who asked included, with the asking member's display name.
pub broadcast_rekey-announced :
    (room from id : String) (h : PeerHandle) (hub : Hub)
    → DistinctTx (room_of room hub.rooms)
    → get id (room_of room hub.rooms) ≡ some h
    → (broadcast_rekey (some (room, from)) hub).chans h.tx
      ≡ try_send (rekey (name_of (get from (room_of room hub.rooms)))) (hub.chans h.tx)
unfolding broadcast_rekey
broadcast_rekey-announced room from id h hub d e = elim (Option-cases (get room hub.rooms)) [
  | inl none_there ↦ absurd (ground (arith, get-empty {V = PeerHandle} id))
  | inr (r, found) ↦
      let same = room_of_found room r hub.rooms found in
      let d' = subst DistinctTx same d in
      let e' = ap (get id) (sym same) ∙ e in
      rw (found, broadcast_rekey)
        (send_all_member (rekey (name_of (get from r))) r hub.chans id h d' e')
]
