-- ===== src/Server/Socket/Admission.antt =====
-- Who gets into a room: `ClientMsg::Join` in server/init/src/main.rs.
use rdoc_sacompanion.Base.{
  ℕ, String, eq_iff, ◌≡◌, ◌≢◌, ◌↔◌, refl, false, not, ◌&&◌, none, some, List, arith, if◌then◌else◌,
  Bool-cases, inl, inr, ◌∙◌,
}
use rdoc_sacompanion.Protocol.{JoinRequest}
use rdoc_sacompanion.Server.Auth.{hmac, check, token_for}
use rdoc_sacompanion.Server.Auth.Laws.{check-token_for_iff}
use rdoc_sacompanion.Server.Room.{Hub, room_of, is_full, roster_for, join_room, leave_room}
use rdoc_sacompanion.Server.Room.Members.{member, member-join_room, member-leave_room}
use rdoc_sacompanion.Server.Socket.{
  Config, Me, Next, greeting, leaving, bad_input, after_join_room, on_first_join, on_join,
}

-- The answer to an admitted join.
abbrev welcome : JoinRequest → Hub → Next
welcome j hub = greeting j.room j.user_id (roster_for j.user_id (room_of j.room hub.rooms))

after_full :
    (conn : ℕ) (j : JoinRequest) (hub : Hub)
    → (after_join_room j (join_room conn j.room j.user_id j.name hub)).0
      ≡ (if is_full j.user_id (room_of j.room hub.rooms) then leaving none else welcome j hub)
unfolding after_join_room join_room
after_full conn j hub = elim (Bool-cases (is_full j.user_id (room_of j.room hub.rooms))) [
  | inl full ↦ rw (full, join_room) refl
  | inr free ↦ rw (free, join_room) refl
]

-- Every outcome of the first join of a socket, in the order of the checks.
on_first_join-next :
    (cfg : Config) (conn : ℕ) (j : JoinRequest) (hub : Hub)
    → (on_first_join cfg conn j hub).0 ≡ (
        if not (bad_input j)
          && (check cfg.crypto cfg.auth j.room j.token
              && not (is_full j.user_id (room_of j.room hub.rooms)))
        then welcome j hub
        else leaving none)
unfolding on_first_join
on_first_join-next cfg conn j hub = elim (Bool-cases (bad_input j)) [
  | inl bad ↦ rw (bad, on_first_join) refl
  | inr fits ↦ elim (Bool-cases (check cfg.crypto cfg.auth j.room j.token)) [
    | inr denied ↦ rw (fits, on_first_join) (rw denied refl)
    | inl accepted ↦
        rw (fits, on_first_join)
          (rw accepted (
            after_full conn j hub
            ∙ (elim (Bool-cases (is_full j.user_id (room_of j.room hub.rooms))) [
              | inl full ↦ rw full refl
              | inr free ↦ rw free refl
            ])))
  ]
]

-- With a secret, a join is admitted, with the roster of the room's other members as its answer,
-- exactly when the socket has not joined before, the fields are within their bounds, the token is
-- the one that the server mints for the room, and the room is not full (a user who is in it already
-- always fits).
pub on_join-admitted_iff :
    (cfg : Config) (key : List ℕ) (conn : ℕ) (me : Me) (j : JoinRequest) (hub : Hub)
    → cfg.auth ≡ hmac key
    → ((on_join cfg conn me j hub).0
        ≡ greeting j.room j.user_id (roster_for j.user_id (room_of j.room hub.rooms)))
      ↔ ((me ≡ none)
          × (bad_input j ≡ false)
          × (j.token ≡ token_for cfg.crypto cfg.auth j.room)
          × (is_full j.user_id (room_of j.room hub.rooms) ≡ false))
unfolding on_join
on_join-admitted_iff cfg key conn (some me) j hub keyed = (λ h. cc, λ h. cc)
on_join-admitted_iff cfg key conn none j hub keyed =
    let next = on_first_join-next cfg conn j hub in
    let iff = check-token_for_iff cfg.crypto key j.room j.token in ground arith

-- A user who is in a room that is not full to them joins again on another connection: the entry
-- becomes the newer connection's. When the older connection then ends, its cleanup, which removes
-- the user by id, leaves the room without any entry of that user.
pub leave_room-evicts_newer :
    (old new : ℕ) (room user name : String) (hub : Hub)
    → old ≢ new
    → member room user hub.rooms ≡ some (record { name = name; tx = old })
    → is_full user (room_of room hub.rooms) ≡ false
    → let joined = (join_room new room user name hub).1 in
      (member room user joined.rooms ≡ some (record { name = name; tx = new }))
      × (member room user (leave_room room user joined).rooms ≡ none)
leave_room-evicts_newer old new room user name hub differs was free =
    let joined = (join_room new room user name hub).1 in
    let there = member-join_room new room user name hub room user in
    let gone = member-leave_room room user joined room user in
    let let_in : (join_room new room user name hub).0
        ≡ some (roster_for user (room_of room hub.rooms)) =
      (unfold join_room in rw free refl) in
    (
      ground (arith, eq_iff room room, eq_iff user user),
      ground (arith, eq_iff room room, eq_iff user user),
    )
