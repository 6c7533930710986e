-- ===== src/Tests/Server.antt =====
-- The signaling server of server/init/src/main.rs with two connections, and the handlers of
-- auth.rs, turn.rs and i18n.rs at small inputs.
use rdoc_sacompanion.Base.{◌≡◌, ◌↔◌, refl, true, false, none, some, [], ◌∷◌, arith}
use rdoc_sacompanion.Dict.{get, insert, remove}
use rdoc_sacompanion.Text.Bytes.{as_bytes}
use rdoc_sacompanion.Server.CtEq.{ct_eq}
use rdoc_sacompanion.Protocol.{JoinRequest, ClientMsg}
use rdoc_sacompanion.Server.{Crypto}
use rdoc_sacompanion.Server.Auth.{hmac, token_for, check}
use rdoc_sacompanion.Server.Auth.Laws.{check-token_for_iff}
use rdoc_sacompanion.Server.Room.{
  PeerHandle, Hub, room_of, is_full, roster_for, join_room, leave_room,
}
use rdoc_sacompanion.Server.Room.Sends.{DistinctTx}
use rdoc_sacompanion.Server.Room.Members.{member}
use rdoc_sacompanion.Server.Socket.{
  Config, Me, text, greeting, bad_input, on_join, on_incoming, greet,
}
use rdoc_sacompanion.Server.Socket.World.{
  World, running, accept, read, answer_join, Reach, here, next, accepts, reads, answers, initial,
}
use rdoc_sacompanion.Server.Socket.Safety.{IsValid, Reach-IsValid}
use rdoc_sacompanion.Server.Socket.Admission.{on_join-admitted_iff, leave_room-evicts_newer}
use rdoc_sacompanion.Server.Socket.Isolation.{Reach-isolated}

abbrev crypto : Crypto
crypto = record {
  hmac_sha256 = λ key msg. msg;
  hmac_sha1 = λ key msg. msg;
  hex_encode = λ bytes. "abcd";
  base64_encode = λ bytes. "q80=";
}

abbrev cfg : Config
cfg = record { crypto = crypto; auth = hmac (1 ∷ []); turn = none }

abbrev alice_joins : JoinRequest
alice_joins = record { room = "r"; user_id = "alice"; name = "Alice"; token = some "abcd" }

-- Two connections are open, and the first has joined.
abbrev world_open : World
world_open = accept 1 (accept 0 initial)

abbrev world_joining : World
world_joining = read cfg 0 none (text (ClientMsg.join alice_joins)) world_open

abbrev world_joined : World
world_joined = answer_join cfg 0 1000 "r" "alice" [] world_joining

alice_admitted : world_joining.tasks 0 ≡ running (greeting "r" "alice" [])
unfolding on_incoming check join_room ct_eq as_bytes get remove
alice_admitted = refl

joined_history : Reach cfg initial world_joined
joined_history =
    next
      (next (next (next here (accepts 0 refl)) (accepts 1 refl))
        (reads 0 none (text (ClientMsg.join alice_joins)) refl))
      (answers 0 1000 "r" "alice" [] alice_admitted)

abbrev alice : PeerHandle
alice = record { name = "Alice"; tx = 0 }

alice_is_member : member "r" "alice" world_joined.hub.rooms ≡ some alice
unfolding on_incoming check join_room greet get ct_eq as_bytes insert
alice_is_member = refl

Reach-IsValid_example : IsValid world_joined
Reach-IsValid_example = Reach-IsValid joined_history

Reach-isolated_example :
    (read cfg 0 (some ("r", "alice")) (text (ClientMsg.ptt true)) world_joined).hub.chans 1
    ≡ world_joined.hub.chans 1
Reach-isolated_example =
    Reach-isolated joined_history 0 1 (some ("r", "alice")) (text (ClientMsg.ptt true)) refl
      (λ e. absurd (ground arith)) (λ room user user' e. absurd (cc e))

abbrev nobody : Me
nobody = none

on_join-admitted_iff_example :
    ((on_join cfg 0 nobody alice_joins world_open.hub).0
      ≡ greeting "r" "alice" (roster_for "alice" (room_of "r" world_open.hub.rooms)))
    ↔ ((nobody ≡ none)
        × (bad_input alice_joins ≡ false)
        × (some "abcd" ≡ token_for crypto (hmac (1 ∷ [])) "r")
        × (is_full "alice" (room_of "r" world_open.hub.rooms) ≡ false))
on_join-admitted_iff_example =
    on_join-admitted_iff cfg (1 ∷ []) 0 nobody alice_joins world_open.hub refl

abbrev bob : PeerHandle
bob = record { name = "Bob"; tx = 1 }

abbrev two_in_room : Hub
two_in_room = record {
  rooms = ("r", ("alice", alice) ∷ ("bob", bob) ∷ []) ∷ [];
  chans = λ c. record { queue = []; closed = false };
}

bob_is_member : get "bob" (room_of "r" two_in_room.rooms) ≡ some bob
unfolding get
bob_is_member = refl

alice_in_two : member "r" "alice" two_in_room.rooms ≡ some alice
unfolding get
alice_in_two = refl

distinct_channels : DistinctTx (room_of "r" two_in_room.rooms)
unfolding get
distinct_channels = ((λ e. absurd (ground arith), tt), (tt, tt))

leave_room-evicts_newer_example :
    (member "r" "alice" (join_room 2 "r" "alice" "Alice" two_in_room).1.rooms
      ≡ some (record { name = "Alice"; tx = 2 }))
    × (member "r" "alice"
          (leave_room "r" "alice" (join_room 2 "r" "alice" "Alice" two_in_room).1).rooms
        ≡ none)
leave_room-evicts_newer_example =
    leave_room-evicts_newer 0 2 "r" "alice" "Alice" two_in_room (λ e. absurd (ground arith))
      alice_in_two (unfold get in refl)

check-token_for_iff_example :
    (check crypto (hmac (1 ∷ [])) "r" (some "abce") ≡ true)
    ↔ (some "abce" ≡ token_for crypto (hmac (1 ∷ [])) "r")
check-token_for_iff_example = check-token_for_iff crypto (1 ∷ []) "r" (some "abce")
