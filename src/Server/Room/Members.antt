-- ===== src/Server/Room/Members.antt =====
-- Who is in which room after a join and after a leave.
use rdoc_sacompanion.Base.{
  ℕ, ◌≤◌, ◌<◌, String, ◌==◌, eq_iff, ◌≡◌, refl, ◌⊎◌, true, false, ◌&&◌, Option, none, some, [], ◌∷◌,
  arith, if◌then◌else◌, length, is_some, Bool-cases, Option-cases, inl, inr, subst,
}
use rdoc_sacompanion.Dict.{
  get, insert, remove, get-insert, get-remove, get-empty, length-remove-le, length-remove-lt,
}
use rdoc_sacompanion.Dict.Distinct.{DistinctKeys, insert-DistinctKeys, remove-DistinctKeys}
use rdoc_sacompanion.Server.Room.{
  PeerHandle, Room, Rooms, Hub, hard_cap, room_of, is_full, add_member, join_room, leave_room,
  is_nil,
}

-- A room as the server keeps it: not empty, not above the cap, each user once.
pub record IsRoom (r : Room) : Type 0 where
  pub nonempty : 0 < length r
  pub capped : length r ≤ hard_cap
  pub distinct : DistinctKeys r

abbrev handle : ℕ → String → PeerHandle
handle conn name = record { name = name; tx = conn }

-- Membership in a room of the server.
abbrev pub member : (room user : String) → Rooms → Option PeerHandle
member room user rooms = get user (room_of room rooms)

get-add_member :
    (conn : ℕ) (user name : String) (r : Room) (j : String)
    → get j (add_member conn user name r) ≡ (if user == j then some (handle conn name) else get j r)
unfolding add_member
get-add_member conn user name r j =
    ground (arith, get-insert user j (handle conn name) (remove user r), get-remove user j r)

add_member-IsRoom :
    (conn : ℕ) (user name : String) (r : Room)
    → is_full user r ≡ false
    → length r ≤ hard_cap
    → DistinctKeys r
    → IsRoom (add_member conn user name r)
unfolding add_member insert
add_member-IsRoom conn user name r room_left cap d = record {
  nonempty = omega arith;
  capped = ground (
    arith,
    length-remove-le user r,
    length-remove-lt user r,
    length-remove-le user (remove user r),
  );
  distinct =
      insert-DistinctKeys user (handle conn name) (remove user r) (remove-DistinctKeys user r d);
}

abbrev pub AllRooms : Rooms → Type 0
AllRooms rooms = (room : String) (r : Room) → get room rooms ≡ some r → IsRoom r

pub room_of-bounds :
    (room : String) (rooms : Rooms)
    → AllRooms rooms
    → (length (room_of room rooms) ≤ hard_cap) × DistinctKeys (room_of room rooms)
room_of-bounds room rooms v = elim (Option-cases (get room rooms)) [
  | inl e ↦ rw e (omega arith, tt)
  | inr (r, e) ↦ rw e ((v room r e).capped, (v room r e).distinct)
]

insert-AllRooms :
    (room : String) (r : Room) (rooms : Rooms)
    → IsRoom r
    → AllRooms rooms
    → AllRooms (insert room r rooms)
insert-AllRooms room r rooms valid v j r' e = elim (Bool-cases (room == j)) [
  | inl same ↦ subst IsRoom (ground (arith, get-insert room j r rooms)) valid
  | inr other ↦ v j r' (ground (arith, get-insert room j r rooms))
]

remove-AllRooms : (room : String) (rooms : Rooms) → AllRooms rooms → AllRooms (remove room rooms)
remove-AllRooms room rooms v j r' e = v j r' (ground (arith, get-remove room j rooms))

-- A full room is not empty, so the room that a refused join makes sure of was there.
full_room :
    (user : String) (room : String) (rooms : Rooms)
    → is_full user (room_of room rooms) ≡ true
    → (r : Room) × (get room rooms ≡ some r) × (room_of room rooms ≡ r)
full_room user room rooms full = elim (Option-cases (get room rooms)) [
  | inl e ↦ absurd (ground arith)
  | inr (r, e) ↦ (r, e, rw e)
]

pub join_room-AllRooms :
    (conn : ℕ) (room user name : String) (hub : Hub)
    → AllRooms hub.rooms
    → AllRooms (join_room conn room user name hub).1.rooms
unfolding join_room
join_room-AllRooms conn room user name hub v =
    let bounds = room_of-bounds room hub.rooms v in
    elim (Bool-cases (is_full user (room_of room hub.rooms))) [
      | inl full ↦
          let (r, found, same) = full_room user room hub.rooms full in
          rw (full, join_room) (insert-AllRooms room _ hub.rooms (rw same (v room r found)) v)
      | inr open_room ↦
          rw (open_room, join_room)
            (insert-AllRooms room _ hub.rooms
              (add_member-IsRoom conn user name (room_of room hub.rooms) open_room bounds.0
                bounds.1)
              v)
    ]

is_nil-get : (r : Room) (j : String) → is_nil r ≡ true → get j r ≡ none
is_nil-get [] j h = get-empty j
is_nil-get (m ∷ r) j h = cc

length-is_nil : (r : Room) → is_nil r ≡ false → 0 < length r
length-is_nil [] h = cc
length-is_nil (m ∷ r) h = omega arith

rest-IsRoom :
    (user : String) (r : Room) → is_nil (remove user r) ≡ false → IsRoom r → IsRoom (remove user r)
rest-IsRoom user r left v = record {
  nonempty = length-is_nil (remove user r) left;
  capped = omega (arith, length-remove-le user r, v.capped);
  distinct = remove-DistinctKeys user r v.distinct;
}

pub leave_room-AllRooms :
    (room user : String) (hub : Hub)
    → AllRooms hub.rooms
    → AllRooms (leave_room room user hub).rooms
unfolding leave_room
leave_room-AllRooms room user hub v = elim (Option-cases (get room hub.rooms)) [
  | inl e ↦ rw (e, leave_room) v
  | inr (r, e) ↦ elim (Bool-cases (is_nil (remove user r))) [
    | inl empty ↦ rw (e, leave_room) (rw empty (remove-AllRooms room hub.rooms v))
    | inr left ↦
        rw (e, leave_room)
          (rw left (
            insert-AllRooms room (remove user r) hub.rooms (rest-IsRoom user r left (v room r e))
              v))
  ]
]

room_of-insert :
    (room j : String) (r : Room) (rooms : Rooms)
    → room_of j (insert room r rooms) ≡ (if room == j then r else room_of j rooms)
room_of-insert room j r rooms = ground (arith, get-insert room j r rooms)

room_of-remove :
    (room j : String) (rooms : Rooms)
    → room_of j (remove room rooms) ≡ (if room == j then [] else room_of j rooms)
room_of-remove room j rooms = ground (arith, get-remove room j rooms)

member-insert :
    (room user r' u' : String) (h : PeerHandle) (r : Room) (rooms : Rooms)
    → r ≡ room_of room rooms
    → member r' u' (insert room (insert user h (remove user r)) rooms)
      ≡ (if room == r' && user == u' then some h else member r' u' rooms)
member-insert room user r' u' h r rooms e = ground (
  arith,
  room_of-insert room r' (insert user h (remove user r)) rooms,
  get-insert user u' h (remove user r),
  get-remove user u' r,
  eq_iff room r',
)

-- A join that is let in changes one place: the user is in the room with this connection's channel.
-- A refused one changes none.
pub member-join_room :
    (conn : ℕ) (room user name : String) (hub : Hub) (r' u' : String)
    → member r' u' (join_room conn room user name hub).1.rooms ≡ (
        if is_some (join_room conn room user name hub).0 && (room == r' && user == u')
        then some (record { name = name; tx = conn })
        else member r' u' hub.rooms)
unfolding join_room
member-join_room conn room user name hub r' u' =
    elim (Bool-cases (is_full user (room_of room hub.rooms))) [
      | inl full ↦
          rw (full, join_room)
            (ground
              (arith, room_of-insert room r' (room_of room hub.rooms) hub.rooms, eq_iff room r'))
      | inr admitted ↦
          rw (admitted, join_room)
            (unfold add_member in
              member-insert room user r' u' (handle conn name) (room_of room hub.rooms) hub.rooms
                refl)
    ]

-- A leave takes the user out of the room, whichever connection is there under the name.
pub member-leave_room :
    (room user : String) (hub : Hub) (r' u' : String)
    → member r' u' (leave_room room user hub).rooms
      ≡ (if room == r' && user == u' then none else member r' u' hub.rooms)
unfolding leave_room
member-leave_room room user hub r' u' = elim (Option-cases (get room hub.rooms)) [
  | inl e ↦ rw (e, leave_room) (ground (arith, eq_iff room r', get-empty {V = PeerHandle} u'))
  | inr (r, e) ↦ elim (Bool-cases (is_nil (remove user r))) [
    | inl empty ↦
        rw (e, leave_room)
          (rw empty (
            ground (
              arith,
              room_of-remove room r' hub.rooms,
              eq_iff room r',
              is_nil-get (remove user r) u' empty,
              get-remove user u' r,
              get-empty {V = PeerHandle} u',
            )))
    | inr left ↦
        rw (e, leave_room)
          (rw left (
            ground (
              arith,
              room_of-insert room r' (remove user r) hub.rooms,
              eq_iff room r',
              get-remove user u' r,
            )))
  ]
]

-- An entry after a join was there before, or it is the joining connection's.
pub member-join_room_cases :
    (conn : ℕ) (room user name : String) (hub : Hub) (r' u' : String) (h : PeerHandle)
    → member r' u' (join_room conn room user name hub).1.rooms ≡ some h
    → (member r' u' hub.rooms ≡ some h)
      ⊎ ((h.tx ≡ conn)
          × (is_some (join_room conn room user name hub).0 ≡ true)
          × (room ≡ r')
          × (user ≡ u'))
member-join_room_cases conn room user name hub r' u' h e =
    ground (arith, member-join_room conn room user name hub r' u', eq_iff room r', eq_iff user u')

-- An entry after a leave was there before, and is another user's or in another room.
pub member-leave_room_cases :
    (room user : String) (hub : Hub) (r' u' : String) (h : PeerHandle)
    → member r' u' (leave_room room user hub).rooms ≡ some h
    → (member r' u' hub.rooms ≡ some h) × (¬ ((room ≡ r') × (user ≡ u')))
member-leave_room_cases room user hub r' u' h e = (
  ground (arith, member-leave_room room user hub r' u', eq_iff room r', eq_iff user u'),
  λ (same_room, same_user).
      ground (arith, member-leave_room room user hub r' u', eq_iff room r', eq_iff user u'),
)
