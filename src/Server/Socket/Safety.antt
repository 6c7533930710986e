-- ===== src/Server/Socket/Safety.antt =====
-- What holds in every state that the signaling server of server/init/src/main.rs can reach, however
-- its connections interleave.
use rdoc_sacompanion.Base.{
  ℕ, String, ◌≡◌, ◌∙◌, ◌⊎◌, inl, inr, none, some, arith, nat_eq, Bool-cases,
}
use rdoc_sacompanion.Dict.{get-empty}
use rdoc_sacompanion.Server.Channel.{Channel, Channels, IsBounded}
use rdoc_sacompanion.Server.Room.{PeerHandle, Hub, Room, Rooms, join_room}
use rdoc_sacompanion.Server.Room.Members.{member, AllRooms, member-join_room_cases}
use rdoc_sacompanion.Server.Socket.{Config, Me, Incoming, reading, leaving, on_incoming, cleanup}
use rdoc_sacompanion.Server.Socket.World.{
  Task, running, ended, World, put, read, Step, accepts, reads, answers, hangs_up, finishes, writes,
  writer_stops, Reach, here, next, initial, identity_of,
}
use rdoc_sacompanion.Server.Socket.Invariant.{
  on_incoming-rooms, on_incoming-AllRooms, after_join_room_lem, greet-rooms, member-cleanup,
  cleanup-AllRooms,
}
use rdoc_sacompanion.Server.Socket.Queues.{
  on_incoming-IsBounded, greet-IsBounded, cleanup-IsBounded,
}

-- Every entry of a room belongs to a connection that runs and has joined as that user.
abbrev pub Owned : Rooms → (ℕ → Task) → Type 0
Owned rooms tasks =
    (room user : String) (h : PeerHandle)
    → member room user rooms ≡ some h
    → identity_of (tasks h.tx) ≡ some (room, user)

pub record IsValid (w : World) : Type 0 where
  pub rooms : AllRooms w.hub.rooms
  pub queues : (c : ℕ) → IsBounded (w.hub.chans c)
  pub owned : Owned w.hub.rooms w.tasks

-- A connection that has not joined as anybody is in no room.
Owned-put :
    (rooms rooms' : Rooms) (tasks : ℕ → Task) (c : ℕ) (t : Task)
    → Owned rooms tasks
    → ((room user : String) (h : PeerHandle)
        → member room user rooms' ≡ some h
        → (member room user rooms ≡ some h) × (c ≡ h.tx → identity_of t ≡ some (room, user))
          ⊎ ((h.tx ≡ c) × (identity_of t ≡ some (room, user))))
    → Owned rooms' (put c t tasks)
Owned-put rooms rooms' tasks c t o each room user h e = elim (each room user h e) [
  | inl (old, same) ↦ ground (arith, o room user h old)
  | inr (mine, joined) ↦ ground arith
]

put-IsBounded :
    (c : ℕ) (ch : Channel) (chans : Channels)
    → IsBounded ch
    → ((d : ℕ) → IsBounded (chans d))
    → (d : ℕ) → IsBounded (put c ch chans d)
put-IsBounded c ch chans b bs d = elim (Bool-cases (nat_eq c d)) [
  | inl same ↦ rw same b
  | inr other ↦ rw other (bs d)
]

read-Owned :
    (cfg : Config) (c : ℕ) (me : Me) (inc : Incoming) (w : World)
    → w.tasks c ≡ running (reading me)
    → Owned w.hub.rooms w.tasks
    → Owned (read cfg c me inc w).hub.rooms (read cfg c me inc w).tasks
read-Owned cfg c me inc w e o =
    Owned-put w.hub.rooms (on_incoming cfg c me inc w.hub).1.rooms w.tasks c
      (running (on_incoming cfg c me inc w.hub).0) o
      λ room user h m. elim (on_incoming-rooms cfg c me inc w.hub) [
        | inl (same, keeps) ↦
            let old : member room user w.hub.rooms ≡ some h = rw (← same) m in
            inl (old, λ at. keeps ∙ ground (arith, o room user h old))
        | inr (j, fresh, checks, joined) ↦
            let after = after_join_room_lem j (join_room c j.room j.user_id j.name w.hub) in
            let m' : member room user (join_room c j.room j.user_id j.name w.hub).1.rooms ≡ some h =
              rw (← after.0, ← joined) m in
            elim (member-join_room_cases c j.room j.user_id j.name w.hub room user h m') [
              | inl old ↦ inl (old, λ at. absurd (ground (arith, o room user h old)))
              | inr (mine, let_in, same_room, same_user) ↦
                  inr (mine, rw joined (after.1 let_in ∙ cc))
            ]
      ]

-- The entries stay, and the connection's task is still the one that joined.
keeps_task :
    (rooms : Rooms) (tasks : ℕ → Task) (c : ℕ) (t : Task)
    → Owned rooms tasks
    → ((room user : String)
        → identity_of (tasks c) ≡ some (room, user)
        → identity_of t ≡ some (room, user))
    → Owned rooms (put c t tasks)
keeps_task rooms tasks c t o stays =
    Owned-put rooms rooms tasks c t o
      λ room user h m. inl (m, λ at. stays room user (ground (arith, o room user h m)))

finish-Owned :
    (me : Me) (hub : Hub) (tasks : ℕ → Task) (c : ℕ)
    → tasks c ≡ running (leaving me)
    → Owned hub.rooms tasks
    → Owned (cleanup me hub).rooms (put c ended tasks)
finish-Owned me hub tasks c e o =
    Owned-put hub.rooms (cleanup me hub).rooms tasks c ended o λ room user h m.
      let gone = member-cleanup me hub room user h m in
      inl (gone.0, λ at. absurd (gone.1 (ground (arith, o room user h gone.0))))

-- Each step keeps the invariant.
Step-IsValid : {cfg : Config} {w v : World} → Step cfg w v → IsValid w → IsValid v
Step-IsValid {w = w} (accepts c e) i = record {
  rooms = i.rooms;
  queues = put-IsBounded c _ w.hub.chans (omega arith) i.queues;
  owned =
      keeps_task w.hub.rooms w.tasks c (running (reading none)) i.owned
        (λ room user h. absurd (ground arith));
}
Step-IsValid {cfg = cfg} {w = w} (reads c me inc e) i = record {
  rooms = on_incoming-AllRooms cfg c me inc w.hub i.rooms;
  queues = λ d. on_incoming-IsBounded cfg c me inc w.hub d (i.queues d);
  owned = read-Owned cfg c me inc w e i.owned;
}
Step-IsValid {cfg = cfg} {w = w} (answers c now room user peers e) i =
    let same = greet-rooms cfg c now user peers w.hub in
    record {
      rooms = rw same i.rooms;
      queues = λ d. greet-IsBounded cfg c now user peers w.hub d (i.queues d);
      owned = rw same (
          keeps_task w.hub.rooms w.tasks c (running (reading (some (room, user)))) i.owned
            (λ room' user' h. ground arith));
    }
Step-IsValid {w = w} (hangs_up c me e) i = record {
  rooms = i.rooms;
  queues = i.queues;
  owned =
      keeps_task w.hub.rooms w.tasks c (running (leaving me)) i.owned (λ room user h. ground arith);
}
Step-IsValid {w = w} (finishes c me e) i = record {
  rooms = cleanup-AllRooms me w.hub i.rooms;
  queues =
      put-IsBounded c _ (cleanup me w.hub).chans (omega arith)
        (λ d. cleanup-IsBounded me w.hub d (i.queues d));
  owned = finish-Owned me w.hub w.tasks c e i.owned;
}
Step-IsValid {w = w} (writes c msg rest e) i = record {
  rooms = i.rooms;
  queues = put-IsBounded c _ w.hub.chans (ground (arith, i.queues c)) i.queues;
  owned = i.owned;
}
Step-IsValid {w = w} (writer_stops c) i = record {
  rooms = i.rooms;
  queues = put-IsBounded c _ w.hub.chans (omega arith) i.queues;
  owned = i.owned;
}

initial-IsValid : IsValid initial
initial-IsValid = record {
  rooms = λ room r e. absurd (ground (arith, get-empty {V = Room} room));
  queues = λ d. omega arith;
  owned = λ room user h e.
      absurd (ground (arith, get-empty {V = Room} room, get-empty {V = PeerHandle} user));
}

-- In every state that the server reaches from its start, by any interleaving of the connections'
-- tasks: each room in the map has at least one and at most `hard_cap` members, no user twice; no
-- outbound queue is longer than `peer_chan`; and each entry of a room names a connection whose
-- task runs and has joined that room as that user.
pub Reach-IsValid : {cfg : Config} {w : World} → Reach cfg initial w → IsValid w
Reach-IsValid here = initial-IsValid
Reach-IsValid (next r s) = Step-IsValid s (Reach-IsValid r)

-- In every state that the server reaches, the members of a room are served by different
-- connections, and no connection is a member of two rooms.
pub Reach-one_place :
    {cfg : Config} {w : World} (r : Reach cfg initial w) (room room' user user' : String)
    (h h' : PeerHandle)
    → member room user w.hub.rooms ≡ some h
    → member room' user' w.hub.rooms ≡ some h'
    → h.tx ≡ h'.tx
    → (room ≡ room') × (user ≡ user')
Reach-one_place r room room' user user' h h' m m' same =
    let i = Reach-IsValid r in ground (arith, i.owned room user h m, i.owned room' user' h' m')
