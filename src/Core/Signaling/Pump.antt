-- ===== src/Core/Signaling/Pump.antt =====
-- The two tasks that `connect` of apps/companion-core/src/signaling.rs starts: one writes the
-- client's messages and a ping every 25 seconds, the other reads the server's.
use rdoc_sacompanion.Base.{
  ℕ, ◌+◌, ◌≡◌, refl, ap, inl, inr, Bool-cases, Bool, Option, none, some, List, [], ◌∷◌, ◌++◌,
  if◌then◌else◌,
}
use rdoc_sacompanion.Protocol.{ClientMsg, ServerMsg}

-- What the writer is woken by: a message, which has a text in JSON, the ping's timer, or the end of the queue.
pub data Wake : Type 0 where
  outgoing : ClientMsg → Wake
  ping_due : Wake
  queue_closed : Wake

pub data Frame : Type 0 where
  message : ClientMsg → Frame
  ping : Frame

abbrev frame_of : Wake → Option Frame
frame_of (outgoing msg) = some (message msg)
frame_of ping_due = some ping
frame_of queue_closed = none

-- The frames that the writer sends: `sends` says of each turn of the loop, from `turn` on, whether
-- the socket takes its frame. The first failure ends the task.
unfoldable pub write_loop : (sends : ℕ → Frame → Bool) (turn : ℕ) → List Wake → List Frame
write_loop sends turn [] = []
write_loop sends turn (w ∷ ws) = elim (frame_of w) [
  | none ↦ []
  | some f ↦ let rest = write_loop sends (turn + 1) ws in if sends turn f then f ∷ rest else []
]

-- What the stream gives: a text that serde parses or does not, another frame, or its end.
pub data Read : Type 0 where
  parsed : ServerMsg → Read
  unparsed : Read
  other_frame : Read
  ended : Read

-- The messages that the reader passes on while the engine listens.
unfoldable pub read_loop : List Read → List ServerMsg
read_loop [] = []
read_loop (parsed msg ∷ rs) = msg ∷ read_loop rs
read_loop (unparsed ∷ rs) = read_loop rs
read_loop (other_frame ∷ rs) = read_loop rs
read_loop (ended ∷ rs) = []

abbrev pub messages_of : List Frame → List ClientMsg
messages_of [] = []
messages_of (message msg ∷ fs) = msg ∷ messages_of fs
messages_of (ping ∷ fs) = messages_of fs

abbrev pub outgoing_of : List Wake → List ClientMsg
outgoing_of [] = []
outgoing_of (outgoing msg ∷ ws) = msg ∷ outgoing_of ws
outgoing_of (ping_due ∷ ws) = outgoing_of ws
outgoing_of (queue_closed ∷ ws) = []

-- Whenever the socket fails, what it was given is a prefix of the queued messages in their order:
-- the pings between them drop and reorder nothing.
pub write_loop-prefix :
    (sends : ℕ → Frame → Bool) (turn : ℕ) (ws : List Wake)
    → (rest : List ClientMsg) × (outgoing_of ws ≡ messages_of (write_loop sends turn ws) ++ rest)
unfolding write_loop
write_loop-prefix sends turn [] = ([], refl)
write_loop-prefix sends turn (outgoing msg ∷ ws) =
    let later = write_loop-prefix sends (turn + 1) ws in
    elim (Bool-cases (sends turn (message msg))) [
      | inl sent ↦ (later.0, rw sent (ap (λ ms. msg ∷ ms) later.1))
      | inr failed ↦ (msg ∷ outgoing_of ws, rw failed refl)
    ]
write_loop-prefix sends turn (ping_due ∷ ws) =
    let later = write_loop-prefix sends (turn + 1) ws in
    elim (Bool-cases (sends turn ping)) [
      | inl sent ↦ (later.0, rw sent later.1)
      | inr failed ↦ (outgoing_of ws, rw failed refl)
    ]
write_loop-prefix sends turn (queue_closed ∷ ws) = ([], refl)
