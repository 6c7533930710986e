-- ===== src/Server/Channel.antt =====
-- The outbound queues of server/init/src/main.rs: `mpsc::channel::<ServerMsg>(PEER_CHAN)` for each
-- connection, filled by `try_send`. A connection's number names its channel, so a cloned sender is
-- the number.
use rdoc_sacompanion.Base.{
  ℕ, ◌≤◌, ◌≡◌, ◌≢◌, Bool, List, [], ◌∷◌, ◌++◌, arith, ltb, nat_eq, if◌then◌else◌, length,
  length-append,
}
use rdoc_sacompanion.Protocol.{ServerMsg}

abbrev pub peer_chan : ℕ
peer_chan = 256

-- `closed` once the receiver is dropped with the writer task.
pub record Channel : Type 0 where
  pub queue : List ServerMsg
  pub closed : Bool

-- A message that finds the queue full, or the channel closed, is dropped.
unfoldable pub try_send : ServerMsg → Channel → Channel
try_send msg c =
    if c.closed
    then c
    else if ltb (length c.queue) peer_chan
    then record c { queue = c.queue ++ msg ∷ [] }
    else c

abbrev pub Channels : Type 0
Channels = ℕ → Channel

unfoldable pub send : ℕ → ServerMsg → Channels → Channels
send to msg chans conn = if nat_eq to conn then try_send msg (chans conn) else chans conn

-- The queue of the writer task, never longer than the channel's capacity.
abbrev pub IsBounded : Channel → Type 0
IsBounded c = length c.queue ≤ peer_chan

pub try_send-IsBounded : (msg : ServerMsg) (c : Channel) → IsBounded c → IsBounded (try_send msg c)
unfolding try_send
try_send-IsBounded msg c h = ground (arith, length-append c.queue (msg ∷ []))

pub send-IsBounded :
    (to : ℕ) (msg : ServerMsg) (chans : Channels) (conn : ℕ)
    → IsBounded (chans conn)
    → IsBounded (send to msg chans conn)
unfolding send
send-IsBounded to msg chans conn h = ground (arith, try_send-IsBounded msg (chans conn))

-- Only the channel that is named is written to.
pub send_other :
    (to : ℕ) (msg : ServerMsg) (chans : Channels) (conn : ℕ)
    → to ≢ conn
    → send to msg chans conn ≡ chans conn
unfolding send
send_other to msg chans conn h = ground arith

pub send_self :
    (to : ℕ) (msg : ServerMsg) (chans : Channels) → send to msg chans to ≡ try_send msg (chans to)
unfolding send
send_self to msg chans = ground arith
