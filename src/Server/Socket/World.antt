-- ===== src/Server/Socket/World.antt =====
-- The tasks of server/init/src/main.rs, one reader and one writer for each connection, and their
-- interleavings. A step is one locked region or what a task does between two of them.
use rdoc_sacompanion.Base.{
  ℕ, String, true, false, none, some, List, [], ◌∷◌, nat_eq, if◌then◌else◌, ◌≡◌,
}
use rdoc_sacompanion.Protocol.{PeerInfo, ServerMsg}
use rdoc_sacompanion.Server.Channel.{Channel}
use rdoc_sacompanion.Server.Room.{Hub}
use rdoc_sacompanion.Server.Socket.{
  Config, Me, Incoming, Next, reading, greeting, leaving, on_incoming, greet, cleanup,
}

-- A connection that is not open yet, that runs, or that has ended.
pub data Task : Type 0 where
  waiting : Task
  running : Next → Task
  ended : Task

pub record World : Type 0 where
  pub hub : Hub
  pub tasks : ℕ → Task

abbrev pub put {ℓ} : {A : Type ℓ} → ℕ → A → (ℕ → A) → ℕ → A
put c a f conn = if nat_eq c conn then a else f conn

abbrev pub open_channel : Channel
open_channel = record { queue = []; closed = false }

abbrev pub closed_channel : Channel
closed_channel = record { queue = []; closed = true }

-- `handle_socket` starts: a new channel, and nobody has joined.
abbrev pub accept : ℕ → World → World
accept c w = record {
  hub = record { rooms = w.hub.rooms; chans = put c open_channel w.hub.chans };
  tasks = put c (running (reading none)) w.tasks;
}

abbrev pub read : Config → ℕ → Me → Incoming → World → World
read cfg c me inc w = record {
  hub = (on_incoming cfg c me inc w.hub).1;
  tasks = put c (running (on_incoming cfg c me inc w.hub).0) w.tasks;
}

abbrev pub answer_join : Config → ℕ → ℕ → (room user : String) → List PeerInfo → World → World
answer_join cfg c now room user peers w = record {
  hub = greet cfg c now user peers w.hub;
  tasks = put c (running (reading (some (room, user)))) w.tasks;
}

-- The stream ends or fails.
abbrev pub hang_up : ℕ → Me → World → World
hang_up c me w = record w { tasks = put c (running (leaving me)) w.tasks }

abbrev close_channel : ℕ → Hub → Hub
close_channel c hub = record { rooms = hub.rooms; chans = put c closed_channel hub.chans }

-- The cleanup, and `writer.abort()`, which drops the receiver.
abbrev pub finish : ℕ → Me → World → World
finish c me w = record { hub = close_channel c (cleanup me w.hub); tasks = put c ended w.tasks }

-- The writer takes a message, or fails to send it and stops.
abbrev pub write : ℕ → List ServerMsg → World → World
write c rest w = record w {
  hub = record w.hub {
    chans = put c (record { queue = rest; closed = (w.hub.chans c).closed }) w.hub.chans;
  };
}

abbrev pub stop_writer : ℕ → World → World
stop_writer c w = record w { hub = close_channel c w.hub }

pub data Step (cfg : Config) (w : World) : World → Type 0 where
  accepts : (c : ℕ) → w.tasks c ≡ waiting → Step cfg w (accept c w)
  reads :
      (c : ℕ) (me : Me) (inc : Incoming)
      → w.tasks c ≡ running (reading me)
      → Step cfg w (read cfg c me inc w)
  answers :
      (c now : ℕ) (room user : String) (peers : List PeerInfo)
      → w.tasks c ≡ running (greeting room user peers)
      → Step cfg w (answer_join cfg c now room user peers w)
  hangs_up : (c : ℕ) (me : Me) → w.tasks c ≡ running (reading me) → Step cfg w (hang_up c me w)
  finishes : (c : ℕ) (me : Me) → w.tasks c ≡ running (leaving me) → Step cfg w (finish c me w)
  writes :
      (c : ℕ) (msg : ServerMsg) (rest : List ServerMsg)
      → (w.hub.chans c).queue ≡ msg ∷ rest
      → Step cfg w (write c rest w)
  writer_stops : (c : ℕ) → Step cfg w (stop_writer c w)

pub data Reach (cfg : Config) (w : World) : World → Type 0 where
  here : Reach cfg w w
  next : {v u : World} → Reach cfg w v → Step cfg v u → Reach cfg w u

-- `main`: no room, and no connection.
abbrev pub initial : World
initial = record { hub = record { rooms = []; chans = λ _. closed_channel }; tasks = λ _. waiting }

-- Whom a task has joined as.
abbrev pub identity : Next → Me
identity (reading me) = me
identity (greeting room user peers) = some (room, user)
identity (leaving me) = me

abbrev pub identity_of : Task → Me
identity_of waiting = none
identity_of (running n) = identity n
identity_of ended = none
