-- ===== src/Core/Client.antt =====
-- The whole client, `start` in apps/companion-core/src/lib.rs: the event loop together with the mesh
-- that it drives. The mesh sends to the signaling server through a queue that the loop empties, so
-- that it outlives a signaling connection.
pub mod Relay
pub mod Links
pub mod Rotation
use rdoc_sacompanion.Base.{
  ℕ, String, Bool, true, false, ◌&&◌, Option, none, some, List, [], ◌∷◌, ◌++◌, map, if◌then◌else◌,
}
use rdoc_sacompanion.Protocol.{ClientMsg}
use rdoc_sacompanion.Core.Engine.{
  EngineConfig, join_request, Engine, Event, UiEvent, MeshCall, on_peer, on_left, on_offer,
  on_answer, on_ice, add_turn, broadcast_chat, uplink, status, ui, mesh, step, is_ready, entered,
}
use rdoc_sacompanion.Core.Engine as Loop
use rdoc_sacompanion.Core.Mesh.{Webrtc, Mesh, Outcome, finish, opened, closed}
use rdoc_sacompanion.Core.Mesh as Net
use rdoc_sacompanion.Core.Mesh.Callbacks as Callbacks

-- `up` is the queue of `up_rx`.
pub record Client : Type 0 where
  pub engine : Engine
  pub mesh : Mesh
  pub up : List ClientMsg

-- What leaves the client: to the frontend, to the signaling server, to the WebRTC library, and
-- over the chat channel of a peer.
pub data Output : Type 0 where
  shown : UiEvent → Output
  sent : ClientMsg → Output
  webrtc : Net.Effect → Output
  chatted : (peer text : String) → Output

-- The arms of the `select!`: the mesh's queue has a message, or another event is there. Apart from
-- them, a callback of a connection puts a message into that queue.
pub data Wake : Type 0 where
  forward : Wake
  queued : ClientMsg → Wake
  arm : Event → Wake

abbrev pub to_sends : List Net.Effect → List ClientMsg
to_sends [] = []
to_sends (Net.Effect.send msg ∷ es) = msg ∷ to_sends es
to_sends (_ ∷ es) = to_sends es

abbrev to_outputs : List Net.Effect → List Output
to_outputs [] = []
to_outputs (Net.Effect.send msg ∷ es) = to_outputs es
to_outputs (e ∷ es) = webrtc e ∷ to_outputs es

module _ (lib : Webrtc) where
  -- A call of a method of the mesh. The loop does not look at its result.
  unfoldable pub call : MeshCall → Mesh → Outcome
  call (on_peer peer) m = Net.on_peer lib peer m
  call (on_left peer) m = Net.on_left lib peer m
  call (on_offer from sdp) m = Net.on_offer lib from sdp m
  call (on_answer from sdp) m = Net.on_answer lib from sdp m
  call (on_ice from candidate) m = Net.on_ice lib from candidate m
  call MeshCall.rekey m = Net.rekey lib m
  call (add_turn t) m = finish (Net.add_turn t.urls t.username t.credential m) []
  call (broadcast_chat text) m = finish m []

  abbrev chat_lines : String → List String → List Output
  chat_lines text peers = map (λ peer. chatted peer text) peers

  abbrev lines : MeshCall → Mesh → List Output
  lines (broadcast_chat text) m = chat_lines text (Callbacks.broadcast_chat m.peers)
  lines _ m = []

  -- One effect of an arm, on the mesh where it is a call of the mesh.
  unfoldable pub perform : Loop.Effect → Client → Client × List Output
  unfolding call
  perform (ui e) c = (c, shown e ∷ [])
  perform (Loop.Effect.send msg) c = (c, sent msg ∷ [])
  perform (mesh k) c =
      let o = call k c.mesh in
      (
        record c { mesh = o.state; up = c.up ++ to_sends o.done },
        to_outputs o.done ++ lines k c.mesh,
      )

  unfoldable pub perform_all : List Loop.Effect → Client → Client × List Output
  unfolding perform
  perform_all [] c = (c, [])
  perform_all (e ∷ es) c =
      let here = perform e c in let rest = perform_all es here.0 in (rest.0, here.1 ++ rest.1)

  -- The event's arm, run to its end.
  unfoldable pub run_arm : EngineConfig → Event → Client → Client × List Output
  unfolding perform_all
  run_arm cfg ev c =
      let (engine, effects) = step cfg ev c.engine in
      perform_all effects (record c { engine = engine })

  unfoldable pub on_wake : EngineConfig → Wake → Client → Client × List Output
  unfolding run_arm
  on_wake cfg forward c = elim c.up [
    | [] ↦ (c, [])
    | msg ∷ rest ↦ run_arm cfg (uplink msg) (record c { up = rest })
  ]
  on_wake cfg (queued msg) c = (record c { up = c.up ++ msg ∷ [] }, [])
  on_wake cfg (arm ev) c = run_arm cfg ev c

  -- An event of the mesh's queue comes by `forward` alone.
  abbrev pub can_wake : Wake → Client → Bool
  can_wake (arm (uplink msg)) c = false
  can_wake (arm ev) c = c.engine.running && is_ready ev c.engine
  can_wake _ c = c.engine.running

  -- The task that `start` spawns. What cannot happen is passed over.
  unfoldable pub run : EngineConfig → List Wake → Client → Client × List Output
  unfolding on_wake
  run cfg [] c = (c, [])
  run cfg (w ∷ ws) c =
      let here = if can_wake w c then on_wake cfg w c else (c, []) in
      let rest = run cfg ws here.0 in (rest.0, here.1 ++ rest.1)

-- The track that every connection gets; the codec is named in the library.
pub record LocalTrack : Type 0 where
  pub mime_type : String
  pub clock_rate : ℕ
  pub channels : ℕ
  pub id : String
  pub stream_id : String

abbrev pub local : (mime_type_opus : String) → LocalTrack
local mime_type_opus = record {
  mime_type = mime_type_opus;
  clock_rate = 48000;
  channels = 2;
  id = "audio";
  stream_id = "rdoc-squadlink-lite";
}

pub record Sample : Type 0 where
  pub bytes : List ℕ
  pub millis : ℕ

-- The task that writes the encoder's packets to the track.
unfoldable pub write_samples : List (List ℕ) → List Sample
write_samples [] = []
write_samples (b ∷ packets) = record { bytes = b; millis = 20 } ∷ write_samples packets

-- The state in which the task starts.
abbrev pub joined : EngineConfig → Client
joined cfg = record { engine = entered; mesh = Net.new cfg.user_id; up = [] }

-- `start` up to the task, where it gets there: the sound cards and the library's API are there, the
-- server is reached, and takes the join.
unfoldable pub start :
    (devices api connects takes : Bool) → EngineConfig → Option (Client × List Output)
unfolding join_request
start devices api connects takes cfg =
    if devices && api && connects && takes
    then some
        (joined cfg, sent (ClientMsg.join (join_request cfg)) ∷ shown (status true false) ∷ [])
    else none
