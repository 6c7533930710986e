-- ===== src/Core/Client/Links.antt =====
-- To which peers the client of apps/companion-core/src/lib.rs has a connection, over all that can
-- happen to it.
use rdoc_sacompanion.Base.{
  ℕ, String, ◌==◌, ◌≡◌, refl, sym, ◌∙◌, ap, Bool, true, false, not, ◌&&◌, ◌||◌, some, List, [], ◌∷◌,
  ◌++◌, arith, map, if◌then◌else◌, List-cases, inl, inr,
}
use rdoc_sacompanion.Dict.{
  Dict, get, get-empty, insert, contains_key, get-insert, get-remove, get-update,
}
use rdoc_sacompanion.Protocol.{PeerInfo, ClientMsg, ServerMsg}
use rdoc_sacompanion.Core.Engine.{
  EngineConfig, Engine, Event, MeshCall, Member, on_peer, on_left, on_offer, on_answer, on_ice,
  add_turn, broadcast_chat, uplink, ui, mesh, step, Cmd, on_server_msg, emit_roster, send_up,
  on_cmd, transmit_now, on_retry_ok, on_retry_failed, on_server_gone, on_mesh_event, server_msg,
  command, mesh_event, collect_members, new_member, MeshEvent,
}
use rdoc_sacompanion.Core.Engine as Loop
use rdoc_sacompanion.Core.Mesh.{Webrtc, makes_conn, Mesh}
use rdoc_sacompanion.Core.Mesh as Net
use rdoc_sacompanion.Core.Mesh.Keys.{
  has, on_peer-has, on_left-has, on_offer-has, on_answer-SameKeys, on_ice-SameKeys, rekey-SameKeys,
}
use rdoc_sacompanion.Core.Client.{
  Client, Wake, forward, queued, arm, call, perform, perform_all, run_arm, on_wake, can_wake, run,
  joined,
}

-- The set of the connected peers, after a call: what the mesh promises to the loop.
abbrev pub peers_after : MeshCall → (id : String) (connected : Bool) → Bool
peers_after (on_peer peer) id connected = peer == id || connected
peers_after (on_left peer) id connected = not (peer == id) && connected
peers_after (on_offer from sdp) id connected = from == id || connected
peers_after (on_answer from sdp) id connected = connected
peers_after (on_ice from candidate) id connected = connected
peers_after MeshCall.rekey id connected = connected
peers_after (add_turn t) id connected = connected
peers_after (broadcast_chat text) id connected = connected

abbrev after : Loop.Effect → String → Bool → Bool
after (mesh k) id b = peers_after k id b
after (ui e) id b = b
after (Loop.Effect.send msg) id b = b

abbrev after_all : List Loop.Effect → String → Bool → Bool
after_all [] id b = b
after_all (e ∷ es) id b = after_all es id (after e id b)

add_turn-peers :
    (urls : List String) (username credential : String) (m : Mesh)
    → (Net.add_turn urls username credential m).peers ≡ m.peers
unfolding Net.add_turn
add_turn-peers urls username credential m = refl

module _ (lib : Webrtc) (opens : (pc : ℕ) → makes_conn lib pc ≡ true) where
  -- Where the library opens connections and adds the track to them, whatever else of it fails, a call
  -- of the mesh changes the set of the peers that it has a connection to as follows: a peer that is
  -- seen, or that sends an offer, comes in; a peer that has left goes; an answer, a candidate, the
  -- rotation of the keys, a TURN server and a line of chat change nothing.
  pub call-peers :
      (k : MeshCall) (id : String) (m : Mesh)
      → contains_key id (call lib k m).state.peers ≡ peers_after k id (contains_key id m.peers)
  unfolding call
  call-peers (on_peer peer) id m = on_peer-has lib opens peer id m
  call-peers (on_left peer) id m = on_left-has lib peer id m
  call-peers (on_offer from sdp) id m = on_offer-has lib opens from sdp id m
  call-peers (on_answer from sdp) id m = on_answer-SameKeys lib from sdp m id
  call-peers (on_ice from candidate) id m = on_ice-SameKeys lib from candidate m id
  call-peers MeshCall.rekey id m = rekey-SameKeys lib opens m id
  call-peers (add_turn t) id m =
      ap (contains_key id) (add_turn-peers t.urls t.username t.credential m)
  call-peers (broadcast_chat text) id m = refl

  perform-has :
      (e : Loop.Effect) (id : String) (c : Client)
      → has id (perform lib e c).0.mesh ≡ after e id (has id c.mesh)
  unfolding perform
  perform-has (mesh k) id c = call-peers k id c.mesh
  perform-has (ui e) id c = refl
  perform-has (Loop.Effect.send msg) id c = refl

  perform_all-has :
      (es : List Loop.Effect) (id : String) (c : Client)
      → has id (perform_all lib es c).0.mesh ≡ after_all es id (has id c.mesh)
  unfolding perform_all
  perform_all-has [] id c = refl
  perform_all-has (e ∷ es) id c =
      perform_all-has es id (perform lib e c).0 ∙ ap (after_all es id) (perform-has e id c)

  perform_all-engine :
      (es : List Loop.Effect) (c : Client) → (perform_all lib es c).0.engine ≡ c.engine
  unfolding perform_all perform
  perform_all-engine [] c = refl
  perform_all-engine (mesh k ∷ es) c = perform_all-engine es (perform lib (mesh k) c).0
  perform_all-engine (ui e ∷ es) c = perform_all-engine es c
  perform_all-engine (Loop.Effect.send msg ∷ es) c = perform_all-engine es c

after_all-append :
    (es fs : List Loop.Effect) (id : String) (b : Bool)
    → after_all (es ++ fs) id b ≡ after_all fs id (after_all es id b)
after_all-append [] fs id b = refl
after_all-append (e ∷ es) fs id b = after_all-append es fs id (after e id b)

abbrev is_listed : String → List PeerInfo → Bool
is_listed id [] = false
is_listed id (p ∷ ps) = is_listed id ps || p.user_id == id

on_peers-after :
    (ps : List PeerInfo) (id : String) (b : Bool)
    → after_all (map (λ p. mesh (on_peer p.user_id)) ps) id b ≡ (is_listed id ps || b)
on_peers-after [] id b = refl
on_peers-after (p ∷ ps) id b = on_peers-after ps id (p.user_id == id || b) ∙ ground arith

collect_members-has :
    (ps : List PeerInfo) (id : String) (m : Dict Member)
    → contains_key id (collect_members ps m) ≡ (is_listed id ps || contains_key id m)
unfolding collect_members
collect_members-has [] id m = refl
collect_members-has (p ∷ ps) id m =
    collect_members-has ps id (insert p.user_id (new_member p.name) m)
    ∙ ground (arith, get-insert p.user_id id (new_member p.name) m)

-- After the arm every member is connected, if every member was before it.
abbrev Covers : EngineConfig → Event → Engine → String → Bool → Type 0
Covers cfg ev s id b =
    contains_key id (step cfg ev s).0.members ≡ true → after_all (step cfg ev s).1 id b ≡ true

send_up-after :
    (s : Engine) (msg : ClientMsg) (id : String) (b : Bool) → after_all (send_up s msg) id b ≡ b
send_up-after s msg id b = ground arith

on_server_msg-Covers :
    (cfg : EngineConfig) (msg : ServerMsg) (s : Engine) (id : String) (b : Bool)
    → (contains_key id s.members ≡ true → b ≡ true)
    → contains_key id (on_server_msg cfg msg s).0.members ≡ true
    → after_all (on_server_msg cfg msg s).1 id b ≡ true
unfolding on_server_msg emit_roster
on_server_msg-Covers cfg (ServerMsg.roster peers) s id b before is_member =
    after_all-append (map (λ p. mesh (on_peer p.user_id)) peers) _ id b
    ∙ on_peers-after peers id b
    ∙ ground (arith, collect_members-has peers id [], get-empty {V = Member} id)
on_server_msg-Covers cfg (ServerMsg.peer_joined user_id name) s id b before is_member =
    ground (arith, get-insert user_id id (new_member name) s.members)
on_server_msg-Covers cfg (ServerMsg.peer_left user_id) s id b before is_member =
    ground (arith, get-remove user_id id s.members)
on_server_msg-Covers cfg (ServerMsg.ptt user_id active) s id b before is_member =
    ground (arith, get-update user_id id (λ (m : Member). record m { speaking = active }) s.members)
on_server_msg-Covers cfg (ServerMsg.offer from sdp) s id b before is_member = ground arith
on_server_msg-Covers cfg (ServerMsg.turn t) s id b before is_member = ground arith
on_server_msg-Covers cfg _ s id b before is_member = before is_member

on_cmd-Covers :
    (cfg : EngineConfig) (now : ℕ) (cmd : Cmd) (s : Engine) (id : String) (b : Bool)
    → (contains_key id s.members ≡ true → b ≡ true)
    → contains_key id (on_cmd cfg now cmd s).0.members ≡ true
    → after_all (on_cmd cfg now cmd s).1 id b ≡ true
unfolding on_cmd transmit_now emit_roster
on_cmd-Covers cfg now cmd s id b before is_member = ground arith

step-Covers :
    (cfg : EngineConfig) (ev : Event) (s : Engine) (id : String) (b : Bool)
    → (contains_key id s.members ≡ true → b ≡ true)
    → Covers cfg ev s id b
unfolding step on_retry_ok on_retry_failed on_server_gone on_mesh_event emit_roster
step-Covers cfg (uplink msg) s id b before is_member = send_up-after s msg id b ∙ before is_member
step-Covers cfg (server_msg msg) s id b before is_member =
    on_server_msg-Covers cfg msg s id b before is_member
step-Covers cfg (command now cmd) s id b before is_member =
    on_cmd-Covers cfg now cmd s id b before is_member
step-Covers cfg (mesh_event (MeshEvent.badge peer kind)) s id b before is_member =
    ground (arith, get-update peer id (λ (m : Member). record m { badge = some kind }) s.members)
step-Covers cfg _ s id b before is_member = before is_member

-- Every member of the roster has a connection.
abbrev pub IsConnected : Client → Type 0
IsConnected c = (id : String) → contains_key id c.engine.members ≡ true → has id c.mesh ≡ true

module _ (lib : Webrtc) (opens : (pc : ℕ) → makes_conn lib pc ≡ true) where
  run_arm-IsConnected :
      (cfg : EngineConfig) (ev : Event) (c : Client)
      → IsConnected c
      → IsConnected (run_arm lib cfg ev c).0
  unfolding run_arm
  run_arm-IsConnected cfg ev c before id is_member =
      let effects = (step cfg ev c.engine).1 in
      let entered = record c { engine = (step cfg ev c.engine).0 } in
      let same_engine = perform_all-engine lib opens effects entered in
      perform_all-has lib opens effects id entered
      ∙ step-Covers cfg ev c.engine id (has id c.mesh) (before id)
          (ap (λ e. contains_key id (Engine.members e)) (sym same_engine) ∙ is_member)

  on_wake-IsConnected :
      (cfg : EngineConfig) (w : Wake) (c : Client)
      → IsConnected c
      → IsConnected (on_wake lib cfg w c).0
  unfolding on_wake
  on_wake-IsConnected cfg forward c before = elim (List-cases c.up) [
    | inl empty ↦ rw (empty, on_wake) before
    | inr (msg, rest, more) ↦
        rw (more, on_wake) (run_arm-IsConnected cfg (uplink msg) (record c { up = rest }) before)
  ]
  on_wake-IsConnected cfg (queued msg) c before = before
  on_wake-IsConnected cfg (arm ev) c before = run_arm-IsConnected cfg ev c before

  abbrev taken : EngineConfig → Wake → Client → Client
  taken cfg w c = (if can_wake lib w c then on_wake lib cfg w c else (c, [])).0

  taken-IsConnected :
      (cfg : EngineConfig) (w : Wake) (c : Client) → IsConnected c → IsConnected (taken cfg w c)
  taken-IsConnected cfg w c before =
      elim (can_wake lib w c) as (λ b. IsConnected (if b then on_wake lib cfg w c else (c, [])).0) [
        | true ↦ on_wake-IsConnected cfg w c before
        | false ↦ before
      ]

  run_from-IsConnected :
      (cfg : EngineConfig) (ws : List Wake) (c : Client)
      → IsConnected c
      → IsConnected (run lib cfg ws c).0
  unfolding run
  run_from-IsConnected cfg [] c before = before
  run_from-IsConnected cfg (w ∷ ws) c before =
      run_from-IsConnected cfg ws (taken cfg w c) (taken-IsConnected cfg w c before)

  -- Where the library opens connections and adds the track to them, whatever else of it fails: at any
  -- time every member of the client's roster has a connection in its mesh, over joins, leaves, offers,
  -- rotations of the keys and reconnects of the signaling in any order.
  pub run-IsConnected :
      (cfg : EngineConfig) (ws : List Wake) → IsConnected (run lib cfg ws (joined cfg)).0
  unfolding get
  run-IsConnected cfg ws = run_from-IsConnected cfg ws (joined cfg) (λ id is_member. ground arith)
