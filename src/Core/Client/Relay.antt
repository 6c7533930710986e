-- ===== src/Core/Client/Relay.antt =====
-- Which servers the connections of the client of apps/companion-core/src/lib.rs are opened with, over
-- all that can happen to it.
use rdoc_sacompanion.Base.{
  ℕ, String, ◌≡◌, refl, sym, subst, true, false, List, [], ◌∷◌, ◌++◌, arith, map, if◌then◌else◌,
  Bool-cases, List-cases, inl, inr, ◌⊎◌,
}
use rdoc_sacompanion.Protocol.{TurnCreds, PeerInfo, ClientMsg, ServerMsg}
use rdoc_sacompanion.Core.Engine.{
  EngineConfig, Engine, Event, MeshCall, on_peer, on_left, on_offer, on_answer, on_ice, add_turn,
  broadcast_chat, uplink, ui, mesh, step, Cmd, MeshEvent, on_server_msg, emit_roster, send_up,
  on_cmd, transmit_now, on_retry_ok, on_retry_failed, on_server_gone, on_mesh_event, server_msg,
  command,
}
use rdoc_sacompanion.Core.Engine as Loop
use rdoc_sacompanion.Core.Mesh.{
  Webrtc, Mesh, IceServer, stun, opened, closed, added_candidate, set_remote,
}
use rdoc_sacompanion.Core.Mesh as Net
use rdoc_sacompanion.Core.Mesh.Servers.{
  OpensWith, Keeps, on_peer-Keeps, on_left-Keeps, on_offer-Keeps, on_answer-Keeps, on_ice-Keeps,
  rekey-Keeps, add_turn-ice_servers,
}
use rdoc_sacompanion.Core.Client.{
  Client, Output, webrtc, Wake, forward, queued, arm, to_outputs, call, perform, perform_all,
  run_arm, on_wake, can_wake, run, joined, chat_lines, lines,
}

-- A connection that is opened with servers that satisfy `P`, or another output.
abbrev Opens : (List IceServer → Type 0) → Output → Type 0
Opens P (webrtc (opened pc servers)) = P servers
Opens P _ = Unit

abbrev pub AllOpen : (List IceServer → Type 0) → List Output → Type 0
AllOpen P [] = Unit
AllOpen P (o ∷ os) = Opens P o × AllOpen P os

abbrev pub server_of : TurnCreds → IceServer
server_of t = record { urls = t.urls; username = t.username; credential = t.credential }

-- `P` stays true where the effect is a new server.
abbrev Grows : (List IceServer → Type 0) → Loop.Effect → Type 0
Grows P (mesh (add_turn t)) = (s : List IceServer) → P s → P (s ++ server_of t ∷ [])
Grows P _ = Unit

abbrev AllGrow : (List IceServer → Type 0) → List Loop.Effect → Type 0
AllGrow P [] = Unit
AllGrow P (e ∷ es) = Grows P e × AllGrow P es

record Open (P : List IceServer → Type 0) (r : Client × List Output) : Type 0 where
  servers : P r.0.mesh.ice_servers
  opens : AllOpen P r.1

module _ (P : List IceServer → Type 0) where
  AllOpen-append : (os bs : List Output) → AllOpen P os → AllOpen P bs → AllOpen P (os ++ bs)
  AllOpen-append [] bs a b = b
  AllOpen-append (o ∷ os) bs a b = (a.0, AllOpen-append os bs a.1 b)

  AllOpen-chat_lines :
      (lib : Webrtc) (text : String) (peers : List String) → AllOpen P (chat_lines lib text peers)
  AllOpen-chat_lines lib text [] = tt
  AllOpen-chat_lines lib text (peer ∷ peers) = (tt, AllOpen-chat_lines lib text peers)

  AllOpen-lines : (lib : Webrtc) (k : MeshCall) (m : Mesh) → AllOpen P (lines lib k m)
  AllOpen-lines lib (broadcast_chat text) m = AllOpen-chat_lines lib text _
  AllOpen-lines lib _ m = tt

  AllOpen-to_outputs :
      (s : List IceServer) (es : List Net.Effect) → P s → OpensWith s es → AllOpen P (to_outputs es)
  AllOpen-to_outputs s [] h w = tt
  AllOpen-to_outputs s (opened pc servers ∷ es) h w =
      (subst P (sym w.0) h, AllOpen-to_outputs s es h w.1)
  AllOpen-to_outputs s (closed pc ∷ es) h w = (tt, AllOpen-to_outputs s es h w)
  AllOpen-to_outputs s (added_candidate pc c ∷ es) h w = (tt, AllOpen-to_outputs s es h w)
  AllOpen-to_outputs s (set_remote pc sdp ∷ es) h w = (tt, AllOpen-to_outputs s es h w)
  AllOpen-to_outputs s (Net.Effect.send msg ∷ es) h w = AllOpen-to_outputs s es h w

  call-Open :
      (lib : Webrtc) (k : MeshCall) (c : Client)
      → P c.mesh.ice_servers
      → Keeps c.mesh (call lib k c.mesh)
      → Open P (perform lib (mesh k) c)
  unfolding perform
  call-Open lib k c h keeps = record {
    servers = subst P (sym keeps.servers) h;
    opens =
        AllOpen-append (to_outputs (call lib k c.mesh).done) (lines lib k c.mesh)
          (AllOpen-to_outputs c.mesh.ice_servers (call lib k c.mesh).done h keeps.opens)
          (AllOpen-lines lib k c.mesh);
  }

  perform-Open :
      (lib : Webrtc) (e : Loop.Effect) (c : Client)
      → P c.mesh.ice_servers
      → Grows P e
      → Open P (perform lib e c)
  unfolding perform call
  perform-Open lib (ui e) c h grows = record { servers = h; opens = (tt, tt) }
  perform-Open lib (Loop.Effect.send msg) c h grows = record { servers = h; opens = (tt, tt) }
  perform-Open lib (mesh (on_peer peer)) c h grows =
      call-Open lib (on_peer peer) c h (on_peer-Keeps lib peer c.mesh)
  perform-Open lib (mesh (on_left peer)) c h grows =
      call-Open lib (on_left peer) c h (on_left-Keeps lib peer c.mesh)
  perform-Open lib (mesh (on_offer from sdp)) c h grows =
      call-Open lib (on_offer from sdp) c h (on_offer-Keeps lib from sdp c.mesh)
  perform-Open lib (mesh (on_answer from sdp)) c h grows =
      call-Open lib (on_answer from sdp) c h (on_answer-Keeps lib from sdp c.mesh)
  perform-Open lib (mesh (on_ice from cand)) c h grows =
      call-Open lib (on_ice from cand) c h (on_ice-Keeps lib from cand c.mesh)
  perform-Open lib (mesh MeshCall.rekey) c h grows =
      call-Open lib MeshCall.rekey c h (rekey-Keeps lib c.mesh)
  perform-Open lib (mesh (add_turn t)) c h grows = record {
    servers =
        subst P (sym (add_turn-ice_servers t.urls t.username t.credential c.mesh))
          (grows c.mesh.ice_servers h);
    opens = tt;
  }
  perform-Open lib (mesh (broadcast_chat text)) c h grows =
      call-Open lib (broadcast_chat text) c h (record { servers = refl; opens = tt })

  perform_all-Open :
      (lib : Webrtc) (es : List Loop.Effect) (c : Client)
      → P c.mesh.ice_servers
      → AllGrow P es
      → Open P (perform_all lib es c)
  unfolding perform_all
  perform_all-Open lib [] c h grow = record { servers = h; opens = tt }
  perform_all-Open lib (e ∷ es) c h grow =
      let here = perform-Open lib e c h grow.0 in
      let rest = perform_all-Open lib es (perform lib e c).0 here.servers grow.1 in
      record {
        servers = rest.servers;
        opens =
            AllOpen-append (perform lib e c).1 (perform_all lib es (perform lib e c).0).1 here.opens
              rest.opens;
      }

  AllGrow-append : (es fs : List Loop.Effect) → AllGrow P es → AllGrow P fs → AllGrow P (es ++ fs)
  AllGrow-append [] fs a b = b
  AllGrow-append (e ∷ es) fs a b = (a.0, AllGrow-append es fs a.1 b)

  AllGrow-on_peers : (peers : List PeerInfo) → AllGrow P (map (λ p. mesh (on_peer p.user_id)) peers)
  AllGrow-on_peers [] = tt
  AllGrow-on_peers (p ∷ peers) = (tt, AllGrow-on_peers peers)

  -- The relay is switched off, or `P` stays true whatever server comes.
  abbrev Allowed : EngineConfig → Type 0
  Allowed cfg =
      (cfg.relay_enabled ≡ false)
      ⊎ ((t : TurnCreds) (s : List IceServer) → P s → P (s ++ server_of t ∷ []))

  on_server_msg-AllGrow :
      (cfg : EngineConfig) (msg : ServerMsg) (s : Engine)
      → Allowed cfg
      → AllGrow P (on_server_msg cfg msg s).1
  unfolding on_server_msg emit_roster
  on_server_msg-AllGrow cfg (ServerMsg.roster peers) s allowed =
      AllGrow-append _ _ (AllGrow-on_peers peers) (tt, tt)
  on_server_msg-AllGrow cfg (ServerMsg.turn t) s (inl off) = (rw off tt, tt)
  on_server_msg-AllGrow cfg (ServerMsg.turn t) s (inr on) = elim (Bool-cases cfg.relay_enabled) [
    | inl enabled ↦ (rw enabled (on t), tt)
    | inr disabled ↦ (rw disabled tt, tt)
  ]
  on_server_msg-AllGrow cfg (ServerMsg.peer_joined user_id name) s allowed = (tt, (tt, tt))
  on_server_msg-AllGrow cfg (ServerMsg.peer_left user_id) s allowed = (tt, (tt, tt))
  on_server_msg-AllGrow cfg (ServerMsg.ptt user_id active) s allowed = (tt, tt)
  on_server_msg-AllGrow cfg (ServerMsg.rekey by) s allowed = (tt, (tt, tt))
  on_server_msg-AllGrow cfg _ s allowed = (tt, tt)

  send_up-AllGrow : (s : Engine) (msg : ClientMsg) → AllGrow P (send_up s msg)
  send_up-AllGrow s msg = ground arith

  on_cmd-AllGrow :
      (cfg : EngineConfig) (now : ℕ) (cmd : Cmd) (s : Engine) → AllGrow P (on_cmd cfg now cmd s).1
  unfolding on_cmd transmit_now emit_roster
  on_cmd-AllGrow cfg now cmd s = ground arith

  step-AllGrow :
      (cfg : EngineConfig) (ev : Event) (s : Engine) → Allowed cfg → AllGrow P (step cfg ev s).1
  unfolding step on_retry_ok on_retry_failed on_server_gone on_mesh_event
  step-AllGrow cfg (uplink msg) s allowed = send_up-AllGrow s msg
  step-AllGrow cfg (server_msg msg) s allowed = on_server_msg-AllGrow cfg msg s allowed
  step-AllGrow cfg (command now cmd) s allowed = on_cmd-AllGrow cfg now cmd s
  step-AllGrow cfg _ s allowed = ground arith

  run_arm-Open :
      (lib : Webrtc) (cfg : EngineConfig) (ev : Event) (c : Client)
      → Allowed cfg
      → P c.mesh.ice_servers
      → Open P (run_arm lib cfg ev c)
  unfolding run_arm
  run_arm-Open lib cfg ev c allowed h =
      perform_all-Open lib (step cfg ev c.engine).1 (record c { engine = (step cfg ev c.engine).0 })
        h (step-AllGrow cfg ev c.engine allowed)

  on_wake-Open :
      (lib : Webrtc) (cfg : EngineConfig) (w : Wake) (c : Client)
      → Allowed cfg
      → P c.mesh.ice_servers
      → Open P (on_wake lib cfg w c)
  unfolding on_wake
  on_wake-Open lib cfg forward c allowed h = elim (List-cases c.up) [
    | inl empty ↦ rw (empty, on_wake) (record { servers = h; opens = tt })
    | inr (msg, rest, more) ↦
        rw (more, on_wake) (run_arm-Open lib cfg (uplink msg) (record c { up = rest }) allowed h)
  ]
  on_wake-Open lib cfg (queued msg) c allowed h = record { servers = h; opens = tt }
  on_wake-Open lib cfg (arm ev) c allowed h = run_arm-Open lib cfg ev c allowed h

  abbrev taken : (lib : Webrtc) → EngineConfig → Wake → Client → Client × List Output
  taken lib cfg w c = if can_wake lib w c then on_wake lib cfg w c else (c, [])

  taken-Open :
      (lib : Webrtc) (cfg : EngineConfig) (w : Wake) (c : Client)
      → Allowed cfg
      → P c.mesh.ice_servers
      → Open P (taken lib cfg w c)
  taken-Open lib cfg w c allowed h = elim (Bool-cases (can_wake lib w c)) [
    | inl can ↦ rw can (on_wake-Open lib cfg w c allowed h)
    | inr cannot ↦ rw cannot (record { servers = h; opens = tt })
  ]

  run-Open :
      (lib : Webrtc) (cfg : EngineConfig) (ws : List Wake) (c : Client)
      → Allowed cfg
      → P c.mesh.ice_servers
      → Open P (run lib cfg ws c)
  unfolding run
  run-Open lib cfg [] c allowed h = record { servers = h; opens = tt }
  run-Open lib cfg (w ∷ ws) c allowed h =
      let here = taken-Open lib cfg w c allowed h in
      let rest = run-Open lib cfg ws (taken lib cfg w c).0 allowed here.servers in
      record {
        servers = rest.servers;
        opens =
            AllOpen-append (taken lib cfg w c).1 (run lib cfg ws (taken lib cfg w c).0).1 here.opens
              rest.opens;
      }

-- A client with the relay switched off opens every connection with the STUN server and no other,
-- whatever servers it is offered and whatever else happens to it.
pub run-direct :
    (lib : Webrtc) (cfg : EngineConfig) (ws : List Wake)
    → cfg.relay_enabled ≡ false
    → AllOpen (λ s. s ≡ stun ∷ []) (run lib cfg ws (joined cfg)).1
unfolding Net.new
run-direct lib cfg ws off =
    (run-Open (λ s. s ≡ stun ∷ []) lib cfg ws (joined cfg) (inl off) refl).opens

abbrev pub IsIn : IceServer → List IceServer → Type 0
IsIn x [] = ⊥
IsIn x (y ∷ s) = (y ≡ x) ⊎ IsIn x s

IsIn-append : (x : IceServer) (s t : List IceServer) → IsIn x s → IsIn x (s ++ t)
IsIn-append x [] t h = elim h [ ]
IsIn-append x (y ∷ s) t (inl e) = inl e
IsIn-append x (y ∷ s) t (inr h) = inr (IsIn-append x s t h)

IsIn-last : (x : IceServer) (s : List IceServer) → IsIn x (s ++ x ∷ [])
IsIn-last x [] = inl refl
IsIn-last x (y ∷ s) = inr (IsIn-last x s)

turn-ice_servers :
    (lib : Webrtc) (cfg : EngineConfig) (t : TurnCreds) (c : Client)
    → cfg.relay_enabled ≡ true
    → (on_wake lib cfg (arm (server_msg (ServerMsg.turn t))) c).0.mesh.ice_servers
      ≡ c.mesh.ice_servers ++ server_of t ∷ []
unfolding on_wake run_arm step on_server_msg perform_all perform call
turn-ice_servers lib cfg t c on =
    rw (on, perform_all) (add_turn-ice_servers t.urls t.username t.credential c.mesh)

-- A client with the relay switched on that is offered a TURN server opens every connection from
-- then on with that server among the others, whatever else happens to it.
pub run-relayed :
    (lib : Webrtc) (cfg : EngineConfig) (t : TurnCreds) (ws : List Wake) (c : Client)
    → cfg.relay_enabled ≡ true
    → AllOpen
        (IsIn (server_of t))
        (run lib cfg ws (on_wake lib cfg (arm (server_msg (ServerMsg.turn t))) c).0).1
run-relayed lib cfg t ws c on =
    (run-Open (IsIn (server_of t)) lib cfg ws
      (on_wake lib cfg (arm (server_msg (ServerMsg.turn t))) c).0
      (inr (λ u s. IsIn-append (server_of t) s (server_of u ∷ [])))
      (rw (turn-ice_servers lib cfg t c on) (IsIn-last (server_of t) c.mesh.ice_servers))).opens
