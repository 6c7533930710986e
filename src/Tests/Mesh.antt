-- ===== src/Tests/Mesh.antt =====
-- The client with its mesh, apps/companion-core/src/lib.rs and mesh.rs, at small inputs.
use rdoc_sacompanion.Base.{
  ◌+◌, String, ◌≡◌, ◌≢◌, refl, Bool, true, false, none, some, List, [], ◌∷◌, ◌++◌, arith, eq_iff,
}
use rdoc_sacompanion.System.{queued_offers, join-one_offer}
use rdoc_sacompanion.Server.Room.{Room, roster_for}
use rdoc_sacompanion.Dict.{get, contains_key}
use rdoc_sacompanion.Protocol.{TurnCreds, PeerInfo, ServerMsg}
use rdoc_sacompanion.Core.Engine.{EngineConfig, on_offer, server_msg, rekeyed, next_generation}
use rdoc_sacompanion.Core.Mesh.{Webrtc, Mesh, PeerConn, stun, new, rekey}
use rdoc_sacompanion.Core.Mesh.Glare.{Works}
use rdoc_sacompanion.Core.Mesh.Pair.{meet, IsLinked, meet-IsLinked}
use rdoc_sacompanion.Core.Mesh.Rekey.{offers_to, rekey-one_offer}
use rdoc_sacompanion.Core.Client.{
  Client, Output, shown, Wake, forward, arm, call, run_arm, on_wake, run, joined,
}
use rdoc_sacompanion.Core.Client.Relay.{AllOpen, IsIn, server_of, run-direct, run-relayed}
use rdoc_sacompanion.Core.Client.Links.{IsConnected, peers_after, call-peers, run-IsConnected}
use rdoc_sacompanion.Core.Client.Rotation.{run_arm-stalled}

abbrev lib : Webrtc
lib = record {
  opens = λ pc. true;
  adds_track = λ pc. true;
  opens_channel = λ pc. true;
  offers = λ pc. some "o";
  answers = λ pc. some "a";
  accepts_remote = λ pc sdp. true;
  parses_candidate = λ c. true;
}

abbrev refusing : Webrtc
refusing = record lib { adds_track = λ pc. false }

abbrev cfg : Bool → EngineConfig
cfg relay = record {
  server = "wss://h/ws";
  room = "r";
  user_id = "b";
  name = "B";
  token = none;
  cert_sha256 = none;
  input_device = none;
  output_device = none;
  relay_enabled = relay;
}

abbrev creds : TurnCreds
creds = record { urls = "turn:h:3478" ∷ []; username = "u"; credential = "c"; ttl = 600 }

abbrev peer : String → PeerInfo
peer id = record { user_id = id; name = id }

-- A roster of two, a TURN server, another peer and its departure, and a rotation of the keys.
abbrev wakes : List Wake
wakes =
    arm (server_msg (ServerMsg.roster (peer "a" ∷ peer "c" ∷ [])))
    ∷ forward
    ∷ arm (server_msg (ServerMsg.turn creds))
    ∷ arm (server_msg (ServerMsg.peer_joined "d" "d"))
    ∷ arm (server_msg (ServerMsg.rekey "c"))
    ∷ arm (server_msg (ServerMsg.peer_left "c"))
    ∷ []

run-direct_example : AllOpen (λ s. s ≡ stun ∷ []) (run lib (cfg false) wakes (joined (cfg false))).1
run-direct_example = run-direct lib (cfg false) wakes refl

run-relayed_example :
    AllOpen
      (IsIn (server_of creds))
      (run lib
        (cfg true)
        wakes
        (on_wake lib (cfg true) (arm (server_msg (ServerMsg.turn creds))) (joined (cfg true))).0).1
run-relayed_example = run-relayed lib (cfg true) creds wakes (joined (cfg true)) refl

call-peers_example :
    contains_key "a" (call lib (on_offer "a" "o") (new "b")).state.peers
    ≡ peers_after (on_offer "a" "o") "a" (contains_key "a" (new "b").peers)
call-peers_example = call-peers lib (λ pc. refl) (on_offer "a" "o") "a" (new "b")

run-IsConnected_example : IsConnected (run lib (cfg true) wakes (joined (cfg true))).0
run-IsConnected_example = run-IsConnected lib (λ pc. refl) (cfg true) wakes

abbrev all_works : Works lib
all_works = record {
  opens = λ pc. refl;
  adds_track = λ pc. refl;
  opens_channel = λ pc. refl;
  offers = λ pc. refl;
}

abbrev conn : PeerConn
conn = record { pc = 0; pending_ice = []; remote_set = true; chat = true }

abbrev linked : String → String → Mesh
linked me other = record {
  my_id = me;
  ice_servers = stun ∷ [];
  peers = (other, conn) ∷ [];
  next_pc = 1;
}

rekey-one_offer_example :
    offers_to "c" (rekey lib (linked "b" "c")).done
      + offers_to "b" (rekey lib (linked "c" "b")).done
    ≡ 1
rekey-one_offer_example =
    rekey-one_offer lib (linked "b" "c") (linked "c" "b") all_works
      (λ e. absurd (ground (arith, eq_iff "b" "c"))) (unfold get in refl, tt)
      (unfold get in refl, tt) (unfold get in refl) (unfold get in refl)

abbrev busy : Client
busy = record (joined (cfg true)) { mesh = linked "b" "c" }

run_arm-stalled_example :
    (lost : String) × (others : List Output) × ((id : String)
      → lost ≢ id
      → get id (run_arm refusing (cfg true) (server_msg (ServerMsg.rekey "c")) busy).0.mesh.peers
        ≡ get id busy.mesh.peers)
    × ((run_arm refusing (cfg true) (server_msg (ServerMsg.rekey "c")) busy).0.engine.key_gen
        ≡ next_generation busy.engine.key_gen)
    × ((run_arm refusing (cfg true) (server_msg (ServerMsg.rekey "c")) busy).1
        ≡ others ++ shown (rekeyed (next_generation busy.engine.key_gen) "c") ∷ [])
run_arm-stalled_example = run_arm-stalled refusing (cfg true) "c" busy (λ pc. refl)

abbrev alone : Mesh
alone = record { my_id = "c"; ice_servers = stun ∷ []; peers = []; next_pc = 0 }

-- One of the two has a connection from before.
meet-IsLinked_example :
    (a' b' : Mesh) × (meet lib (linked "b" "c") alone ≡ some (a', b'))
    × IsLinked "c" a'
    × IsLinked "b" b'
meet-IsLinked_example =
    meet-IsLinked lib (linked "b" "c") alone
      (record { works = all_works; answers = λ pc. refl; accepts = λ pc sdp. refl }) refl

abbrev with_mesh : Mesh → Client
with_mesh m = record (joined (cfg true)) { mesh = m }

abbrev room : Room
room = ("b", record { name = "B"; tx = 1 }) ∷ []

join-one_offer_example :
    queued_offers "b"
        (run_arm lib
          (cfg true)
          (server_msg (ServerMsg.roster (roster_for "c" room)))
          (with_mesh alone)).0.up
      + queued_offers "c"
          (run_arm lib
            (cfg true)
            (server_msg (ServerMsg.peer_joined "c" "C"))
            (with_mesh (linked "b" "a"))).0.up
    ≡ 1
join-one_offer_example =
    join-one_offer lib (cfg true) (cfg true) (with_mesh alone) (with_mesh (linked "b" "a")) "C" room
      all_works (unfold get in refl, tt) (unfold get in refl)
      (λ e. absurd (ground (arith, eq_iff "c" "b")))
