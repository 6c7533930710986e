-- ===== src/System.antt =====
-- The server and the clients together: what a newcomer to a room and each of its members do, once the
-- server (server/init/src/main.rs) has sent the roster to the one and `PeerJoined` to the other, and the
-- engines (apps/companion-core/src/lib.rs) have read it.
use rdoc_sacompanion.Base.{
  ℕ, ◌+◌, String, ◌==◌, eq_iff, ◌≡◌, ◌≢◌, refl, ◌∙◌, ap, true, List, [], ◌∷◌, ◌++◌, map, arith,
  if◌then◌else◌,
}
use rdoc_sacompanion.Dict.{get, remove, contains_key, get-remove}
use rdoc_sacompanion.Dict.Distinct.{DistinctKeys, remove-DistinctKeys}
use rdoc_sacompanion.Text.{str_lt}
use rdoc_sacompanion.Text.Order.{str_lt_total}
use rdoc_sacompanion.Protocol.{PeerInfo, ClientMsg, ServerMsg}
use rdoc_sacompanion.Server.Room.{Room, peer_info, roster_for}
use rdoc_sacompanion.Core.Engine.{
  EngineConfig, Event, on_peer, mesh, ui, step, on_server_msg, emit_roster, server_msg,
}
use rdoc_sacompanion.Core.Engine as Loop
use rdoc_sacompanion.Core.Mesh.{Webrtc, Mesh, opened, closed, added_candidate, set_remote}
use rdoc_sacompanion.Core.Mesh as Net
use rdoc_sacompanion.Core.Mesh.Glare.{Works}
use rdoc_sacompanion.Core.Mesh.Rekey.{offers_to}
use rdoc_sacompanion.Core.Mesh.Offers.{on_peer-Seen}
use rdoc_sacompanion.Core.Client.{Client, to_sends, call, perform, perform_all, run_arm}

abbrev is_offer_to : String → ClientMsg → ℕ
is_offer_to id (ClientMsg.offer to sdp) = if to == id then 1 else 0
is_offer_to id _ = 0

-- How many offers to this peer wait in the mesh's queue.
abbrev pub queued_offers : String → List ClientMsg → ℕ
queued_offers id [] = 0
queued_offers id (msg ∷ msgs) = is_offer_to id msg + queued_offers id msgs

queued_offers-append :
    (id : String) (xs ys : List ClientMsg)
    → queued_offers id (xs ++ ys) ≡ queued_offers id xs + queued_offers id ys
queued_offers-append id [] ys = omega arith
queued_offers-append id (x ∷ xs) ys = omega (arith, queued_offers-append id xs ys)

queued_offers-to_sends :
    (id : String) (es : List Net.Effect) → queued_offers id (to_sends es) ≡ offers_to id es
queued_offers-to_sends id [] = refl
queued_offers-to_sends id (Net.Effect.send (ClientMsg.offer to sdp) ∷ es) =
    omega (arith, queued_offers-to_sends id es)
queued_offers-to_sends id (Net.Effect.send _ ∷ es) = omega (arith, queued_offers-to_sends id es)
queued_offers-to_sends id (_ ∷ es) = omega (arith, queued_offers-to_sends id es)

abbrev times_listed : String → List PeerInfo → ℕ
times_listed id [] = 0
times_listed id (p ∷ ps) = (if p.user_id == id then 1 else 0) + times_listed id ps

-- How often this client offers to `id`, as far as its own id lets it.
abbrev due : String → String → ℕ → ℕ
due me id n = if str_lt me id then n else 0

module _ (lib : Webrtc) (works : Works lib) where
  perform-on_peer :
      (peer id : String) (c : Client)
      → (queued_offers id (perform lib (mesh (on_peer peer)) c).0.up
          ≡ queued_offers id c.up + due c.mesh.my_id id (if peer == id then 1 else 0))
        × ((perform lib (mesh (on_peer peer)) c).0.mesh.my_id ≡ c.mesh.my_id)
  unfolding perform call
  perform-on_peer peer id c =
      let o = Net.on_peer lib peer c.mesh in
      let seen = on_peer-Seen lib works peer c.mesh in
      (
        queued_offers-append id c.up (to_sends o.done)
            ∙ ground (arith, queued_offers-to_sends id o.done, seen.offers id, eq_iff peer id),
        seen.same_id,
      )

  perform_all-roster :
      (peers : List PeerInfo) (last : Loop.UiEvent) (id : String) (c : Client)
      → queued_offers id
          (perform_all lib (map (λ p. mesh (on_peer p.user_id)) peers ++ ui last ∷ []) c).0.up
        ≡ queued_offers id c.up + due c.mesh.my_id id (times_listed id peers)
  unfolding perform_all
  perform_all-roster [] last id c = ground arith
  perform_all-roster (p ∷ peers) last id c =
      let (adds, same) = perform-on_peer p.user_id id c in
      let next = (perform lib (mesh (on_peer p.user_id)) c).0 in
      perform_all-roster peers last id next
      ∙ ap (λ me. queued_offers id next.up + due me id (times_listed id peers)) same
      ∙ ground (arith, adds)

  -- The newcomer reads the roster, a member reads `PeerJoined`.
  abbrev reads : EngineConfig → ServerMsg → Client → Client
  reads cfg msg c = (run_arm lib cfg (server_msg msg) c).0

  reads_roster :
      (cfg : EngineConfig) (peers : List PeerInfo) (id : String) (c : Client)
      → queued_offers id (reads cfg (ServerMsg.roster peers) c).up
        ≡ queued_offers id c.up + due c.mesh.my_id id (times_listed id peers)
  unfolding run_arm step on_server_msg emit_roster
  reads_roster cfg peers id c = perform_all-roster peers _ id _

  reads_peer_joined :
      (cfg : EngineConfig) (user name id : String) (c : Client)
      → queued_offers id (reads cfg (ServerMsg.peer_joined user name) c).up
        ≡ queued_offers id c.up + due c.mesh.my_id id (if user == id then 1 else 0)
  unfolding run_arm step on_server_msg emit_roster perform_all perform
  reads_peer_joined cfg user name id c =
      (perform-on_peer user id (record c {
        engine = (step cfg (server_msg (ServerMsg.peer_joined user name)) c.engine).0;
      })).0

times_listed-peer_info :
    (id : String) (r : Room)
    → DistinctKeys r
    → times_listed id (map peer_info r) ≡ (if contains_key id r then 1 else 0)
unfolding get
times_listed-peer_info id [] d = refl
times_listed-peer_info id ((k, h) ∷ r) d =
    ground (arith, eq_iff k id, times_listed-peer_info id r d.1, d.0)

-- The roster that the server makes for a newcomer lists every other member exactly once.
roster_for-once :
    (user id : String) (r : Room)
    → DistinctKeys r
    → contains_key id r ≡ true
    → user ≢ id
    → times_listed id (roster_for user r) ≡ 1
roster_for-once user id r d there differs =
    times_listed-peer_info id (remove user r) (remove-DistinctKeys user r d)
    ∙ ground (arith, get-remove user id r, eq_iff user id)

-- A newcomer is let into a room, and the server sends it the roster and `PeerJoined` to a member.
-- Where the library's calls succeed, and both clients have read their message, whatever their state
-- was: exactly one of the two has queued one more offer to the other.
pub join-one_offer :
    (lib : Webrtc) (cfg_a cfg_b : EngineConfig) (a b : Client) (name : String) (r : Room)
    → Works lib
    → DistinctKeys r
    → contains_key b.mesh.my_id r ≡ true
    → a.mesh.my_id ≢ b.mesh.my_id
    → queued_offers b.mesh.my_id
          (run_arm lib cfg_a (server_msg (ServerMsg.roster (roster_for a.mesh.my_id r))) a).0.up
        + queued_offers a.mesh.my_id
            (run_arm lib cfg_b (server_msg (ServerMsg.peer_joined a.mesh.my_id name)) b).0.up
      ≡ queued_offers b.mesh.my_id a.up + queued_offers a.mesh.my_id b.up + 1
join-one_offer lib cfg_a cfg_b a b name r works distinct there differ = ground (
  arith,
  reads_roster lib works cfg_a (roster_for a.mesh.my_id r) b.mesh.my_id a,
  reads_peer_joined lib works cfg_b a.mesh.my_id name a.mesh.my_id b,
  roster_for-once a.mesh.my_id b.mesh.my_id r distinct there differ,
  eq_iff a.mesh.my_id a.mesh.my_id,
  str_lt_total a.mesh.my_id b.mesh.my_id differ,
)
