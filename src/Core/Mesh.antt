-- ===== src/Core/Mesh.antt =====
-- apps/companion-core/src/mesh.rs: one peer connection for each remote peer. The WebRTC library is
-- a parameter: whether its calls succeed, and the texts that it makes. A connection object is a
-- number, its callbacks are left out; what the mesh does with the library and with the signaling
-- server is a list of effects, in order.
pub mod Ice
pub mod Glare
pub mod Rekey
pub mod Servers
pub mod Keys
pub mod Stalled
pub mod Pair
pub mod Offers
pub mod Callbacks
use rdoc_sacompanion.Base.{
  ℕ, suc, ◌+◌, String, ◌==◌, ◌&&◌, Bool, true, false, Option, none, some, List, [], ◌∷◌, ◌++◌, map,
  if◌then◌else◌,
}
use rdoc_sacompanion.Dict.{Dict, get, insert, remove, update, contains_key}
use rdoc_sacompanion.Text.{str_lt}
use rdoc_sacompanion.Protocol.{ClientMsg}

-- The library's answers, for the connection with this number: `none` and `false` are errors. What is
-- asked twice of one connection is answered alike.
pub record Webrtc : Type 0 where
  pub opens : ℕ → Bool
  pub adds_track : ℕ → Bool
  pub opens_channel : ℕ → Bool
  pub offers : ℕ → Option String
  pub answers : ℕ → Option String
  pub accepts_remote : ℕ → (sdp : String) → Bool
  pub parses_candidate : String → Bool

-- The two calls with which a connection is made.
abbrev pub makes_conn : Webrtc → (pc : ℕ) → Bool
makes_conn lib pc = lib.opens pc && lib.adds_track pc

pub record IceServer : Type 0 where
  pub urls : List String
  pub username : String
  pub credential : String

-- `PeerConn`; `chat` is whether the slot holds a channel.
pub record PeerConn : Type 0 where
  pub pc : ℕ
  pub pending_ice : List String
  pub remote_set : Bool
  pub chat : Bool

pub data Effect : Type 0 where
  opened : (pc : ℕ) (servers : List IceServer) → Effect
  closed : (pc : ℕ) → Effect
  added_candidate : (pc : ℕ) (candidate : String) → Effect
  set_remote : (pc : ℕ) (sdp : String) → Effect
  send : ClientMsg → Effect

-- `next_pc` numbers the attempts to make a connection object, so that each may turn out differently.
pub record Mesh : Type 0 where
  pub my_id : String
  pub ice_servers : List IceServer
  pub peers : Dict PeerConn
  pub next_pc : ℕ

-- The server that every mesh starts with: it tells a peer its own address, and relays nothing.
abbrev pub stun : IceServer
stun = record { urls = "stun:stun.l.google.com:19302" ∷ []; username = ""; credential = "" }

unfoldable pub new : (my_id : String) → Mesh
new my_id = record { my_id = my_id; ice_servers = stun ∷ []; peers = []; next_pc = 0 }

unfoldable pub add_turn : (urls : List String) (username credential : String) → Mesh → Mesh
add_turn urls username credential m = record m {
  ice_servers =
      m.ice_servers ++ record { urls = urls; username = username; credential = credential } ∷ [];
}

-- `Result<()>`, the state and what was done up to there.
pub record Outcome : Type 0 where
  pub ok : Bool
  pub state : Mesh
  pub done : List Effect

abbrev pub finish : Mesh → List Effect → Outcome
finish m done = record { ok = true; state = m; done = done }

abbrev pub fail : Mesh → List Effect → Outcome
fail m done = record { ok = false; state = m; done = done }

-- `?`, and the statements behind it
infixl 5 ◌then_do◌
abbrev pub ◌then_do◌ : Outcome → (Mesh → Outcome) → Outcome
o then_do f = let next = f o.state in if o.ok then record next { done = o.done ++ next.done } else o

module _ (lib : Webrtc) where
  -- A candidate that does not parse is dropped.
  unfoldable pub add_candidate : (pc : ℕ) (candidate : String) → List Effect
  add_candidate pc candidate =
      if lib.parses_candidate candidate then added_candidate pc candidate ∷ [] else []

  unfoldable pub add_candidates : (pc : ℕ) (candidates : List String) → List Effect
  unfolding add_candidate
  add_candidates pc [] = []
  add_candidates pc (c ∷ cs) = add_candidate pc c ++ add_candidates pc cs

  unfoldable pub add_or_queue_ice : (candidate : String) → PeerConn → PeerConn × List Effect
  unfolding add_candidate
  add_or_queue_ice candidate p =
      if p.remote_set
      then (p, add_candidate p.pc candidate)
      else (record p { pending_ice = p.pending_ice ++ candidate ∷ [] }, [])

  unfoldable pub flush_ice : PeerConn → PeerConn × List Effect
  unfolding add_candidates
  flush_ice p =
      (record p { remote_set = true; pending_ice = [] }, add_candidates p.pc p.pending_ice)

  new_conn : ℕ → PeerConn
  new_conn pc = record { pc = pc; pending_ice = []; remote_set = false; chat = false }

  -- A connection that is opened is dropped again where the track cannot be added.
  open_peer : (peer : String) → Mesh → Outcome
  unfolding new_conn
  open_peer peer m =
      let m' = record m { next_pc = m.next_pc + 1 } in
      let done = opened m.next_pc m.ice_servers ∷ [] in
      if lib.opens m.next_pc
      then if lib.adds_track m.next_pc
        then finish (record m' { peers = insert peer (new_conn m.next_pc) m.peers }) done
        else fail m' done
      else fail m' []

  unfoldable pub ensure : (peer : String) → Mesh → Outcome
  unfolding open_peer
  ensure peer m = if contains_key peer m.peers then finish m [] else open_peer peer m

  -- The chat channel is made, then the offer is sent.
  offer_on : (peer : String) → PeerConn → Mesh → Outcome
  offer_on peer p m =
      let m' = record m { peers = update peer (λ q. record q { chat = true }) m.peers } in
      if lib.opens_channel p.pc
      then elim (lib.offers p.pc) [
        | none ↦ fail m' []
        | some sdp ↦ finish m' (send (ClientMsg.offer peer sdp) ∷ [])
      ]
      else fail m []

  -- The `unwrap` of the entry is reached only behind `ensure`.
  unfoldable pub offer : (peer : String) → Mesh → Outcome
  unfolding offer_on
  offer peer m = elim (get peer m.peers) [ none ↦ fail m [] | some p ↦ offer_on peer p m ]

  -- The glare rule: the smaller id offers.
  unfoldable pub on_peer : (peer : String) → Mesh → Outcome
  unfolding ensure offer
  on_peer peer m =
      ensure peer m then_do λ m'. if str_lt m'.my_id peer then offer peer m' else finish m' []

  drop_peer : (peer : String) → Option PeerConn → Mesh → Outcome
  drop_peer peer none m = finish m []
  drop_peer peer (some p) m = finish (record m { peers = remove peer m.peers }) (closed p.pc ∷ [])

  -- A connection that has its remote description is replaced by a fresh one.
  renew : (peer : String) → Option PeerConn → Mesh → Outcome
  unfolding drop_peer
  renew peer none m = finish m []
  renew peer (some p) m = if p.remote_set then drop_peer peer (some p) m else finish m []

  flushed : (peer : String) → PeerConn → Mesh → Mesh
  unfolding flush_ice
  flushed peer p m = record m { peers = update peer (λ q. (flush_ice q).0) m.peers }

  -- The remote description, and the candidates that waited for it.
  set_remote_and_flush : (peer sdp : String) → PeerConn → Mesh → Outcome
  unfolding flushed flush_ice
  set_remote_and_flush peer sdp p m =
      if lib.accepts_remote p.pc sdp
      then finish (flushed peer p m) (set_remote p.pc sdp ∷ (flush_ice p).1)
      else fail m []

  answer_on : (peer : String) → PeerConn → Mesh → Outcome
  answer_on peer p m = elim (lib.answers p.pc) [
    | none ↦ fail m []
    | some sdp ↦ finish m (send (ClientMsg.answer peer sdp) ∷ [])
  ]

  accept_offer : (from sdp : String) → Mesh → Outcome
  unfolding set_remote_and_flush answer_on
  accept_offer from sdp m = elim (get from m.peers) [
    | none ↦ fail m []
    | some p ↦ set_remote_and_flush from sdp p m then_do answer_on from p
  ]

  unfoldable pub on_offer : (from sdp : String) → Mesh → Outcome
  unfolding renew ensure accept_offer
  on_offer from sdp m =
      renew from (get from m.peers) m then_do ensure from then_do accept_offer from sdp

  unfoldable pub on_answer : (from sdp : String) → Mesh → Outcome
  unfolding set_remote_and_flush
  on_answer from sdp m = elim (get from m.peers) [
    | none ↦ finish m []
    | some p ↦ set_remote_and_flush from sdp p m
  ]

  unfoldable pub on_ice : (from candidate : String) → Mesh → Outcome
  unfolding add_or_queue_ice
  on_ice from candidate m = elim (get from m.peers) [
    | none ↦ finish m []
    | some p ↦
        finish (record m { peers = update from (λ q. (add_or_queue_ice candidate q).0) m.peers })
          (add_or_queue_ice candidate p).1
  ]

  unfoldable pub on_left : (peer : String) → Mesh → Outcome
  unfolding drop_peer
  on_left peer m = drop_peer peer (get peer m.peers) m

  abbrev key : String × PeerConn → String
  key (id, p) = id

  unfoldable pub rekey_peer : (peer : String) → Mesh → Outcome
  unfolding drop_peer on_peer
  rekey_peer peer m =
      if str_lt m.my_id peer
      then drop_peer peer (get peer m.peers) m then_do on_peer peer
      else finish m []

  unfoldable pub rekey_all : List String → Mesh → Outcome
  unfolding rekey_peer
  rekey_all [] m = finish m []
  rekey_all (id ∷ ids) m = rekey_peer id m then_do rekey_all ids

  unfoldable pub rekey : Mesh → Outcome
  unfolding rekey_all
  rekey m = rekey_all (map key m.peers) m
