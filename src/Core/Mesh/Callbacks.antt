-- ===== src/Core/Mesh/Callbacks.antt =====
-- The callbacks that `ensure` of apps/companion-core/src/mesh.rs sets on a connection, and the
-- chat broadcast. What a callback sends is a list: messages to the signaling server, events for
-- the engine, payloads for the decoder.
use rdoc_sacompanion.Base.{
  ℕ, suc, zero, String, ◌≡◌, Bool, true, false, Option, none, some, List, [], ◌∷◌, ◌++◌, arith,
  if◌then◌else◌, unwrap_or, ltb, replicate,
}
use rdoc_sacompanion.Dict.{Dict}
use rdoc_sacompanion.Protocol.{ChatMsg, ClientMsg}
use rdoc_sacompanion.Core.Engine.{MeshEvent, chat, badge}
use rdoc_sacompanion.Core.Mesh.{PeerConn}

pub data Output : Type 0 where
  signal : ClientMsg → Output
  event : MeshEvent → Output
  decode : (peer : String) (payload : List ℕ) → Output

-- A local candidate, as the JSON text that it has, or `none` at the end of the candidates or where
-- it has none.
unfoldable pub on_ice_candidate : (peer : String) → Option String → List Output
on_ice_candidate peer none = []
on_ice_candidate peer (some candidate) = signal (ClientMsg.ice peer candidate) ∷ []

abbrev kind_of : (relayed : Bool) → String
kind_of true = "RELAY (TURN)"
kind_of false = "DIREKT"

-- `selected_kind`: the pair that each look at the transport finds, if any, as whether a relay is
-- in it; at most so many looks.
unfoldable pub selected_kind : (looks : ℕ) → List (Option Bool) → Option String
selected_kind zero pairs = none
selected_kind (suc n) [] = none
selected_kind (suc n) (some relayed ∷ pairs) = some (kind_of relayed)
selected_kind (suc n) (none ∷ pairs) = selected_kind n pairs

-- The connection's state changes.
unfoldable pub on_state : (peer : String) (connected : Bool) → List (Option Bool) → List Output
unfolding selected_kind
on_state peer connected pairs =
    if connected then event (badge peer (unwrap_or (selected_kind 10 pairs) "DIREKT")) ∷ [] else []

-- `wire_chat`: a message on the channel, where it parses. The sender is the channel's peer.
unfoldable pub on_chat_message : (peer : String) → Option ChatMsg → List Output
on_chat_message peer none = []
on_chat_message peer (some c) = event (chat peer c.text) ∷ []

unfoldable pub on_data_channel : PeerConn → PeerConn
on_data_channel p = record p { chat = true }

-- `read_track`: the packets up to the first error.
unfoldable pub read_track : (peer : String) → List (Option (List ℕ)) → List Output
read_track peer [] = []
read_track peer (none ∷ packets) = []
read_track peer (some [] ∷ packets) = read_track peer packets
read_track peer (some (b ∷ bs) ∷ packets) = decode peer (b ∷ bs) ∷ read_track peer packets

-- `broadcast_chat`: the peers whose channel gets the line.
unfoldable pub broadcast_chat : Dict PeerConn → List String
broadcast_chat [] = []
broadcast_chat ((id, p) ∷ peers) =
    let rest = broadcast_chat peers in if p.chat then id ∷ rest else rest

-- The badge of a link is that of the first pair that is found, if one of the looks finds any: with
-- `k` looks in vain before it, exactly where more than `k` looks are made.
pub selected_kind-first :
    (looks k : ℕ) (relayed : Bool) (pairs : List (Option Bool))
    → selected_kind looks (replicate k none ++ some relayed ∷ pairs)
      ≡ (if ltb k looks then some (if relayed then "RELAY (TURN)" else "DIREKT") else none)
unfolding selected_kind
selected_kind-first zero k relayed pairs = ground arith
selected_kind-first (suc n) zero true pairs = ground arith
selected_kind-first (suc n) zero false pairs = ground arith
selected_kind-first (suc n) (suc k) relayed pairs =
    ground (arith, selected_kind-first n k relayed pairs)
