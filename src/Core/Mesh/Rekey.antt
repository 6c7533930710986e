-- ===== src/Core/Mesh/Rekey.antt =====
-- The rotation of all keys of apps/companion-core/src/mesh.rs.
use rdoc_sacompanion.Base.{
  ℕ, ◌+◌, ◌≤◌, String, ◌==◌, eq_iff, eq_refl, ◌≡◌, ◌≢◌, refl, subst, ◌∙◌, ap, Bool, true, false,
  ◌&&◌, ◌||◌, Option, none, some, List, [], ◌∷◌, ◌++◌, map, arith, if◌then◌else◌, Bool-cases, inl,
  inr,
}
use rdoc_sacompanion.Dict.{
  Dict, get, insert, remove, update, contains_key, get-insert, get-remove, get-update,
}
use rdoc_sacompanion.Dict.Distinct.{Differ, AllDiffer, DistinctKeys}
use rdoc_sacompanion.Text.{str_lt}
use rdoc_sacompanion.Text.Order.{str_lt_total}
use rdoc_sacompanion.Protocol.{ClientMsg}
use rdoc_sacompanion.Core.Mesh.{
  Webrtc, PeerConn, Effect, opened, send, Mesh, Outcome, finish, ◌then_do◌, ensure, open_peer,
  on_peer, new_conn, drop_peer, rekey_peer, rekey_all, rekey, key,
}
use rdoc_sacompanion.Core.Mesh.Glare.{Works, offer-lem}

abbrev offers_by : String → Effect → ℕ
offers_by id (send (ClientMsg.offer to sdp)) = if to == id then 1 else 0
offers_by id _ = 0

-- How many offers to this peer are among the effects.
abbrev pub offers_to : String → List Effect → ℕ
offers_to id [] = 0
offers_to id (e ∷ es) = offers_by id e + offers_to id es

pub offers_to-append :
    (id : String) (es fs : List Effect)
    → offers_to id (es ++ fs) ≡ offers_to id es + offers_to id fs
offers_to-append id [] fs = omega arith
offers_to-append id (e ∷ es) fs = ground (arith, offers_to-append id es fs)

abbrev mem : String → List String → Bool
mem id [] = false
mem id (k ∷ ks) = k == id || mem id ks

-- A connection that was just opened and offered.
abbrev pub fresh : ℕ → PeerConn
fresh pc = record { pc = pc; pending_ice = []; remote_set = false; chat = true }

-- `o` comes from `m` without an error, with one offer and a new connection for this peer if
-- `renewed`, and with neither otherwise.
pub record Renews (id : String) (renewed : Bool) (m : Mesh) (o : Outcome) : Type 0 where
  pub ok : o.ok ≡ true
  pub same_id : o.state.my_id ≡ m.my_id
  pub next_pc : m.next_pc ≤ o.state.next_pc
  pub offers : offers_to id o.done ≡ (if renewed then 1 else 0)
  pub pc : ℕ
  pub new : m.next_pc ≤ pc
  pub peer : get id o.state.peers ≡ (if renewed then some (fresh pc) else get id m.peers)

finish-Renews : (id : String) (m : Mesh) → Renews id false m (finish m [])
finish-Renews id m = record {
  ok = refl;
  same_id = refl;
  next_pc = omega arith;
  offers = refl;
  pc = m.next_pc;
  new = omega arith;
  peer = refl;
}

then_do-Renews :
    (id : String) (a b : Bool) (m : Mesh) (o : Outcome) (f : Mesh → Outcome)
    → a && b ≡ false
    → Renews id a m o
    → Renews id b o.state (f o.state)
    → Renews id (a || b) m (o then_do f)
then_do-Renews id a b m o f once first second = record {
  ok = rw first.ok second.ok;
  same_id = rw (first.ok, if◌then◌else◌) (second.same_id ∙ first.same_id);
  next_pc = ground (arith, first.ok, first.next_pc, second.next_pc);
  offers =
      ground
        (arith, first.ok, first.offers, second.offers, offers_to-append id o.done (f o.state).done);
  pc = if b then second.pc else first.pc;
  new = ground (arith, first.new, first.next_pc, second.new);
  peer = ground (arith, first.ok, first.peer, second.peer);
}

-- A mesh with a new connection for this peer, before and after its offer.
abbrev with_conn : String → PeerConn → Mesh → Mesh
with_conn peer p m = record m { peers = insert peer p m.peers; next_pc = m.next_pc + 1 }

abbrev with_chat : String → Mesh → Mesh
with_chat peer m = record m { peers = update peer (λ q. record q { chat = true }) m.peers }

module _ (lib : Webrtc) (works : Works lib) where
  on_peer_missing :
      (peer : String) (m : Mesh)
      → get peer m.peers ≡ none
      → str_lt m.my_id peer ≡ true
      → (sdp : String) × (on_peer lib peer m
          ≡ finish
              (with_chat peer (with_conn peer (new_conn lib m.next_pc) m))
              (opened m.next_pc m.ice_servers ∷ send (ClientMsg.offer peer sdp) ∷ []))
  unfolding on_peer ensure open_peer
  on_peer_missing peer m missing smaller =
      let start = with_conn peer (new_conn lib m.next_pc) m in
      let there : get peer start.peers ≡ some (new_conn lib m.next_pc) =
        ground (arith, get-insert peer peer (new_conn lib m.next_pc) m.peers, eq_refl peer) in
      let offered = offer-lem lib works peer (new_conn lib m.next_pc) start there in
      (
        offered.0,
        rw (missing, ensure)
            (rw (works.opens m.next_pc, works.adds_track m.next_pc, on_peer)
              (rw (smaller, offered.1) refl)),
      )

  abbrev fresh_at : String → Mesh → Mesh
  fresh_at peer m = with_chat peer (with_conn peer (new_conn lib m.next_pc) m)

  fresh_at-get :
      (peer id : String) (m : Mesh)
      → get id (fresh_at peer m).peers
        ≡ (if peer == id then some (fresh m.next_pc) else get id m.peers)
  unfolding new_conn
  fresh_at-get peer id m = ground (
    arith,
    get-update peer id (λ (q : PeerConn). record q { chat = true })
        (insert peer (new_conn lib m.next_pc) m.peers),
    get-insert peer id (new_conn lib m.next_pc) m.peers,
  )

  on_peer-Renews :
      (peer id : String) (m : Mesh)
      → get peer m.peers ≡ none
      → str_lt m.my_id peer ≡ true
      → Renews id (peer == id) m (on_peer lib peer m)
  on_peer-Renews peer id m missing smaller =
      let (sdp, made) = on_peer_missing peer m missing smaller in
      rw made record {
        ok = refl;
        same_id = refl;
        next_pc = omega arith;
        offers = ground arith;
        pc = m.next_pc;
        new = omega arith;
        peer = fresh_at-get peer id m;
      }

  -- With the old connection closed first, if there is one.
  replaced-Renews :
      (peer id : String) (m : Mesh) (old : Option PeerConn)
      → get peer m.peers ≡ old
      → str_lt m.my_id peer ≡ true
      → Renews id (peer == id) m (drop_peer lib peer old m then_do on_peer lib peer)
  unfolding drop_peer
  replaced-Renews peer id m none is smaller =
      then_do-Renews id false (peer == id) m (finish m []) (on_peer lib peer) refl
        (finish-Renews id m) (on_peer-Renews peer id m is smaller)
  replaced-Renews peer id m (some p) is smaller =
      let rest = record m { peers = remove peer m.peers } in
      let gone : get peer rest.peers ≡ none =
        ground (arith, get-remove peer peer m.peers, eq_refl peer) in
      let made = on_peer-Renews peer id rest gone smaller in
      record {
        ok = made.ok;
        same_id = made.same_id;
        next_pc = made.next_pc;
        offers = ground (arith, made.offers);
        pc = made.pc;
        new = made.new;
        peer = ground (arith, made.peer, get-remove peer id m.peers);
      }

  rekey_peer-Renews :
      (peer id : String) (m : Mesh)
      → Renews id (peer == id && str_lt m.my_id peer) m (rekey_peer lib peer m)
  unfolding rekey_peer
  rekey_peer-Renews peer id m = elim (Bool-cases (str_lt m.my_id peer)) [
    | inl smaller ↦
        let both : peer == id && str_lt m.my_id peer ≡ (peer == id) = ground (arith, smaller) in
        rw both (rw smaller (replaced-Renews peer id m (get peer m.peers) refl smaller))
    | inr larger ↦
        let neither : peer == id && str_lt m.my_id peer ≡ false = ground (arith, larger) in
        rw neither (rw larger (finish-Renews id m))
  ]

  Differ-mem : (k : String) (ks : List String) → Differ k ks → mem k ks ≡ false
  Differ-mem k [] differ = refl
  Differ-mem k (j ∷ ks) differ = ground (arith, eq_iff j k, Differ-mem k ks)

  -- An id is met at most once.
  abbrev here : String → String → Mesh → Bool
  here k id m = k == id && str_lt m.my_id k

  abbrev later : List String → String → Mesh → Bool
  later ks id m = mem id ks && str_lt m.my_id id

  met_once :
      (k : String) (ks : List String) (id : String) (m : Mesh)
      → Differ k ks
      → here k id m && later ks id m ≡ false
  met_once k ks id m differ = ground (arith, eq_iff k id, Differ-mem k ks differ)

  met :
      (k : String) (ks : List String) (id : String) (m : Mesh)
      → (k == id || mem id ks) && str_lt m.my_id id ≡ here k id m || later ks id m
  met k ks id m = ground (arith, eq_iff k id)

  rekey_all-Renews :
      (ids : List String) (id : String) (m : Mesh)
      → AllDiffer ids
      → Renews id (mem id ids && str_lt m.my_id id) m (rekey_all lib ids m)
  unfolding rekey_all
  rekey_all-Renews [] id m differ = finish-Renews id m
  rekey_all-Renews (k ∷ ks) id m differ =
      let first = rekey_peer-Renews k id m in
      let next = (rekey_peer lib k m).state in
      let rest = rekey_all-Renews ks id next differ.1 in
      let same : later ks id next ≡ later ks id m =
        ap (λ me. mem id ks && str_lt me id) first.same_id in
      rw (met k ks id m) (
        then_do-Renews id (here k id m) (later ks id m) m (rekey_peer lib k m) (rekey_all lib ks)
          (met_once k ks id m differ.0) first
          (subst (λ b. Renews id b next (rekey_all lib ks next)) same rest))

  missing-Differ : (k : String) (m : Dict PeerConn) → get k m ≡ none → Differ k (map (key lib) m)
  unfolding get
  missing-Differ k [] missing = tt
  missing-Differ k ((j, p) ∷ m) missing = ground (arith, eq_iff j k, missing-Differ k m)

  keys_lem : (m : Dict PeerConn) → DistinctKeys m → AllDiffer (map (key lib) m)
  keys_lem [] distinct = tt
  keys_lem ((k, p) ∷ m) distinct = (missing-Differ k m distinct.0, keys_lem m distinct.1)

  mem-keys : (id : String) (m : Dict PeerConn) → mem id (map (key lib) m) ≡ contains_key id m
  unfolding get
  mem-keys id [] = refl
  mem-keys id ((j, p) ∷ m) = ground (arith, mem-keys id m)

  -- Where the library's calls succeed, the rotation of the keys gives every peer with a larger id
  -- exactly one offer, on a connection opened by it. Every other peer gets no offer and keeps what
  -- it has.
  pub rekey-Renews :
      (id : String) (m : Mesh)
      → DistinctKeys m.peers
      → Renews id (contains_key id m.peers && str_lt m.my_id id) m (rekey lib m)
  unfolding rekey
  rekey-Renews id m distinct =
      rw (← mem-keys id m.peers)
        (rekey_all-Renews (map (key lib) m.peers) id m (keys_lem m.peers distinct))

-- Two peers that have a connection to each other and both rotate their keys, where the library's
-- calls succeed, send exactly one offer between them.
pub rekey-one_offer :
    (lib : Webrtc) (a b : Mesh)
    → Works lib
    → a.my_id ≢ b.my_id
    → DistinctKeys a.peers
    → DistinctKeys b.peers
    → contains_key b.my_id a.peers ≡ true
    → contains_key a.my_id b.peers ≡ true
    → offers_to b.my_id (rekey lib a).done + offers_to a.my_id (rekey lib b).done ≡ 1
rekey-one_offer lib a b works differ distinct_a distinct_b knows_b knows_a =
    let at_a = rekey-Renews lib works b.my_id a distinct_a in
    let at_b = rekey-Renews lib works a.my_id b distinct_b in
    ground (arith, at_a.offers, at_b.offers, str_lt_total a.my_id b.my_id differ)
