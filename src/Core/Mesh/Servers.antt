-- ===== src/Core/Mesh/Servers.antt =====
-- With which ICE servers the mesh of apps/companion-core/src/mesh.rs opens its connections.
use rdoc_sacompanion.Base.{
  String, ℕ, ◌≡◌, subst, ◌⊎◌, refl, ◌∙◌, Bool, true, false, Option, none, some, List, [], ◌∷◌, ◌++◌,
  arith, if◌then◌else◌, Bool-cases, inl, inr, map, Option-cases,
}
use rdoc_sacompanion.Dict.{get, contains_key}
use rdoc_sacompanion.Text.{str_lt}
use rdoc_sacompanion.Core.Mesh.{
  add_turn, Webrtc, PeerConn, IceServer, Effect, opened, closed, added_candidate, set_remote, send,
  Mesh, Outcome, finish, fail, ◌then_do◌, add_candidates, add_candidate, flush_ice, open_peer,
  ensure, offer, offer_on, on_peer, drop_peer, renew, set_remote_and_flush, answer_on, accept_offer,
  on_offer, on_answer, on_ice, add_or_queue_ice, on_left, rekey_peer, rekey_all, rekey, key,
}

-- Every connection that is opened among the effects gets these servers.
abbrev pub OpensWith : List IceServer → List Effect → Type 0
OpensWith s [] = Unit
OpensWith s (opened pc servers ∷ es) = (servers ≡ s) × OpensWith s es
OpensWith s (closed pc ∷ es) = OpensWith s es
OpensWith s (added_candidate pc c ∷ es) = OpensWith s es
OpensWith s (set_remote pc sdp ∷ es) = OpensWith s es
OpensWith s (send msg ∷ es) = OpensWith s es

OpensWith-append :
    (s : List IceServer) (es fs : List Effect)
    → OpensWith s es
    → OpensWith s fs
    → OpensWith s (es ++ fs)
OpensWith-append s [] fs a b = b
OpensWith-append s (opened pc servers ∷ es) fs a b = (a.0, OpensWith-append s es fs a.1 b)
OpensWith-append s (closed pc ∷ es) fs a b = OpensWith-append s es fs a b
OpensWith-append s (added_candidate pc c ∷ es) fs a b = OpensWith-append s es fs a b
OpensWith-append s (set_remote pc sdp ∷ es) fs a b = OpensWith-append s es fs a b
OpensWith-append s (send msg ∷ es) fs a b = OpensWith-append s es fs a b

-- The servers stay as they are, and the connections are opened with them.
pub record Keeps (m : Mesh) (o : Outcome) : Type 0 where
  pub servers : o.state.ice_servers ≡ m.ice_servers
  pub opens : OpensWith m.ice_servers o.done

pub if_cases {ℓ} :
    {A : Type ℓ} (b : Bool) (x y : A) → ((if b then x else y) ≡ x) ⊎ ((if b then x else y) ≡ y)
if_cases true x y = inl refl
if_cases false x y = inr refl

pub then_do-cases :
    (o : Outcome) (f : Mesh → Outcome)
    → ((o then_do f) ≡ record {
      ok = (f o.state).ok;
      state = (f o.state).state;
      done = o.done ++ (f o.state).done;
    })
      ⊎ ((o then_do f) ≡ o)
then_do-cases o f = if_cases o.ok _ o

then_do-Keeps :
    (m : Mesh) (o : Outcome) (f : Mesh → Outcome)
    → Keeps m o
    → Keeps o.state (f o.state)
    → Keeps m (o then_do f)
then_do-Keeps m o f first second =
    let then_opens : OpensWith m.ice_servers (f o.state).done =
      subst (λ s. OpensWith s (f o.state).done) first.servers second.opens in
    elim (then_do-cases o f) [
      | inl good ↦ rw good record {
        servers = second.servers ∙ first.servers;
        opens = OpensWith-append m.ice_servers o.done (f o.state).done first.opens then_opens;
      }
      | inr bad ↦ rw bad first
    ]

finish-Keeps : (m : Mesh) → Keeps m (finish m [])
finish-Keeps m = record { servers = refl; opens = tt }

fail-Keeps : (m : Mesh) → Keeps m (fail m [])
fail-Keeps m = record { servers = refl; opens = tt }

module _ (lib : Webrtc) where
  add_candidates-OpensWith :
      (s : List IceServer) (pc : ℕ) (cs : List String) → OpensWith s (add_candidates lib pc cs)
  unfolding add_candidates add_candidate
  add_candidates-OpensWith s pc [] = tt
  add_candidates-OpensWith s pc (c ∷ cs) = elim (Bool-cases (lib.parses_candidate c)) [
    | inl parsed ↦ rw parsed (add_candidates-OpensWith s pc cs)
    | inr dropped ↦ rw dropped (add_candidates-OpensWith s pc cs)
  ]

  ensure-Keeps : (peer : String) (m : Mesh) → Keeps m (ensure lib peer m)
  unfolding ensure open_peer
  ensure-Keeps peer m = elim (Bool-cases (contains_key peer m.peers)) [
    | inl there ↦ rw there (finish-Keeps m)
    | inr missing ↦ ground (arith, missing)
  ]

  offer-Keeps : (peer : String) (m : Mesh) → Keeps m (offer lib peer m)
  unfolding offer offer_on
  offer-Keeps peer m = ground arith

  abbrev decide : String → Mesh → Outcome
  decide peer m = if str_lt m.my_id peer then offer lib peer m else finish m []

  decide-Keeps : (peer : String) (m : Mesh) → Keeps m (decide peer m)
  decide-Keeps peer m = elim (if_cases (str_lt m.my_id peer) (offer lib peer m) (finish m [])) [
    | inl smaller ↦ rw smaller (offer-Keeps peer m)
    | inr larger ↦ rw larger (finish-Keeps m)
  ]

  pub on_peer-Keeps : (peer : String) (m : Mesh) → Keeps m (on_peer lib peer m)
  unfolding on_peer
  on_peer-Keeps peer m =
      then_do-Keeps m (ensure lib peer m) (decide peer) (ensure-Keeps peer m)
        (decide-Keeps peer (ensure lib peer m).state)

  drop_peer-Keeps :
      (peer : String) (p : Option PeerConn) (m : Mesh) → Keeps m (drop_peer lib peer p m)
  unfolding drop_peer
  drop_peer-Keeps peer none m = finish-Keeps m
  drop_peer-Keeps peer (some p) m = record { servers = refl; opens = tt }

  renew-Keeps : (peer : String) (p : Option PeerConn) (m : Mesh) → Keeps m (renew lib peer p m)
  unfolding renew
  renew-Keeps peer none m = finish-Keeps m
  renew-Keeps peer (some p) m =
      elim p.remote_set
        as (λ b. Keeps m (if b then drop_peer lib peer (some p) m else finish m [])) [
          | true ↦ drop_peer-Keeps peer (some p) m
          | false ↦ finish-Keeps m
        ]

  set_remote_and_flush-Keeps :
      (peer sdp : String) (p : PeerConn) (m : Mesh)
      → Keeps m (set_remote_and_flush lib peer sdp p m)
  unfolding set_remote_and_flush flush_ice
  set_remote_and_flush-Keeps peer sdp p m = elim (Bool-cases (lib.accepts_remote p.pc sdp)) [
    | inl good ↦
        rw good record {
          servers = refl;
          opens = add_candidates-OpensWith m.ice_servers p.pc p.pending_ice;
        }
    | inr bad ↦ rw bad (fail-Keeps m)
  ]

  answer_on-Keeps : (peer : String) (p : PeerConn) (m : Mesh) → Keeps m (answer_on lib peer p m)
  unfolding answer_on
  answer_on-Keeps peer p m = ground arith

  accept_offer-Keeps : (from sdp : String) (m : Mesh) → Keeps m (accept_offer lib from sdp m)
  unfolding accept_offer
  accept_offer-Keeps from sdp m = elim (Option-cases (get from m.peers)) [
    | inl missing ↦ rw (missing, accept_offer) (fail-Keeps m)
    | inr (p, there) ↦
        rw (there, accept_offer)
          (then_do-Keeps m (set_remote_and_flush lib from sdp p m) (answer_on lib from p)
            (set_remote_and_flush-Keeps from sdp p m)
            (answer_on-Keeps from p (set_remote_and_flush lib from sdp p m).state))
  ]

  pub on_offer-Keeps : (from sdp : String) (m : Mesh) → Keeps m (on_offer lib from sdp m)
  unfolding on_offer
  on_offer-Keeps from sdp m =
      let renewed = renew lib from (get from m.peers) m in
      let ensured = renewed then_do ensure lib from in
      then_do-Keeps m ensured (accept_offer lib from sdp)
        (then_do-Keeps m renewed (ensure lib from) (renew-Keeps from (get from m.peers) m)
          (ensure-Keeps from renewed.state))
        (accept_offer-Keeps from sdp ensured.state)

  pub on_answer-Keeps : (from sdp : String) (m : Mesh) → Keeps m (on_answer lib from sdp m)
  unfolding on_answer
  on_answer-Keeps from sdp m = elim (Option-cases (get from m.peers)) [
    | inl missing ↦ rw (missing, on_answer) (finish-Keeps m)
    | inr (p, there) ↦ rw (there, on_answer) (set_remote_and_flush-Keeps from sdp p m)
  ]

  pub on_ice-Keeps : (from candidate : String) (m : Mesh) → Keeps m (on_ice lib from candidate m)
  unfolding on_ice add_or_queue_ice add_candidate
  on_ice-Keeps from candidate m = ground arith

  pub on_left-Keeps : (peer : String) (m : Mesh) → Keeps m (on_left lib peer m)
  unfolding on_left
  on_left-Keeps peer m = drop_peer-Keeps peer (get peer m.peers) m

  rekey_peer-Keeps : (peer : String) (m : Mesh) → Keeps m (rekey_peer lib peer m)
  unfolding rekey_peer
  rekey_peer-Keeps peer m =
      let dropped = drop_peer lib peer (get peer m.peers) m in
      elim (if_cases (str_lt m.my_id peer) (dropped then_do on_peer lib peer) (finish m [])) [
        | inl smaller ↦ rw smaller (
            then_do-Keeps m dropped (on_peer lib peer) (drop_peer-Keeps peer (get peer m.peers) m)
              (on_peer-Keeps peer dropped.state))
        | inr larger ↦ rw larger (finish-Keeps m)
      ]

  rekey_all-Keeps : (ids : List String) (m : Mesh) → Keeps m (rekey_all lib ids m)
  unfolding rekey_all
  rekey_all-Keeps [] m = finish-Keeps m
  rekey_all-Keeps (id ∷ ids) m =
      then_do-Keeps m (rekey_peer lib id m) (rekey_all lib ids) (rekey_peer-Keeps id m)
        (rekey_all-Keeps ids (rekey_peer lib id m).state)

  pub rekey-Keeps : (m : Mesh) → Keeps m (rekey lib m)
  unfolding rekey
  rekey-Keeps m = rekey_all-Keeps (map (key lib) m.peers) m

pub add_turn-ice_servers :
    (urls : List String) (username credential : String) (m : Mesh)
    → (add_turn urls username credential m).ice_servers
      ≡ (m.ice_servers ++ record { urls = urls; username = username; credential = credential } ∷ [])
unfolding add_turn
add_turn-ice_servers urls username credential m = refl
