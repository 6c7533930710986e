-- ===== src/Core/Mesh/Keys.antt =====
-- Which peers the mesh of apps/companion-core/src/mesh.rs has a connection to after each call, where
-- the library opens connections and adds the track to them. Every other call of the library may fail.
use rdoc_sacompanion.Base.{
  ℕ, String, ◌==◌, eq_iff, eq_refl, ◌≡◌, refl, subst, ◌∙◌, ap, Bool, true, not, ◌&&◌, ◌||◌, Option,
  none, some, List, [], ◌∷◌, arith, if◌then◌else◌, inl, inr, map, Option-cases,
}
use rdoc_sacompanion.Dict.{Dict, get, update, contains_key, get-update, get-insert, get-remove}
use rdoc_sacompanion.Dict.Distinct.{Contains}
use rdoc_sacompanion.Text.{str_lt}
use rdoc_sacompanion.Core.Mesh.{
  Webrtc, makes_conn, PeerConn, Mesh, Outcome, finish, ◌then_do◌, flush_ice, open_peer, ensure,
  new_conn, offer, offer_on, on_peer, drop_peer, renew, set_remote_and_flush, answer_on,
  accept_offer, on_offer, on_answer, on_ice, add_or_queue_ice, on_left, rekey_peer, rekey_all,
  rekey, key,
}
use rdoc_sacompanion.Core.Mesh.Servers.{if_cases, then_do-cases}

abbrev pub has : String → Mesh → Bool
has id m = contains_key id m.peers

abbrev SameKeys : Mesh → Outcome → Type 0
SameKeys m o = (id : String) → has id o.state ≡ has id m

contains_key-update {ℓ} :
    {V : Type ℓ} (k j : String) (f : V → V) (m : Dict V)
    → contains_key j (update k f m) ≡ contains_key j m
contains_key-update k j f m = ground (arith, get-update k j f m)

then_do-SameKeys :
    (m : Mesh) (o : Outcome) (f : Mesh → Outcome)
    → SameKeys m o
    → SameKeys o.state (f o.state)
    → SameKeys m (o then_do f)
then_do-SameKeys m o f first second id = elim (then_do-cases o f) [
  | inl good ↦ rw good (second id ∙ first id)
  | inr bad ↦ rw bad (first id)
]

module _ (lib : Webrtc) where
  offer-SameKeys : (peer : String) (m : Mesh) → SameKeys m (offer lib peer m)
  unfolding offer offer_on
  offer-SameKeys peer m id =
      ground
        (arith, contains_key-update peer id (λ (q : PeerConn). record q { chat = true }) m.peers)

  set_remote_and_flush-SameKeys :
      (peer sdp : String) (p : PeerConn) (m : Mesh)
      → SameKeys m (set_remote_and_flush lib peer sdp p m)
  unfolding set_remote_and_flush
  set_remote_and_flush-SameKeys peer sdp p m id =
      ground (arith, contains_key-update peer id (λ q. (flush_ice lib q).0) m.peers)

  answer_on-SameKeys :
      (peer : String) (p : PeerConn) (m : Mesh) → SameKeys m (answer_on lib peer p m)
  unfolding answer_on
  answer_on-SameKeys peer p m id = ground arith

  accept_offer-SameKeys : (from sdp : String) (m : Mesh) → SameKeys m (accept_offer lib from sdp m)
  unfolding accept_offer
  accept_offer-SameKeys from sdp m = elim (Option-cases (get from m.peers)) [
    | inl missing ↦ rw (missing, accept_offer) (λ id. refl)
    | inr (p, there) ↦
        rw (there, accept_offer)
          (then_do-SameKeys m (set_remote_and_flush lib from sdp p m) (answer_on lib from p)
            (set_remote_and_flush-SameKeys from sdp p m)
            (answer_on-SameKeys from p (set_remote_and_flush lib from sdp p m).state))
  ]

  pub on_answer-SameKeys : (from sdp : String) (m : Mesh) → SameKeys m (on_answer lib from sdp m)
  unfolding on_answer
  on_answer-SameKeys from sdp m = elim (Option-cases (get from m.peers)) [
    | inl missing ↦ rw (missing, on_answer) (λ id. refl)
    | inr (p, there) ↦ rw (there, on_answer) (set_remote_and_flush-SameKeys from sdp p m)
  ]

  pub on_ice-SameKeys :
      (from candidate : String) (m : Mesh) → SameKeys m (on_ice lib from candidate m)
  unfolding on_ice
  on_ice-SameKeys from candidate m id =
      ground
        (arith, contains_key-update from id (λ q. (add_or_queue_ice lib candidate q).0) m.peers)

  -- `on_left` takes the peer out.
  drop_peer-has :
      (peer id : String) (m : Mesh)
      → has id (drop_peer lib peer (get peer m.peers) m).state ≡ (not (peer == id) && has id m)
  unfolding drop_peer
  drop_peer-has peer id m = elim (Option-cases (get peer m.peers)) [
    | inl missing ↦ rw (missing, drop_peer) (ground (arith, eq_iff peer id, missing))
    | inr (p, there) ↦ rw (there, drop_peer) (ground (arith, get-remove peer id m.peers))
  ]

  pub on_left-has :
      (peer id : String) (m : Mesh)
      → has id (on_left lib peer m).state ≡ (not (peer == id) && has id m)
  unfolding on_left
  on_left-has peer id m = drop_peer-has peer id m

  module _ (opens : (pc : ℕ) → makes_conn lib pc ≡ true) where
    ensure-has :
        (peer id : String) (m : Mesh) → has id (ensure lib peer m).state ≡ (peer == id || has id m)
    unfolding ensure open_peer
    ensure-has peer id m = ground (
      arith,
      opens m.next_pc,
      eq_iff peer id,
      get-insert peer id (new_conn lib m.next_pc) m.peers,
    )

    ensure-ok : (peer : String) (m : Mesh) → (ensure lib peer m).ok ≡ true
    unfolding ensure open_peer
    ensure-ok peer m = ground (arith, opens m.next_pc)

    abbrev decide : String → Mesh → Outcome
    decide peer m = if str_lt m.my_id peer then offer lib peer m else finish m []

    decide-SameKeys : (peer : String) (m : Mesh) → SameKeys m (decide peer m)
    decide-SameKeys peer m =
        elim (if_cases (str_lt m.my_id peer) (offer lib peer m) (finish m [])) [
          | inl smaller ↦ rw smaller (offer-SameKeys peer m)
          | inr larger ↦ rw larger (λ id. refl)
        ]

    -- After a call that ends well the keys are those after the next call.
    then_do-has :
        (o : Outcome) (f : Mesh → Outcome) (id : String) (b : Bool)
        → o.ok ≡ true
        → has id (f o.state).state ≡ b
        → has id (o then_do f).state ≡ b
    then_do-has o f id b good h = elim (then_do-cases o f) [
      | inl next ↦ rw next h
      | inr stop ↦ ground arith
    ]

    pub on_peer-has :
        (peer id : String) (m : Mesh) → has id (on_peer lib peer m).state ≡ (peer == id || has id m)
    unfolding on_peer
    on_peer-has peer id m =
        let ensured = ensure lib peer m in
        then_do-has ensured (decide peer) id (peer == id || has id m) (ensure-ok peer m)
          (decide-SameKeys peer ensured.state id ∙ ensure-has peer id m)

    then_do-ok :
        (o : Outcome) (f : Mesh → Outcome)
        → o.ok ≡ true
        → (f o.state).ok ≡ true
        → (o then_do f).ok ≡ true
    then_do-ok o f first second = elim (then_do-cases o f) [
      | inl next ↦ rw next second
      | inr stop ↦ rw stop first
    ]

    renew-ok : (peer : String) (p : Option PeerConn) (m : Mesh) → (renew lib peer p m).ok ≡ true
    unfolding renew drop_peer
    renew-ok peer none m = refl
    renew-ok peer (some p) m = ground arith

    renew-has :
        (peer id : String) (m : Mesh)
        → peer == id || has id (renew lib peer (get peer m.peers) m).state
          ≡ (peer == id || has id m)
    unfolding renew
    renew-has peer id m = elim (Option-cases (get peer m.peers)) [
      | inl missing ↦ rw (missing, renew) refl
      | inr (p, there) ↦
          let dropped : has id (drop_peer lib peer (some p) m).state
              ≡ (not (peer == id) && has id m) =
            subst (λ old. has id (drop_peer lib peer old m).state ≡ (not (peer == id) && has id m))
              there (drop_peer-has peer id m) in
          rw (there, renew) (ground (arith, dropped))
    ]

    pub on_offer-has :
        (from sdp id : String) (m : Mesh)
        → has id (on_offer lib from sdp m).state ≡ (from == id || has id m)
    unfolding on_offer
    on_offer-has from sdp id m =
        let renewed = renew lib from (get from m.peers) m in
        let good = renew-ok from (get from m.peers) m in
        let ensured = renewed then_do ensure lib from in
        let has_ensured : has id ensured.state ≡ (from == id || has id m) =
          then_do-has renewed (ensure lib from) id (from == id || has id m) good
            (ensure-has from id renewed.state ∙ renew-has from id m) in
        then_do-has ensured (accept_offer lib from sdp) id (from == id || has id m)
          (then_do-ok renewed (ensure lib from) good (ensure-ok from renewed.state))
          (accept_offer-SameKeys from sdp ensured.state id ∙ has_ensured)

    drop_peer-ok :
        (peer : String) (p : Option PeerConn) (m : Mesh) → (drop_peer lib peer p m).ok ≡ true
    unfolding drop_peer
    drop_peer-ok peer none m = refl
    drop_peer-ok peer (some p) m = refl

    rekey_peer-SameKeys :
        (peer : String) (m : Mesh) → has peer m ≡ true → SameKeys m (rekey_peer lib peer m)
    unfolding rekey_peer
    rekey_peer-SameKeys peer m there id =
        let dropped = drop_peer lib peer (get peer m.peers) m in
        let both : peer == id || (not (peer == id) && has id m) ≡ has id m =
          ground (arith, eq_iff peer id) in
        elim (if_cases (str_lt m.my_id peer) (dropped then_do on_peer lib peer) (finish m [])) [
          | inl smaller ↦ rw smaller (
              then_do-has dropped (on_peer lib peer) id (has id m)
                (drop_peer-ok peer (get peer m.peers) m)
                (on_peer-has peer id dropped.state
                  ∙ ap (λ b. peer == id || b) (drop_peer-has peer id m)
                  ∙ both))
          | inr larger ↦ rw larger refl
        ]

    Contains-same :
        (ids : List String) (m : Mesh) (o : Outcome)
        → SameKeys m o
        → Contains m.peers ids
        → Contains o.state.peers ids
    Contains-same [] m o same there = tt
    Contains-same (id ∷ ids) m o same there =
        (same id ∙ there.0, Contains-same ids m o same there.1)

    rekey_all-SameKeys :
        (ids : List String) (m : Mesh) → Contains m.peers ids → SameKeys m (rekey_all lib ids m)
    unfolding rekey_all
    rekey_all-SameKeys [] m there = λ id. refl
    rekey_all-SameKeys (k ∷ ks) m there =
        let first = rekey_peer-SameKeys k m there.0 in
        let o = rekey_peer lib k m in
        then_do-SameKeys m o (rekey_all lib ks) first
          (rekey_all-SameKeys ks o.state (Contains-same ks m o first there.1))

    Contains-cons :
        (k : String) (p : PeerConn) (m : Dict PeerConn) (ids : List String)
        → Contains m ids
        → Contains ((k, p) ∷ m) ids
    unfolding get
    Contains-cons k p m [] there = tt
    Contains-cons k p m (id ∷ ids) there =
        (ground (arith, there.0), Contains-cons k p m ids there.1)

    Contains-keys : (m : Dict PeerConn) → Contains m (map (key lib) m)
    unfolding get
    Contains-keys [] = tt
    Contains-keys ((k, p) ∷ m) =
        (ground (arith, eq_refl k), Contains-cons k p m (map (key lib) m) (Contains-keys m))

    pub rekey-SameKeys : (m : Mesh) → SameKeys m (rekey lib m)
    unfolding rekey
    rekey-SameKeys m = rekey_all-SameKeys (map (key lib) m.peers) m (Contains-keys m.peers)
