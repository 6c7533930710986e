-- ===== src/Core/Mesh/Glare.antt =====
-- The glare rule of apps/companion-core/src/mesh.rs: of two peers, the one with the smaller id
-- offers.
use rdoc_sacompanion.Base.{
  ℕ, ◌+◌, String, eq_refl, ◌≡◌, ◌≢◌, refl, sym, ◌∙◌, ap, Bool, true, false, not, ◌||◌, some, List,
  [], ◌∷◌, ◌++◌, arith, if◌then◌else◌, Bool-cases, Option-cases, inl, inr, is_some,
}
use rdoc_sacompanion.Dict.{get, insert, update, get-insert}
use rdoc_sacompanion.Text.{str_lt}
use rdoc_sacompanion.Text.Order.{str_lt_total}
use rdoc_sacompanion.Protocol.{ClientMsg}
use rdoc_sacompanion.Core.Mesh.{
  Webrtc, PeerConn, Effect, opened, send, Mesh, Outcome, finish, ◌then_do◌, ensure, open_peer,
  offer, offer_on, on_peer, new_conn,
}

-- The library's calls succeed.
pub record Works (lib : Webrtc) : Type 0 where
  pub opens : (pc : ℕ) → lib.opens pc ≡ true
  pub adds_track : (pc : ℕ) → lib.adds_track pc ≡ true
  pub opens_channel : (pc : ℕ) → lib.opens_channel pc ≡ true
  pub offers : (pc : ℕ) → is_some (lib.offers pc) ≡ true

abbrev is_offer : Effect → Bool
is_offer (send (ClientMsg.offer to sdp)) = true
is_offer _ = false

-- Whether an offer is among the effects.
abbrev pub has_offer : List Effect → Bool
has_offer [] = false
has_offer (e ∷ es) = is_offer e || has_offer es

module _ (lib : Webrtc) (works : Works lib) where
  pub offer-lem :
      (peer : String) (p : PeerConn) (m : Mesh)
      → get peer m.peers ≡ some p
      → (sdp : String) × (offer lib peer m
          ≡ finish
              (record m { peers = update peer (λ q. record q { chat = true }) m.peers })
              (send (ClientMsg.offer peer sdp) ∷ []))
  unfolding offer offer_on
  offer-lem peer p m e = elim (Option-cases (lib.offers p.pc)) [
    | inl bad ↦ absurd (ground (arith, works.offers p.pc))
    | inr (sdp, good) ↦ (sdp, rw (e, offer) (rw (works.opens_channel p.pc, good) refl))
  ]

  pub ensure-lem :
      (peer : String) (m : Mesh)
      → (p : PeerConn) × (m' : Mesh) × (es : List Effect) × (ensure lib peer m ≡ finish m' es)
        × (get peer m'.peers ≡ some p)
        × (m'.my_id ≡ m.my_id)
        × (has_offer es ≡ false)
  unfolding ensure open_peer
  ensure-lem peer m = elim (Option-cases (get peer m.peers)) [
    | inl missing ↦ (
      new_conn lib m.next_pc,
      record m { peers = insert peer (new_conn lib m.next_pc) m.peers; next_pc = m.next_pc + 1 },
      opened m.next_pc m.ice_servers ∷ [],
      rw (missing, ensure) (rw (works.opens m.next_pc, works.adds_track m.next_pc) refl),
      ground (arith, get-insert peer peer (new_conn lib m.next_pc) m.peers, eq_refl peer),
      refl,
      refl,
    )
    | inr (p, there) ↦ (p, m, [], rw (there, ensure) refl, there, refl, refl)
  ]

  abbrev decide : String → Mesh → Outcome
  decide peer m = if str_lt m.my_id peer then offer lib peer m else finish m []

  decide-offers :
      (peer : String) (p : PeerConn) (m : Mesh)
      → get peer m.peers ≡ some p
      → has_offer (decide peer m).done ≡ str_lt m.my_id peer
  decide-offers peer p m there =
      let offered = offer-lem peer p m there in
      elim (Bool-cases (str_lt m.my_id peer)) [
        | inl smaller ↦ rw (smaller, offered.1) refl
        | inr larger ↦ rw larger refl
      ]

  has_offer-append :
      (es fs : List Effect) → has_offer es ≡ false → has_offer (es ++ fs) ≡ has_offer fs
  has_offer-append [] fs h = refl
  has_offer-append (e ∷ es) fs h = ground (arith, has_offer-append es fs)

  -- A peer that is seen gets an offer exactly if its id is the larger one.
  on_peer-offers :
      (peer : String) (m : Mesh) → has_offer (on_peer lib peer m).done ≡ str_lt m.my_id peer
  unfolding on_peer
  on_peer-offers peer m =
      let (p, m', es, made, there, same_id, silent) = ensure-lem peer m in
      ap (λ o. has_offer (o then_do decide peer).done) made
      ∙ has_offer-append es (decide peer m').done silent
      ∙ decide-offers peer p m' there
      ∙ ap (λ id. str_lt id peer) same_id

-- No glare: where two peers with different ids see each other, and the library's calls succeed,
-- exactly one of them sends an offer, whatever connections they already have.
pub on_peer-one_offers :
    (lib : Webrtc) (a b : Mesh)
    → Works lib
    → a.my_id ≢ b.my_id
    → has_offer (on_peer lib b.my_id a).done ≡ not (has_offer (on_peer lib a.my_id b).done)
on_peer-one_offers lib a b works differ =
    on_peer-offers lib works b.my_id a
    ∙ str_lt_total a.my_id b.my_id differ
    ∙ ap not (sym (on_peer-offers lib works a.my_id b))
