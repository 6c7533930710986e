-- ===== src/Core/Mesh/Stalled.antt =====
-- The rotation of all keys of apps/companion-core/src/mesh.rs where the library makes no connection.
use rdoc_sacompanion.Base.{
  ℕ, String, eq_iff, eq_refl, ◌≡◌, ◌≢◌, refl, ap, ◌∙◌, false, Option, none, some, List, [], ◌∷◌,
  arith, map, Bool-cases, inl, inr,
}
use rdoc_sacompanion.Dict.{get, remove, get-remove}
use rdoc_sacompanion.Text.{str_lt}
use rdoc_sacompanion.Core.Mesh.{
  Webrtc, makes_conn, PeerConn, Mesh, ◌then_do◌, open_peer, ensure, on_peer, drop_peer, rekey_peer,
  rekey_all, rekey, key,
}

module _ (lib : Webrtc) (refuses : (pc : ℕ) → makes_conn lib pc ≡ false) where
  on_peer_refused :
      (peer : String) (m : Mesh)
      → get peer m.peers ≡ none
      → ((on_peer lib peer m).ok ≡ false) × ((on_peer lib peer m).state.peers ≡ m.peers)
  unfolding on_peer ensure open_peer
  on_peer_refused peer m missing = elim (Bool-cases (lib.opens m.next_pc)) [
    | inl opened ↦
        let no_track : lib.adds_track m.next_pc ≡ false = ground (arith, refuses m.next_pc) in
        rw (missing, on_peer) (rw (opened, no_track) (refl, refl))
    | inr closed ↦ rw (missing, on_peer) (rw closed (refl, refl))
  ]

  -- The old connection goes, and no new one comes.
  lost-lem :
      (peer : String) (m : Mesh) (old : Option PeerConn)
      → get peer m.peers ≡ old
      → ((drop_peer lib peer old m then_do on_peer lib peer).ok ≡ false)
        × ((id : String)
            → peer ≢ id
            → get id (drop_peer lib peer old m then_do on_peer lib peer).state.peers
              ≡ get id m.peers)
  unfolding drop_peer
  lost-lem peer m none is =
      let refused = on_peer_refused peer m is in (refused.0, λ id differs. ap (get id) refused.1)
  lost-lem peer m (some p) is =
      let rest = record m { peers = remove peer m.peers } in
      let gone : get peer rest.peers ≡ none =
        ground (arith, get-remove peer peer m.peers, eq_refl peer) in
      let refused = on_peer_refused peer rest gone in
      (
        refused.0,
        λ id differs.
            ap (get id) refused.1
            ∙ ground (arith, get-remove peer id m.peers, eq_iff peer id, differs),
      )

  rekey_all-stalled :
      (ids : List String) (m : Mesh)
      → (lost : String) × ((id : String)
          → lost ≢ id
          → get id (rekey_all lib ids m).state.peers ≡ get id m.peers)
  unfolding rekey_all rekey_peer
  rekey_all-stalled [] m = ("", λ id differs. refl)
  rekey_all-stalled (k ∷ ks) m = elim (Bool-cases (str_lt m.my_id k)) [
    | inl smaller ↦
        let (stops, others) = lost-lem k m (get k m.peers) refl in
        (k, rw (smaller, rekey_all) (λ id differs. rw stops (others id differs)))
    | inr larger ↦ rw (larger, rekey_all) (rekey_all-stalled ks m)
  ]

  -- At most one peer is touched.
  pub rekey-stalled :
      (m : Mesh)
      → (lost : String) × ((id : String)
          → lost ≢ id
          → get id (rekey lib m).state.peers ≡ get id m.peers)
  unfolding rekey
  rekey-stalled m = rekey_all-stalled (map (key lib) m.peers) m
