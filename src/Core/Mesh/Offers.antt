-- ===== src/Core/Mesh/Offers.antt =====
-- To whom `on_peer` of apps/companion-core/src/mesh.rs sends an offer.
use rdoc_sacompanion.Base.{
  String, ◌==◌, ◌≡◌, refl, ◌∙◌, ap, true, false, ◌&&◌, List, [], ◌∷◌, ◌++◌, arith, if◌then◌else◌,
  Bool-cases, inl, inr,
}
use rdoc_sacompanion.Dict.{update}
use rdoc_sacompanion.Text.{str_lt}
use rdoc_sacompanion.Protocol.{ClientMsg}
use rdoc_sacompanion.Core.Mesh.{
  Webrtc, Effect, send, Mesh, Outcome, finish, ◌then_do◌, offer, on_peer,
}
use rdoc_sacompanion.Core.Mesh.Glare.{Works, has_offer, ensure-lem, offer-lem}
use rdoc_sacompanion.Core.Mesh.Rekey.{offers_to, offers_to-append}

offers_to_silent : (id : String) (es : List Effect) → has_offer es ≡ false → offers_to id es ≡ 0
offers_to_silent id [] h = refl
offers_to_silent id (send (ClientMsg.offer to sdp) ∷ es) h = absurd (ground (arith, h))
offers_to_silent id (_ ∷ es) h = omega (arith, offers_to_silent id es h)

-- What a call of `on_peer` leaves and does.
pub record Seen (peer : String) (m : Mesh) (o : Outcome) : Type 0 where
  pub same_id : o.state.my_id ≡ m.my_id
  pub offers :
      (id : String) → offers_to id o.done ≡ (if peer == id && str_lt m.my_id peer then 1 else 0)

module _ (lib : Webrtc) (works : Works lib) where
  pub on_peer-Seen : (peer : String) (m : Mesh) → Seen peer m (on_peer lib peer m)
  unfolding on_peer
  on_peer-Seen peer m =
      let (p, m', es, made, there, same, silent) = ensure-lem lib works peer m in
      let (sdp, offered) = offer-lem lib works peer p m' there in
      let decide : Mesh → Outcome =
        λ n. if str_lt n.my_id peer then offer lib peer n else finish n [] in
      let start : on_peer lib peer m ≡ (finish m' es then_do decide) =
        ap (λ o. o then_do decide) made in
      let same_test : str_lt m'.my_id peer ≡ str_lt m.my_id peer = ap (λ me. str_lt me peer) same in
      let nothing : (id : String) → offers_to id es ≡ 0 = λ id. offers_to_silent id es silent in
      elim (Bool-cases (str_lt m.my_id peer)) [
        | inl smaller ↦
            let tail = send (ClientMsg.offer peer sdp) ∷ [] in
            let after : Mesh = record m' {
              peers = update peer (λ q. record q { chat = true }) m'.peers;
            } in
            let decides : decide m' ≡ finish after tail =
              ap (λ b. if b then offer lib peer m' else finish m' []) (same_test ∙ smaller)
              ∙ offered in
            let whole : on_peer lib peer m ≡ finish after (es ++ tail) =
              start ∙ ap (λ (o : Outcome). record o { done = es ++ o.done }) decides in
            record {
              same_id = ap (λ (o : Outcome). o.state.my_id) whole ∙ same;
              offers = λ id.
                  ap (λ (o : Outcome). offers_to id o.done) whole
                  ∙ offers_to-append id es tail
                  ∙ ground (arith, nothing id, smaller);
            }
        | inr larger ↦
            let decides : decide m' ≡ finish m' [] =
              ap (λ b. if b then offer lib peer m' else finish m' []) (same_test ∙ larger) in
            let whole : on_peer lib peer m ≡ finish m' (es ++ []) =
              start ∙ ap (λ (o : Outcome). record o { done = es ++ o.done }) decides in
            record {
              same_id = ap (λ (o : Outcome). o.state.my_id) whole ∙ same;
              offers = λ id.
                  ap (λ (o : Outcome). offers_to id o.done) whole
                  ∙ offers_to-append id es []
                  ∙ ground (arith, nothing id, larger);
            }
      ]
