-- ===== src/Core/Mesh/Pair.antt =====
-- Two meshes of apps/companion-core/src/mesh.rs that see each other, from the first offer to the
-- answer.
use mathlib.Core.List.{append_assoc}
use rdoc_sacompanion.Base.{
  ℕ, String, eq_refl, ◌≡◌, refl, sym, ◌∙◌, ap, subst, true, Option, none, some, List, [], ◌∷◌, ◌++◌,
  arith, if◌then◌else◌, Option-cases, Bool-cases, inl, inr, is_some, ◌>>=◌,
}
use rdoc_sacompanion.Dict.{get, update, get-update}
use rdoc_sacompanion.Text.{str_lt}
use rdoc_sacompanion.Protocol.{ClientMsg}
use rdoc_sacompanion.Core.Mesh.{
  Webrtc, PeerConn, Effect, send, set_remote, added_candidate, add_candidates, add_candidate,
  open_peer, Mesh, Outcome, finish, ◌then_do◌, ensure, offer, on_peer, renew, drop_peer,
  set_remote_and_flush, flushed, flush_ice, answer_on, accept_offer, on_offer, on_answer,
}
use rdoc_sacompanion.Core.Mesh.Glare.{Works, ensure-lem, offer-lem}

-- The first offer, and the first answer, among the effects.
abbrev offer_in : Effect → Option String
offer_in (send (ClientMsg.offer to sdp)) = some sdp
offer_in _ = none

abbrev answer_in : Effect → Option String
answer_in (send (ClientMsg.answer to sdp)) = some sdp
answer_in _ = none

abbrev first : (Effect → Option String) → List Effect → Option String
first f [] = none
first f (e ∷ es) = elim (f e) [ some sdp ↦ some sdp | none ↦ first f es ]

-- Both see the other; the offer of `a` reaches `b`, and the answer of `b` reaches `a`.
abbrev pub meet : Webrtc → (a b : Mesh) → Option (Mesh × Mesh)
meet lib a b = do
  let seen_a = on_peer lib b.my_id a
  let seen_b = on_peer lib a.my_id b
  offer ← first offer_in seen_a.done
  let offered = on_offer lib a.my_id offer seen_b.state
  answer ← first answer_in offered.done
  some ((on_answer lib b.my_id answer seen_a.state).state, offered.state)

-- A connection to this peer whose remote description is set.
abbrev pub IsLinked : String → Mesh → Type 0
IsLinked id m = (p : PeerConn) × (get id m.peers ≡ some p) × (p.remote_set ≡ true)

-- The calls that make a connection succeed, up to its remote description.
pub record Completes (lib : Webrtc) : Type 0 where
  pub works : Works lib
  pub answers : (pc : ℕ) → is_some (lib.answers pc) ≡ true
  pub accepts : (pc : ℕ) (sdp : String) → lib.accepts_remote pc sdp ≡ true

first-append :
    (f : Effect → Option String) (es fs : List Effect)
    → first f es ≡ none
    → first f (es ++ fs) ≡ first f fs
first-append f [] fs h = refl
first-append f (e ∷ es) fs h = ground (arith, first-append f es fs)

then_do_of_ok :
    (o : Outcome) (f : Mesh → Outcome)
    → o.ok ≡ true
    → (o then_do f) ≡ record (f o.state) { done = o.done ++ (f o.state).done }
then_do_of_ok o f good =
    ap (λ b. if b then record (f o.state) { done = o.done ++ (f o.state).done } else o) good

module _ (lib : Webrtc) (done : Completes lib) where
  set_remote-lem :
      (peer sdp : String) (p : PeerConn) (m : Mesh)
      → set_remote_and_flush lib peer sdp p m
        ≡ finish (flushed lib peer p m) (set_remote p.pc sdp ∷ (flush_ice lib p).1)
  unfolding set_remote_and_flush
  set_remote-lem peer sdp p m = rw (done.accepts p.pc sdp) refl

  flushed-IsLinked :
      (peer : String) (p : PeerConn) (m : Mesh)
      → get peer m.peers ≡ some p
      → IsLinked peer (flushed lib peer p m)
  unfolding flushed flush_ice
  flushed-IsLinked peer p m there = (
    record p { remote_set = true; pending_ice = [] },
    ground (arith, get-update peer peer (λ q. (flush_ice lib q).0) m.peers, eq_refl peer, there),
    refl,
  )

  on_answer-IsLinked :
      (from sdp : String) (p : PeerConn) (m : Mesh)
      → get from m.peers ≡ some p
      → IsLinked from (on_answer lib from sdp m).state
  unfolding on_answer
  on_answer-IsLinked from sdp p m there =
      rw (there, on_answer) (rw (set_remote-lem from sdp p m) (flushed-IsLinked from p m there))

  accept_offer-lem :
      (from sdp : String) (p : PeerConn) (m : Mesh)
      → get from m.peers ≡ some p
      → (answer : String) × (accept_offer lib from sdp m
          ≡ finish (flushed lib from p m) (
              (set_remote p.pc sdp ∷ (flush_ice lib p).1)
              ++ send (ClientMsg.answer from answer) ∷ []))
  unfolding accept_offer answer_on
  accept_offer-lem from sdp p m there = elim (Option-cases (lib.answers p.pc)) [
    | inl bad ↦ absurd (ground (arith, done.answers p.pc))
    | inr (answer, good) ↦ (
      answer,
      rw (there, accept_offer) (rw (set_remote-lem from sdp p m) (rw (good, answer_on) refl)),
    )
  ]

  add_candidates-first :
      (f : Effect → Option String) (pc : ℕ) (cs : List String)
      → ((pc : ℕ) (c : String) → f (added_candidate pc c) ≡ none)
      → first f (add_candidates lib pc cs) ≡ none
  unfolding add_candidates add_candidate
  add_candidates-first f pc [] quiet = refl
  add_candidates-first f pc (c ∷ cs) quiet = elim (Bool-cases (lib.parses_candidate c)) [
    | inl parsed ↦ rw parsed (rw (quiet pc c, first) (add_candidates-first f pc cs quiet))
    | inr dropped ↦ rw dropped (add_candidates-first f pc cs quiet)
  ]

  renew-ok : (peer : String) (p : Option PeerConn) (m : Mesh) → (renew lib peer p m).ok ≡ true
  unfolding renew drop_peer
  renew-ok peer none m = refl
  renew-ok peer (some p) m = ground arith

  renew-answer :
      (peer : String) (p : Option PeerConn) (m : Mesh)
      → first answer_in (renew lib peer p m).done ≡ none
  unfolding renew drop_peer
  renew-answer peer none m = refl
  renew-answer peer (some p) m = ground arith

  ensure-first :
      (peer : String) (m : Mesh)
      → (first answer_in (ensure lib peer m).done ≡ none)
        × (first offer_in (ensure lib peer m).done ≡ none)
  unfolding ensure open_peer
  ensure-first peer m = ground arith

  on_offer-lem :
      (from sdp : String) (m : Mesh)
      → (p : PeerConn) × (m' : Mesh) × (answer : String) × (before : List Effect) × (on_offer lib
            from sdp m
          ≡ finish (flushed lib from p m') (before ++ send (ClientMsg.answer from answer) ∷ []))
        × (get from m'.peers ≡ some p)
        × (first answer_in before ≡ none)
  unfolding on_offer
  on_offer-lem from sdp m =
      let renewed = renew lib from (get from m.peers) m in
      let good = renew-ok from (get from m.peers) m in
      let (p, m', es, made, there, same, silent) = ensure-lem lib done.works from renewed.state in
      let (answer, accepted) = accept_offer-lem from sdp p m' there in
      let head = renewed.done ++ es in
      let body = set_remote p.pc sdp ∷ (flush_ice lib p).1 in
      let tail = send (ClientMsg.answer from answer) ∷ [] in
      let ensured : (renewed then_do ensure lib from) ≡ finish m' head =
        then_do_of_ok renewed (ensure lib from) good
        ∙ ap (λ (o : Outcome). record o { done = renewed.done ++ o.done }) made in
      let es_quiet : first answer_in es ≡ none =
        ap (λ (o : Outcome). first answer_in o.done) (sym made)
        ∙ (ensure-first from renewed.state).0 in
      (
        p,
        m',
        answer,
        head ++ body,
        ap (λ o. o then_do accept_offer lib from sdp) ensured
            ∙ ap (λ (o : Outcome). record o { done = head ++ o.done }) accepted
            ∙ ap (finish (flushed lib from p m')) (sym (append_assoc head body tail)),
        there,
        first-append answer_in head body (
              first-append answer_in renewed.done es (renew-answer from (get from m.peers) m)
              ∙ es_quiet)
            ∙ add_candidates-first answer_in p.pc p.pending_ice (λ pc c. refl),
      )

  on_peer_smaller :
      (peer : String) (m : Mesh)
      → str_lt m.my_id peer ≡ true
      → (p : PeerConn) × (sdp : String) × (get peer (on_peer lib peer m).state.peers ≡ some p)
        × (first offer_in (on_peer lib peer m).done ≡ some sdp)
  unfolding on_peer
  on_peer_smaller peer m smaller =
      let (p, m', es, made, there, same, silent) = ensure-lem lib done.works peer m in
      let (sdp, offered) = offer-lem lib done.works peer p m' there in
      let chats : PeerConn → PeerConn = λ q. record q { chat = true } in
      let after : Mesh = record m' { peers = update peer chats m'.peers } in
      let tail = send (ClientMsg.offer peer sdp) ∷ [] in
      let decides : (if str_lt m'.my_id peer then offer lib peer m' else finish m' [])
          ≡ finish after tail =
        ap (λ b. if b then offer lib peer m' else finish m' [])
          (ap (λ id. str_lt id peer) same ∙ smaller)
        ∙ offered in
      let whole : on_peer lib peer m ≡ finish after (es ++ tail) =
        ap (λ o. o then_do λ n. if str_lt n.my_id peer then offer lib peer n else finish n []) made
        ∙ ap (λ (o : Outcome). record o { done = es ++ o.done }) decides in
      let quiet : first offer_in es ≡ none =
        ap (λ (o : Outcome). first offer_in o.done) (sym made) ∙ (ensure-first peer m).1 in
      (
        chats p,
        sdp,
        ap (λ (o : Outcome). get peer o.state.peers) whole
            ∙ ground (arith, get-update peer peer chats m'.peers, eq_refl peer, there),
        ap (λ (o : Outcome). first offer_in o.done) whole ∙ first-append offer_in es tail quiet,
      )

-- Where the library's calls succeed: two peers who see each other, whatever connections to each
-- other they had before, come to a connection with its remote description set on both sides, by one
-- offer and one answer.
pub meet-IsLinked :
    (lib : Webrtc) (a b : Mesh)
    → Completes lib
    → str_lt a.my_id b.my_id ≡ true
    → (a' b' : Mesh) × (meet lib a b ≡ some (a', b')) × IsLinked b.my_id a' × IsLinked a.my_id b'
meet-IsLinked lib a b done smaller =
    let (p, offer_sdp, has_b, offered) = on_peer_smaller lib done b.my_id a smaller in
    let seen_a = on_peer lib b.my_id a in
    let seen_b = on_peer lib a.my_id b in
    let (q, m', answer, before, shape, has_a, quiet) =
      on_offer-lem lib done a.my_id offer_sdp seen_b.state in
    let answered : first answer_in (on_offer lib a.my_id offer_sdp seen_b.state).done
        ≡ some answer =
      ap (λ (o : Outcome). first answer_in o.done) shape
      ∙ first-append answer_in before (send (ClientMsg.answer a.my_id answer) ∷ []) quiet in
    (
      (on_answer lib b.my_id answer seen_a.state).state,
      (on_offer lib a.my_id offer_sdp seen_b.state).state,
      rw (offered, ◌>>=◌) (rw (answered, ◌>>=◌) refl),
      on_answer-IsLinked lib done b.my_id answer p seen_a.state has_b,
      subst (IsLinked a.my_id) (ap Outcome.state (sym shape))
          (flushed-IsLinked lib done a.my_id q m' has_a),
    )
