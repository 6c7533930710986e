-- ===== src/Core/Mesh/Ice.antt =====
-- The order in which a peer connection of apps/companion-core/src/mesh.rs gets its candidates.
use mathlib.Core.List.{append-nil, append_assoc}
use rdoc_sacompanion.Base.{
  ℕ, String, ◌≡◌, refl, sym, ◌∙◌, ap, Bool, true, false, List, [], ◌∷◌, ◌++◌, if◌then◌else◌,
}
use rdoc_sacompanion.Core.Mesh.{
  Webrtc, PeerConn, Effect, add_candidate, add_candidates, add_or_queue_ice, flush_ice,
}

-- What happens to one connection: a candidate comes, or its remote description is set.
pub data PeerEvent : Type 0 where
  candidate : String → PeerEvent
  described : PeerEvent

abbrev pub candidates_of : List PeerEvent → List String
candidates_of [] = []
candidates_of (candidate c ∷ evs) = c ∷ candidates_of evs
candidates_of (described ∷ evs) = candidates_of evs

abbrev pub is_described : List PeerEvent → Bool
is_described [] = false
is_described (candidate c ∷ evs) = is_described evs
is_described (described ∷ evs) = true

module _ (lib : Webrtc) where
  unfoldable pub peer_step : PeerEvent → PeerConn → PeerConn × List Effect
  unfolding add_or_queue_ice flush_ice
  peer_step (candidate c) p = add_or_queue_ice lib c p
  peer_step described p = flush_ice lib p

  unfoldable pub peer_run : List PeerEvent → PeerConn → PeerConn × List Effect
  unfolding peer_step
  peer_run [] p = (p, [])
  peer_run (ev ∷ evs) p =
      let here = peer_step ev p in let rest = peer_run evs here.0 in (rest.0, here.1 ++ rest.1)

  add_candidates-append :
      (pc : ℕ) (cs ds : List String)
      → add_candidates lib pc (cs ++ ds) ≡ add_candidates lib pc cs ++ add_candidates lib pc ds
  unfolding add_candidates
  add_candidates-append pc [] ds = refl
  add_candidates-append pc (c ∷ cs) ds =
      ap (λ t. add_candidate lib pc c ++ t) (add_candidates-append pc cs ds)
      ∙ sym (
          append_assoc (add_candidate lib pc c) (add_candidates lib pc cs)
            (add_candidates lib pc ds))

  abbrev conn : ℕ → Bool → List String → Bool → PeerConn
  conn pc set pending chat = record {
    pc = pc;
    pending_ice = pending;
    remote_set = set;
    chat = chat;
  }

  run_described :
      (evs : List PeerEvent) (pc : ℕ) (chat : Bool)
      → peer_run evs (conn pc true [] chat)
        ≡ (conn pc true [] chat, add_candidates lib pc (candidates_of evs))
  unfolding peer_run peer_step add_or_queue_ice flush_ice add_candidates
  run_described [] pc chat = refl
  run_described (candidate c ∷ evs) pc chat = rw (run_described evs pc chat) refl
  run_described (described ∷ evs) pc chat = rw (run_described evs pc chat) refl

  run_waiting :
      (evs : List PeerEvent) (pc : ℕ) (chat : Bool) (pending : List String)
      → peer_run evs (conn pc false pending chat) ≡ (
          if is_described evs
          then (conn pc true [] chat, add_candidates lib pc (pending ++ candidates_of evs))
          else (conn pc false (pending ++ candidates_of evs) chat, []))
  unfolding peer_run peer_step add_or_queue_ice flush_ice
  run_waiting [] pc chat pending = rw (append-nil pending) refl
  run_waiting (candidate c ∷ evs) pc chat pending =
      run_waiting evs pc chat (pending ++ c ∷ [])
      ∙ rw (append_assoc pending (c ∷ []) (candidates_of evs)) refl
  run_waiting (described ∷ evs) pc chat pending =
      rw (run_described evs pc chat)
        (rw (add_candidates-append pc pending (candidates_of evs)) refl)

  -- Candidates and the remote description may come in any order: once the description is set, the
  -- library has been given every candidate that parses exactly once, in the order of their
  -- arrival; until then it has been given none and all of them wait.
  pub peer_run-in_order :
      (evs : List PeerEvent) (pc : ℕ)
      → peer_run evs (conn pc false [] false) ≡ (
          if is_described evs
          then (conn pc true [] false, add_candidates lib pc (candidates_of evs))
          else (conn pc false (candidates_of evs) false, []))
  peer_run-in_order evs pc = run_waiting evs pc false []
