-- ===== src/Core/Selfcheck/Echo.antt =====
-- What the self-check's answers say about each other.
use rdoc_sacompanion.Base.{
  ℕ, zero, suc, ◌<◌, String, ◌≡◌, refl, Bool, true, false, ◌||◌, Option, none, some, List, [], ◌∷◌,
  arith, ltb, is_some, unwrap_or, Bool-cases, inl, inr,
}
use rdoc_sacompanion.Core.Selfcheck.{
  Event, Library, Link, new_link, on_event, on_events, poll, exchange, webrtc_loopback, run,
  sdp_has_srflx,
}

-- No echo before the ping.
record IsCausal (l : Link) : Type 0 where
  echo : 0 < l.pongs → l.b_recv ≡ true
  back : l.a_recv ≡ true → l.b_recv ≡ true

on_event-IsCausal : (e : Event) (l : Link) → IsCausal l → IsCausal (on_event e l)
unfolding on_event
on_event-IsCausal Event.opened l c = record { echo = c.echo; back = c.back }
on_event-IsCausal Event.at_b l c = elim (Bool-cases (ltb 0 l.pings)) [
  | inl e ↦ rw e (record { echo = λ h. refl; back = λ h. refl })
  | inr e ↦ rw e c
]
on_event-IsCausal Event.at_a l c = elim (Bool-cases (ltb 0 l.pongs)) [
  | inl e ↦ rw e (record { echo = λ h. c.echo (omega arith); back = λ h. c.echo (ground arith) })
  | inr e ↦ rw e c
]

on_events-IsCausal : (es : List Event) (l : Link) → IsCausal l → IsCausal (on_events es l)
on_events-IsCausal [] l c = c
on_events-IsCausal (e ∷ es) l c = on_events-IsCausal es (on_event e l) (on_event-IsCausal e l c)

poll-IsCausal :
    (turns n : ℕ) (between : ℕ → List Event) (l : Link)
    → IsCausal l
    → IsCausal (poll turns n between l)
unfolding poll
poll-IsCausal zero n between l c = c
poll-IsCausal (suc turns) n between l c = elim (Bool-cases l.a_recv) [
  | inl e ↦ simp e c
  | inr e ↦ simp e (
      poll-IsCausal turns (suc n) between (on_events (between n) l)
        (on_events-IsCausal (between n) l c))
]

answers : (lib : Library) → Option (String × String) → Option (Bool × Bool × Bool)
answers lib none = none
answers lib (some (offer, answer)) =
    let l = poll 40 0 lib.between new_link in
    some (l.b_recv, l.a_recv, sdp_has_srflx offer || sdp_has_srflx answer)

webrtc_loopback-answers : (lib : Library) → webrtc_loopback lib ≡ answers lib (exchange lib)
unfolding webrtc_loopback answers
webrtc_loopback-answers lib = refl

-- The self-check claims that the user can receive only if it claims that he can send, and both or
-- the reach of STUN only if the two connections came to terms.
pub run-consistent :
    (signaling : Bool) (lib : Library)
    → let r = run signaling lib in
      (r.can_receive ≡ true → r.can_send ≡ true)
      × ((r.can_send || r.stun) ≡ true → is_some (exchange lib) ≡ true)
unfolding run answers
run-consistent signaling lib = rw (webrtc_loopback-answers lib) (consistent (exchange lib))
  where
    consistent :
        (sdps : Option (String × String))
        → let (can_send, can_receive, stun) = unwrap_or (answers lib sdps) (false, false, false) in
          (can_receive ≡ true → can_send ≡ true) × ((can_send || stun) ≡ true → is_some sdps ≡ true)
    consistent none = (λ h. h, λ h. h)
    consistent (some sdps) = (
      (poll-IsCausal 40 0 lib.between new_link
          (record { echo = λ h. absurd (omega arith); back = λ h. h })).back,
      λ h. refl,
    )
