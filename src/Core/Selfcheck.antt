-- ===== src/Core/Selfcheck.antt =====
-- apps/companion-core/src/selfcheck.rs: two peer connections in one process, a ping and its echo. What
-- the WebRTC library answers is a parameter.
pub mod Echo
use rdoc_sacompanion.Base.{
  ℕ, zero, suc, ◌-◌, String, Bool, true, false, ◌&&◌, ◌||◌, Option, none, some, List, [], ◌∷◌, ltb,
  is_some, unwrap_or, if◌then◌else◌, ◌>>=◌,
}
use rdoc_sacompanion.Text.{split_once_tail, trim}
use rdoc_sacompanion.Core.Signaling.{server_url_ok}

pub record SelfCheck : Type 0 where
  pub signaling : Bool
  pub can_send : Bool
  pub can_receive : Bool
  pub stun : Bool

-- What happens between two polls: the channel opens, and a message arrives at either end.
pub data Event : Type 0 where
  opened : Event
  at_b : Event
  at_a : Event

-- The library's answers up to the exchange of descriptions, and what happens in each 200 ms after
-- it. A description is `none` where the library has none.
pub record Library : Type 0 where
  pub builds_api : Bool
  pub opens_a : Bool
  pub opens_b : Bool
  pub opens_channel : Bool
  pub offers : Bool
  pub full_offer : Option String
  pub b_accepts : Bool
  pub answers : Bool
  pub full_answer : Option String
  pub a_accepts : Bool
  pub between : ℕ → List Event

-- The two flags, and the messages under way in each direction.
pub record Link : Type 0 where
  pub b_recv : Bool
  pub a_recv : Bool
  pub pings : ℕ
  pub pongs : ℕ

abbrev pub new_link : Link
new_link = record { b_recv = false; a_recv = false; pings = 0; pongs = 0 }

-- The callbacks. The library delivers only what was sent.
unfoldable pub on_event : Event → Link → Link
on_event opened l = record l { pings = suc l.pings }
on_event at_b l =
    if ltb 0 l.pings
    then record l { b_recv = true; pings = l.pings - 1; pongs = suc l.pongs }
    else l
on_event at_a l = if ltb 0 l.pongs then record l { a_recv = true; pongs = l.pongs - 1 } else l

abbrev pub on_events : List Event → Link → Link
on_events [] l = l
on_events (e ∷ es) l = on_events es (on_event e l)

-- `for _ in 0..40 { if a_recv { break; } sleep }`, from the turn `n` on.
unfoldable pub poll : (turns n : ℕ) → (ℕ → List Event) → Link → Link
poll zero n between l = l
poll (suc turns) n between l =
    let rest = poll turns (suc n) between (on_events (between n) l) in if l.a_recv then l else rest

unfoldable pub sdp_has_srflx : String → Bool
sdp_has_srflx sdp = is_some (split_once_tail "typ srflx" sdp)

-- `b?` on a call without a value.
abbrev check : Bool → Option Bool
check b = if b then some b else none

-- The calls up to `a.set_remote_description`: the two descriptions.
unfoldable pub exchange : Library → Option (String × String)
exchange lib = do
  _ ← check lib.builds_api
  _ ← check lib.opens_a
  _ ← check lib.opens_b
  _ ← check lib.opens_channel
  _ ← check lib.offers
  offer ← lib.full_offer
  _ ← check lib.b_accepts
  _ ← check lib.answers
  answer ← lib.full_answer
  _ ← check lib.a_accepts
  some (offer, answer)

unfoldable pub webrtc_loopback : Library → Option (Bool × Bool × Bool)
webrtc_loopback lib = elim (exchange lib) [
  | none ↦ none
  | some (offer, answer) ↦
      let l = poll 40 0 lib.between new_link in
      some (l.b_recv, l.a_recv, sdp_has_srflx offer || sdp_has_srflx answer)
]

-- `run`: whether the signaling server answered, and the loopback.
unfoldable pub run : (signaling : Bool) → Library → SelfCheck
run signaling lib =
    let (can_send, can_receive, stun) = unwrap_or (webrtc_loopback lib) (false, false, false) in
    record { signaling = signaling; can_send = can_send; can_receive = can_receive; stun = stun }

-- The command `net_selfcheck` of apps/companion/src-tauri/src/main.rs; `reaches` is whether a
-- connection to this URL succeeds.
unfoldable pub net_selfcheck :
    (reaches : String → Bool) → Library → (server : String) → Option SelfCheck
net_selfcheck reaches lib server =
    if server_url_ok (trim server) then some (run (reaches (trim server)) lib) else none
