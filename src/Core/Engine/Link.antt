-- ===== src/Core/Engine/Link.antt =====
-- What the loop of `start` in apps/companion-core/src/lib.rs keeps while the signaling link goes
-- down and up again.
use rdoc_sacompanion.Base.{
  ℕ, ◌≤◌, ◌≡◌, refl, sym, subst, ap, Bool, true, false, not, List, [], ◌∷◌, arith, if◌then◌else◌,
  is_some, Bool-cases, inl, inr,
}
use rdoc_sacompanion.Dict.{Dict}
use rdoc_sacompanion.Dict.Distinct.{
  DistinctKeys, insert-DistinctKeys, remove-DistinctKeys, update-DistinctKeys,
}
use rdoc_sacompanion.Protocol.{PeerInfo, ServerMsg}
use rdoc_sacompanion.Core.Engine.{
  EngineConfig, Member, Effect, Cmd, toggle_tx, set_tx, reconnect, MeshEvent, Event, uplink,
  retry_ok, retry_failed, server_msg, server_gone, mesh_event, command, handle_dropped, Engine,
  u32_max, next_generation, next_backoff, collect_members, transmit_now, same, resumed,
  on_server_msg, on_retry_failed, on_retry_ok, on_server_gone, on_cmd, on_mesh_event, step,
  is_ready, run, entered,
}
use rdoc_sacompanion.Core.Engine.Pace.{IsPaced, step-IsPaced}

-- The loop's invariant.
pub record IsValid (s : Engine) : Type 0 where
  pub same_link : s.uplinked ≡ s.link
  pub armed : is_some s.next_try ≡ not s.link
  pub backoff_low : 2 ≤ s.backoff
  pub backoff_high : s.backoff ≤ 30
  pub generation : s.key_gen ≤ u32_max
  pub distinct : DistinctKeys s.members

collect_members-DistinctKeys :
    (ps : List PeerInfo) (m : Dict Member) → DistinctKeys m → DistinctKeys (collect_members ps m)
unfolding collect_members
collect_members-DistinctKeys [] m d = d
collect_members-DistinctKeys (p ∷ ps) m d =
    collect_members-DistinctKeys ps _ (insert-DistinctKeys p.user_id _ m d)

with_members :
    {s : Engine} (m : Dict Member) → IsValid s → DistinctKeys m → IsValid (record s { members = m })
with_members m i d = record {
  same_link = i.same_link;
  armed = i.armed;
  backoff_low = i.backoff_low;
  backoff_high = i.backoff_high;
  generation = i.generation;
  distinct = d;
}

on_server_msg-IsValid :
    (cfg : EngineConfig) (msg : ServerMsg) (s : Engine)
    → IsValid s
    → IsValid (on_server_msg cfg msg s).0
unfolding on_server_msg next_generation
on_server_msg-IsValid cfg (ServerMsg.roster peers) s i =
    with_members _ i (collect_members-DistinctKeys peers [] tt)
on_server_msg-IsValid cfg (ServerMsg.peer_joined user_id name) s i =
    with_members _ i (insert-DistinctKeys user_id _ s.members i.distinct)
on_server_msg-IsValid cfg (ServerMsg.peer_left user_id) s i =
    with_members _ i (remove-DistinctKeys user_id s.members i.distinct)
on_server_msg-IsValid cfg (ServerMsg.offer from sdp) s i = i
on_server_msg-IsValid cfg (ServerMsg.answer from sdp) s i = i
on_server_msg-IsValid cfg (ServerMsg.ice from candidate) s i = i
on_server_msg-IsValid cfg (ServerMsg.ptt user_id active) s i =
    with_members _ i (update-DistinctKeys user_id _ s.members i.distinct)
on_server_msg-IsValid cfg (ServerMsg.rekey by) s i = record {
  same_link = i.same_link;
  armed = i.armed;
  backoff_low = i.backoff_low;
  backoff_high = i.backoff_high;
  generation = ground arith;
  distinct = i.distinct;
}
on_server_msg-IsValid cfg (ServerMsg.turn t) s i = i
on_server_msg-IsValid cfg (ServerMsg.warn size cap) s i = i
on_server_msg-IsValid cfg (ServerMsg.room_full cap) s i = record {
  same_link = i.same_link;
  armed = i.armed;
  backoff_low = i.backoff_low;
  backoff_high = i.backoff_high;
  generation = i.generation;
  distinct = i.distinct;
}
on_server_msg-IsValid cfg (ServerMsg.error code message) s i = i

transmit_now-IsValid :
    (cfg : EngineConfig) (on : Bool) (s : Engine) → IsValid s → IsValid (transmit_now cfg on s).0
unfolding transmit_now
transmit_now-IsValid cfg on s i = record {
  same_link = i.same_link;
  armed = i.armed;
  backoff_low = i.backoff_low;
  backoff_high = i.backoff_high;
  generation = i.generation;
  distinct = i.distinct;
}

if-IsValid :
    (b : Bool) (r r' : Engine × List Effect)
    → IsValid r.0
    → IsValid r'.0
    → IsValid (if b then r else r').0
if-IsValid true r r' i i' = i
if-IsValid false r r' i i' = i'

on_cmd-IsValid :
    (cfg : EngineConfig) (now : ℕ) (cmd : Cmd) (s : Engine)
    → IsValid s
    → IsValid (on_cmd cfg now cmd s).0
unfolding on_cmd
on_cmd-IsValid cfg now toggle_tx s i = transmit_now-IsValid cfg (not s.transmit) s i
on_cmd-IsValid cfg now (set_tx on) s i =
    if-IsValid (same s.transmit on) (s, []) (transmit_now cfg on s) i
      (transmit_now-IsValid cfg on s i)
on_cmd-IsValid cfg now (Cmd.chat text) s i = i
on_cmd-IsValid cfg now Cmd.rekey s i = i
on_cmd-IsValid cfg now reconnect s i = elim (Bool-cases s.link) [
  | inl up ↦ subst IsValid (sym (ap (λ l. if l then s else resumed now s) up)) i
  | inr down ↦ subst IsValid (sym (ap (λ l. if l then s else resumed now s) down)) (record {
    same_link = i.same_link;
    armed = ground (arith, i.armed);
    backoff_low = omega arith;
    backoff_high = omega arith;
    generation = i.generation;
    distinct = i.distinct;
  })
]

step-IsValid :
    (cfg : EngineConfig) (ev : Event) (s : Engine)
    → is_ready ev s ≡ true
    → IsValid s
    → IsValid (step cfg ev s).0
unfolding step on_retry_ok on_retry_failed next_backoff on_server_gone on_mesh_event
step-IsValid cfg (uplink msg) s r i = i
step-IsValid cfg retry_ok s r i = record {
  same_link = refl;
  armed = refl;
  backoff_low = omega arith;
  backoff_high = omega arith;
  generation = i.generation;
  distinct = i.distinct;
}
step-IsValid cfg (retry_failed now message) s r i = record {
  same_link = i.same_link;
  armed = ground arith;
  backoff_low = ground (arith, i.backoff_low);
  backoff_high = ground (arith, i.backoff_high);
  generation = i.generation;
  distinct = i.distinct;
}
step-IsValid cfg (server_msg msg) s r i = on_server_msg-IsValid cfg msg s i
step-IsValid cfg (server_gone now) s r i = record {
  same_link = refl;
  armed = refl;
  backoff_low = omega arith;
  backoff_high = omega arith;
  generation = i.generation;
  distinct = i.distinct;
}
step-IsValid cfg (mesh_event (MeshEvent.chat from text)) s r i = i
step-IsValid cfg (mesh_event (MeshEvent.badge peer kind)) s r i =
    with_members _ i (update-DistinctKeys peer _ s.members i.distinct)
step-IsValid cfg (command now cmd) s r i = on_cmd-IsValid cfg now cmd s i
step-IsValid cfg handle_dropped s r i = record {
  same_link = i.same_link;
  armed = i.armed;
  backoff_low = i.backoff_low;
  backoff_high = i.backoff_high;
  generation = i.generation;
  distinct = i.distinct;
}

choose :
    (b c : Bool) (later skipped s : Engine)
    → (c ≡ true → IsValid later)
    → IsValid skipped
    → IsValid s
    → IsValid (if b then if c then later else skipped else s)
choose false c later skipped s l k i = i
choose true true later skipped s l k i = l refl
choose true false later skipped s l k i = k

run-keeps :
    (cfg : EngineConfig) (evs : List Event) (s : Engine) → IsValid s → IsValid (run cfg evs s)
unfolding run
run-keeps cfg [] s i = i
run-keeps cfg (ev ∷ evs) s i =
    choose s.running (is_ready ev s) _ _ s
      (λ ready. run-keeps cfg evs _ (step-IsValid cfg ev s ready i)) (run-keeps cfg evs s i) i

-- Whatever events come after the loop is entered: the writing end is there exactly while the
-- reading end is; an attempt to reconnect is scheduled exactly while the link is down, so a lost
-- link is never left without a next attempt; the variable `backoff` is 2 to 30; the key generation
-- fits in 32 bits; and no member is listed twice. Whatever event is taken next: behind the loss of
-- the link or a failed attempt, the next is due 2 to 30 seconds after it; the command to
-- reconnect, while the link is down, makes it due at once; an attempt that succeeds takes the time
-- away; and nothing else changes it.
pub run-IsValid :
    (cfg : EngineConfig) (evs : List Event) (ev : Event)
    → let s = run cfg evs entered in IsValid s × IsPaced ev s (step cfg ev s).0
run-IsValid cfg evs ev =
    let i = run-keeps cfg evs entered (record {
      same_link = refl;
      armed = refl;
      backoff_low = omega arith;
      backoff_high = omega arith;
      generation = omega arith;
      distinct = tt;
    }) in
    (i, step-IsPaced cfg ev (run cfg evs entered) i.backoff_low i.backoff_high)
