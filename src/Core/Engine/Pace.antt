-- ===== src/Core/Engine/Pace.antt =====
-- When the loop of `start` in apps/companion-core/src/lib.rs tries to reconnect.
use rdoc_sacompanion.Base.{
  ℕ, ◌+◌, ◌≤◌, ◌≡◌, refl, some, none, arith, if◌then◌else◌, Bool-cases, inl, inr,
}
use rdoc_sacompanion.Protocol.{ServerMsg}
use rdoc_sacompanion.Core.Engine.{
  EngineConfig, Cmd, toggle_tx, set_tx, reconnect, MeshEvent, Event, uplink, retry_ok, retry_failed,
  server_msg, server_gone, mesh_event, command, handle_dropped, Engine, next_backoff, transmit_now,
  same, on_server_msg, on_retry_failed, on_retry_ok, on_server_gone, on_cmd, on_mesh_event, step,
}

-- The next attempt is due this many seconds after `now`.
pub record IsWaiting (now : ℕ) (s : Engine) : Type 0 where
  pub pause : ℕ
  pub at : s.next_try ≡ some (now + pause)
  pub shortest : 2 ≤ pause
  pub longest : pause ≤ 30

-- What an event does to the time of the next attempt, from the state before it to the one behind.
abbrev pub IsPaced : Event → (s s' : Engine) → Type 0
IsPaced (server_gone now) s s' = IsWaiting now s'
IsPaced (retry_failed now message) s s' = IsWaiting now s'
IsPaced (command now reconnect) s s' = s'.next_try ≡ (if s.link then s.next_try else some now)
IsPaced retry_ok s s' = s'.next_try ≡ none
IsPaced ev s s' = s'.next_try ≡ s.next_try

on_server_msg-next_try :
    (cfg : EngineConfig) (msg : ServerMsg) (s : Engine)
    → (on_server_msg cfg msg s).0.next_try ≡ s.next_try
unfolding on_server_msg
on_server_msg-next_try cfg (ServerMsg.roster peers) s = refl
on_server_msg-next_try cfg (ServerMsg.peer_joined user_id name) s = refl
on_server_msg-next_try cfg (ServerMsg.peer_left user_id) s = refl
on_server_msg-next_try cfg (ServerMsg.offer from sdp) s = refl
on_server_msg-next_try cfg (ServerMsg.answer from sdp) s = refl
on_server_msg-next_try cfg (ServerMsg.ice from candidate) s = refl
on_server_msg-next_try cfg (ServerMsg.ptt user_id active) s = refl
on_server_msg-next_try cfg (ServerMsg.rekey by) s = refl
on_server_msg-next_try cfg (ServerMsg.turn t) s = refl
on_server_msg-next_try cfg (ServerMsg.warn size cap) s = refl
on_server_msg-next_try cfg (ServerMsg.room_full cap) s = refl
on_server_msg-next_try cfg (ServerMsg.error code message) s = refl

pub step-IsPaced :
    (cfg : EngineConfig) (ev : Event) (s : Engine)
    → 2 ≤ s.backoff
    → s.backoff ≤ 30
    → IsPaced ev s (step cfg ev s).0
unfolding step on_retry_ok on_retry_failed next_backoff on_server_gone on_mesh_event on_cmd
    transmit_now
step-IsPaced cfg (uplink msg) s low high = refl
step-IsPaced cfg retry_ok s low high = refl
step-IsPaced cfg (retry_failed now message) s low high = record {
  pause = next_backoff s.backoff;
  at = refl;
  shortest = ground (arith, low);
  longest = ground (arith, high);
}
step-IsPaced cfg (server_msg msg) s low high = on_server_msg-next_try cfg msg s
step-IsPaced cfg (server_gone now) s low high = record {
  pause = 2;
  at = refl;
  shortest = omega arith;
  longest = omega arith;
}
step-IsPaced cfg (mesh_event (MeshEvent.chat from text)) s low high = refl
step-IsPaced cfg (mesh_event (MeshEvent.badge peer kind)) s low high = refl
step-IsPaced cfg (command now toggle_tx) s low high = refl
step-IsPaced cfg (command now (set_tx on)) s low high = elim (Bool-cases (same s.transmit on)) [
  | inl e ↦ rw e refl
  | inr e ↦ rw e refl
]
step-IsPaced cfg (command now (Cmd.chat text)) s low high = refl
step-IsPaced cfg (command now Cmd.rekey) s low high = refl
step-IsPaced cfg (command now reconnect) s low high = elim (Bool-cases s.link) [
  | inl e ↦ rw e refl
  | inr e ↦ rw e refl
]
step-IsPaced cfg handle_dropped s low high = refl
