-- ===== src/App/Commands/Chat.antt =====
-- A line of chat from the web view to the peers: the shell's command, the engine's loop and the mesh.
use mathlib.Core.List.{append-nil}
use rdoc_sacompanion.Base.{
  ℕ, String, ◌≡◌, refl, Option, none, some, List, [], ◌∷◌, ◌++◌, map, if◌then◌else◌, Bool-cases,
  inl, inr,
}
use rdoc_sacompanion.Text.{is_empty, trim, take_chars}
use rdoc_sacompanion.App.Commands.{
  Request, toggle_transmit, set_transmit, send_chat, rotate_key, reconnect, set_monitor,
  set_low_bandwidth, Call, AppState, cmd_send_chat, session_first,
}
use rdoc_sacompanion.Core.Engine.{
  EngineConfig, Cmd, toggle_tx, set_tx, UiEvent, command, step, on_cmd,
}
use rdoc_sacompanion.Core.Mesh.{Webrtc}
use rdoc_sacompanion.Core.Mesh.Callbacks.{broadcast_chat}
use rdoc_sacompanion.Core.Client.{
  Client, Output, shown, chatted, call, perform, perform_all, run_arm,
}

-- The methods of `Engine` that send a command to the loop; the others write to the audio rig.
unfoldable pub engine_cmd : Request → Option Cmd
engine_cmd toggle_transmit = some toggle_tx
engine_cmd (set_transmit on) = some (set_tx on)
engine_cmd (send_chat text) = some (Cmd.chat text)
engine_cmd rotate_key = some Cmd.rekey
engine_cmd reconnect = some Cmd.reconnect
engine_cmd (set_monitor on) = none
engine_cmd (set_low_bandwidth on) = none

-- The calls that reach the engine, run by its loop.
abbrev run_cmd : Webrtc → EngineConfig → ℕ → Option Cmd → Client → Client × List Output
run_cmd lib cfg now none c = (c, [])
run_cmd lib cfg now (some cmd) c = run_arm lib cfg (command now cmd) c

abbrev pub run_calls : Webrtc → EngineConfig → ℕ → List Call → Client → Client × List Output
run_calls lib cfg now [] c = (c, [])
run_calls lib cfg now (k ∷ ks) c =
    let here = run_cmd lib cfg now (engine_cmd k.request) c in
    let rest = run_calls lib cfg now ks here.0 in (rest.0, here.1 ++ rest.1)

module _ (lib : Webrtc) (cfg : EngineConfig) (now e : ℕ) (text : String) (c : Client) where
  abbrev pub in_engine : AppState
  in_engine = record { engine = some e; serverless = none }

  abbrev pub cut : String
  cut = take_chars 2000 text

  -- In a session over the server, a line that is typed goes, cut to 2000 characters, to exactly the
  -- peers that have a chat channel, and is shown as said by the user; nothing else happens. A line
  -- that is blank after the cut does nothing.
  pub send_chat-delivered : run_calls lib cfg now (cmd_send_chat text in_engine) c ≡ (
      if is_empty (trim cut) then (c, []) else (
        c,
        map (λ peer. chatted peer cut) (broadcast_chat c.mesh.peers)
            ++ shown (UiEvent.chat cfg.name cut) ∷ [],
      ))
  unfolding cmd_send_chat session_first engine_cmd run_arm step on_cmd perform_all perform call
  send_chat-delivered = elim (Bool-cases (is_empty (trim cut))) [
    | inl blank ↦ rw blank refl
    | inr says ↦ rw says (simp append-nil)
  ]
