-- ===== src/App/Commands.antt =====
-- The commands of apps/companion/src-tauri/src/main.rs that reach a running session. The engine and
-- the serverless session are handles; what a command does is the call that it makes on one of them.
pub mod Chat
use rdoc_sacompanion.Base.{
  ℕ, zero, suc, ◌≤◌, String, ◌≡◌, Bool, false, Option, none, some, List, [], ◌∷◌, arith,
  if◌then◌else◌,
}
use rdoc_sacompanion.Text.{is_empty, trim, take_chars}
use rdoc_sacompanion.App.{char_count}

pub data Request : Type 0 where
  toggle_transmit : Request
  set_transmit : (on : Bool) → Request
  send_chat : (text : String) → Request
  rotate_key : Request
  reconnect : Request
  set_monitor : (on : Bool) → Request
  set_low_bandwidth : (on : Bool) → Request

pub data Target : Type 0 where
  on_engine : (engine : ℕ) → Target
  on_serverless : (session : ℕ) → Target

pub record Call : Type 0 where
  pub target : Target
  pub request : Request

-- `AppState`
pub record AppState : Type 0 where
  pub engine : Option ℕ
  pub serverless : Option ℕ

abbrev max_chat_len : ℕ
max_chat_len = 2000

abbrev pub engine_only : Request → AppState → List Call
engine_only r s = elim s.engine [
  | none ↦ []
  | some e ↦ record { target = on_engine e; request = r } ∷ []
]

-- The serverless session comes first, else the engine.
unfoldable pub session_first : Request → AppState → List Call
session_first r s = elim s.serverless [
  | some session ↦ record { target = on_serverless session; request = r } ∷ []
  | none ↦ engine_only r s
]

unfoldable pub cmd_toggle_transmit : AppState → List Call
unfolding session_first
cmd_toggle_transmit s = session_first toggle_transmit s

unfoldable pub cmd_set_transmit : Bool → AppState → List Call
unfolding session_first
cmd_set_transmit on s = session_first (set_transmit on) s

unfoldable pub cmd_send_chat : String → AppState → List Call
unfolding session_first
cmd_send_chat text s =
    let cut = take_chars max_chat_len text in
    if is_empty (trim cut) then [] else session_first (send_chat cut) s

unfoldable pub cmd_rotate_key : AppState → List Call
cmd_rotate_key s = engine_only rotate_key s

unfoldable pub cmd_reconnect_session : AppState → List Call
cmd_reconnect_session s = engine_only reconnect s

unfoldable pub cmd_set_monitor : Bool → AppState → List Call
cmd_set_monitor on s = engine_only (set_monitor on) s

unfoldable pub cmd_set_low_bandwidth : Bool → AppState → List Call
cmd_set_low_bandwidth on s = engine_only (set_low_bandwidth on) s

-- `disconnect`
unfoldable pub disconnect : AppState → AppState
disconnect s = record { engine = none; serverless = none }

take_chars-count : (n : ℕ) (s : String) → char_count (take_chars n s) ≤ n
unfolding char_count take_chars
take_chars-count zero s = omega arith
take_chars-count (suc n) String.[] = omega arith
take_chars-count (suc n) (String.◌∷◌ c s) = omega (arith, take_chars-count n s)

-- A chat line is never passed on blank or longer than `MAX_CHAT_LEN` characters, whichever session
-- it goes to.
pub cmd_send_chat-bounded :
    (text line : String) (t : Target) (s : AppState) (calls : List Call)
    → cmd_send_chat text s ≡ record { target = t; request = send_chat line } ∷ calls
    → (char_count line ≤ 2000) × (is_empty (trim line) ≡ false) × (calls ≡ [])
unfolding cmd_send_chat session_first
cmd_send_chat-bounded text line t s calls e =
    let bound = take_chars-count max_chat_len text in ground arith
