-- ===== src/App/Connect.antt =====
-- The command `connect` of apps/companion/src-tauri/src/main.rs: its validation of what the webview
-- sends.
pub mod Limits
pub mod Dial
use rdoc_sacompanion.Base.{
  ℕ, String, Bool, true, false, ◌&&◌, ◌||◌, not, Option, none, some, ltb, leb, nat_eq, len,
  if◌then◌else◌, unwrap_or,
}
use rdoc_sacompanion.Text.{is_empty, trim, chars_any, is_control}
use rdoc_sacompanion.Core.Signaling.{server_url_ok}
use rdoc_sacompanion.Core.Engine.{EngineConfig}
use rdoc_sacompanion.App.{valid_id, valid_hex, char_count}

-- The command's arguments.
pub record Request : Type 0 where
  pub server : String
  pub room : String
  pub user_id : String
  pub name : String
  pub token : Option String
  pub cert_sha256 : Option String
  pub input_device : Option String
  pub output_device : Option String
  pub relay_enabled : Option Bool

pub data Checked {ℓ} (A : Type ℓ) : Type ℓ where
  ok : A → Checked A
  err : (message : String) → Checked A

-- `?` on a result
infixl 5 ◌and_then◌
abbrev pub ◌and_then◌ {ℓ κ} : {A : Type ℓ} {B : Type κ} → Checked A → (A → Checked B) → Checked B
ok a and_then f = f a
err message and_then f = err message

unfoldable pub invalid_name : String → Bool
invalid_name name = is_empty name || ltb 64 (char_count name) || chars_any is_control name

-- `.map(trim).filter(not empty)`, and a test on what is left
unfoldable pub clean :
    (String → Bool) → (message : String) → Option String → Checked (Option String)
clean valid message none = ok none
clean valid message (some s) =
    if is_empty (trim s)
    then ok none
    else if valid (trim s)
    then ok (some (trim s))
    else err message

unfoldable pub clean_token : Option String → Checked (Option String)
unfolding clean
clean_token = clean (λ t. valid_hex t 128) "invalid token"

unfoldable pub clean_cert : Option String → Checked (Option String)
unfolding clean
clean_cert = clean (λ c. nat_eq (len c) 64 && valid_hex c 64) "invalid cert_sha256 (64 hex chars)"

unfoldable pub clean_dev : Option String → Checked (Option String)
unfolding clean
clean_dev = clean (λ s. leb (len s) 256) "invalid device name"

abbrev guard : Bool → (message : String) → Checked Bool
guard true message = ok true
guard false message = err message

-- Everything in front of `start`.
unfoldable pub connect : Request → Checked EngineConfig
unfolding invalid_name clean_token clean_cert clean_dev
connect req =
    guard (server_url_ok (trim req.server)) "invalid server URL — use wss:// or loopback ws://"
    and_then λ _. guard (valid_id req.room 64) "invalid room" and_then λ _.
        guard (valid_id req.user_id 64) "invalid user_id" and_then λ _.
        guard (not (invalid_name (trim req.name))) "invalid name (1–64 chars, no control chars)"
        and_then λ _. clean_token req.token and_then λ token.
            clean_cert req.cert_sha256 and_then λ cert_sha256.
            clean_dev req.input_device and_then λ input_device.
            clean_dev req.output_device and_then λ output_device. ok (record {
              server = trim req.server;
              room = req.room;
              user_id = req.user_id;
              name = trim req.name;
              token = token;
              cert_sha256 = cert_sha256;
              input_device = input_device;
              output_device = output_device;
              relay_enabled = unwrap_or req.relay_enabled false;
            })
