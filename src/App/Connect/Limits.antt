-- ===== src/App/Connect/Limits.antt =====
-- The shell's limits in apps/companion/src-tauri/src/main.rs against the server's in
-- server/init/src/main.rs.
use rdoc_sacompanion.Base.{
  ◌≤◌, String, ◌≡◌, ◌↔◌, refl, Bool, true, false, ◌&&◌, Option, none, some, arith, leb, nat_eq, len,
}
use rdoc_sacompanion.Core.Signaling.{server_url_ok}
use rdoc_sacompanion.Server.Socket.{token_too_long, bad_input}
use rdoc_sacompanion.Core.Engine.{EngineConfig, join_request}
use rdoc_sacompanion.App.{valid_id, valid_hex}
use rdoc_sacompanion.App.Connect.{
  Request, ok, invalid_name, clean, clean_token, clean_cert, clean_dev, connect,
}

-- What each accepted field satisfies.
abbrev pub IsSafe : EngineConfig → Type 0
IsSafe cfg =
    (server_url_ok cfg.server ≡ true)
    × (valid_id cfg.room 64 ≡ true)
    × (valid_id cfg.user_id 64 ≡ true)
    × (invalid_name cfg.name ≡ false)
    × ((t : String) → cfg.token ≡ some t → valid_hex t 128 ≡ true)
    × ((c : String) → cfg.cert_sha256 ≡ some c → (len c ≡ 64) × (valid_hex c 64 ≡ true))
    × (((d : String) → cfg.input_device ≡ some d → len d ≤ 256)
        × ((d : String) → cfg.output_device ≡ some d → len d ≤ 256))

clean-valid :
    (valid : String → Bool) (message : String) (o : Option String) (o' : Option String)
    → clean valid message o ≡ ok o'
    → (s : String) → o' ≡ some s
    → valid s ≡ true
unfolding clean
clean-valid valid message none o' e s h = ground arith
clean-valid valid message (some t) o' e s h = ground arith

-- Everything that reaches the engine is within the shell's bounds: the address passes the
-- connection policy, the ids and the name are well-formed, and the token, the pin and the device
-- names, where given, are within their sizes and alphabets.
pub connect-IsSafe : (req : Request) (cfg : EngineConfig) → connect req ≡ ok cfg → IsSafe cfg
unfolding connect clean_token clean_cert clean_dev
connect-IsSafe req cfg e =
    let token = clean-valid (λ t. valid_hex t 128) "invalid token" req.token in
    let cert =
      clean-valid (λ c. nat_eq (len c) 64 && valid_hex c 64) "invalid cert_sha256 (64 hex chars)"
        req.cert_sha256 in
    let input = clean-valid (λ s. leb (len s) 256) "invalid device name" req.input_device in
    let output = clean-valid (λ s. leb (len s) 256) "invalid device name" req.output_device in
    ground arith

token-fits :
    (o : Option String)
    → ((t : String) → o ≡ some t → valid_hex t 128 ≡ true)
    → token_too_long o ≡ false
unfolding token_too_long valid_hex
token-fits none h = refl
token-fits (some t) h = let bound = h t refl in ground arith

-- The server finds the join of a client whose arguments the shell has accepted within its bounds
-- exactly when the trimmed name has at most 64 bytes; the shell counts its characters instead, so a
-- name of at most 64 characters that takes more bytes passes the shell and is refused by the server.
pub connect-bad_input_iff :
    (req : Request) (cfg : EngineConfig)
    → connect req ≡ ok cfg
    → (bad_input (join_request cfg) ≡ false) ↔ (len cfg.name ≤ 64)
unfolding bad_input join_request valid_id invalid_name
connect-bad_input_iff req cfg e =
    let safe = connect-IsSafe req cfg e in
    let (server, room, user, name, hex, pin, devices) = safe in
    let token = token-fits cfg.token hex in ground (arith, token, room, user, name)
