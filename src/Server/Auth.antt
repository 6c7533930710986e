-- ===== src/Server/Auth.antt =====
-- server/init/src/auth.rs: the room tokens. The environment is a function from a variable's name
-- to its value, `none` where `std::env::var` fails.
pub mod Laws
use rdoc_sacompanion.Base.{
  ℕ, String, ◌==◌, Bool, true, false, ◌||◌, not, Option, none, some, List, if◌then◌else◌,
}
use rdoc_sacompanion.Text.{is_empty, to_ascii_lowercase, eq_ignore_ascii_case}
use rdoc_sacompanion.Text.Bytes.{as_bytes}
use rdoc_sacompanion.Server.{Crypto}
use rdoc_sacompanion.Server.CtEq.{ct_eq}

-- `Open` needs no token; `hmac` holds the secret's bytes.
pub data AuthConfig : Type 0 where
  open_mode : AuthConfig
  hmac : List ℕ → AuthConfig

pub data EnvResult : Type 0 where
  ok : AuthConfig → EnvResult
  refused : EnvResult

unfoldable pub allow_open : Option String → Bool
allow_open none = false
allow_open (some v) = v == "1" || eq_ignore_ascii_case v "true"

open_or_refused : Bool → EnvResult
open_or_refused true = ok open_mode
open_or_refused false = refused

-- The `match` on ROOM_AUTH_SECRET, with ALLOW_OPEN_AUTH beside it.
from_vars : Option String → Option String → EnvResult
unfolding open_or_refused allow_open
from_vars none allow = open_or_refused (allow_open allow)
from_vars (some s) allow =
    if not (is_empty s) then ok (hmac (as_bytes s)) else open_or_refused (allow_open allow)

-- `AuthConfig::from_env`
unfoldable pub from_env : (String → Option String) → EnvResult
unfolding from_vars
from_env env = from_vars (env "ROOM_AUTH_SECRET") (env "ALLOW_OPEN_AUTH")

module _ (crypto : Crypto) where
  unfoldable pub hmac_hex : List ℕ → List ℕ → String
  hmac_hex key msg = crypto.hex_encode (crypto.hmac_sha256 key msg)

  unfoldable pub token_for : AuthConfig → String → Option String
  unfolding hmac_hex
  token_for open_mode room = none
  token_for (hmac key) room = some (hmac_hex key (as_bytes room))

  check_token : List ℕ → String → Option String → Bool
  unfolding hmac_hex
  check_token key room none = false
  check_token key room (some t) = ct_eq (as_bytes t) (as_bytes (hmac_hex key (as_bytes room)))

  -- `AuthConfig::check`
  unfoldable pub check : AuthConfig → String → Option String → Bool
  unfolding check_token
  check open_mode room token = true
  check (hmac key) room token = check_token key room token
