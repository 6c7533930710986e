-- ===== src/Server/Turn.antt =====
-- server/init/src/turn.rs: the ephemeral credentials of the TURN relay. The environment and the
-- clock's answer are arguments.
pub mod Laws
use Prim.Native.String.{◌++◌}
use rdoc_sacompanion.Base.{
  ℕ, ◌+◌, ◌^◌, ◌≤◌, ◌<◌, String, ◌≡◌, refl, Bool, true, false, Option, none, some, List, ◌>>=◌,
  arith, nat_eq, if◌then◌else◌,
}
use rdoc_sacompanion.Text.{is_empty, split, keep_nonempty, before}
use rdoc_sacompanion.Text.Bytes.{as_bytes}
use rdoc_sacompanion.Text.Decimal.{decimal, decimal_digits, value, value-decimal_digits}
use rdoc_sacompanion.Protocol.{TurnCreds}
use rdoc_sacompanion.Server.{Crypto}

pub record TurnConfig : Type 0 where
  pub secret : List ℕ
  pub urls : List String
  pub ttl : ℕ

-- `.ok().filter(|s| !s.is_empty())`
unfoldable pub set_and_nonempty : Option String → Option String
set_and_nonempty none = none
set_and_nonempty (some s) = if is_empty s then none else some s

-- `TurnConfig::from_env`
unfoldable pub from_env : (String → Option String) → Option TurnConfig
unfolding set_and_nonempty keep_nonempty split
from_env env = do
  secret ← set_and_nonempty (env "TURN_SECRET")
  urls ← set_and_nonempty (env "TURN_URLS")
  some (record {
    secret = as_bytes secret;
    urls = keep_nonempty (split (λ c. nat_eq c b',') urls);
    ttl = 3600;
  })

-- `TurnConfig::mint`
unfoldable pub mint : Crypto → TurnConfig → (user_id : String) (now : ℕ) → TurnCreds
mint crypto t user_id now =
    let username = decimal (now + t.ttl) ++ (":" ++ user_id) in
    record {
      urls = t.urls;
      username = username;
      credential = crypto.base64_encode (crypto.hmac_sha1 t.secret (as_bytes username));
      ttl = t.ttl;
    }
