-- ===== src/Server/Start.antt =====
-- `main` of server/init/src/main.rs: what the server does with its environment and its arguments, and
-- the sweep that it runs once a minute. Routing and the sockets are the libraries'.
pub mod Exposure
use rdoc_sacompanion.Base.{
  ℕ, zero, suc, String, ◌==◌, Bool, true, false, not, ◌&&◌, Option, none, some, List, [], ◌∷◌,
  nat_eq, leb, is_some, unwrap_or, if◌then◌else◌,
}
use rdoc_sacompanion.Dict.{Dict, get}
use rdoc_sacompanion.Text.{is_empty, chars_all, is_ascii_digit, strip_prefix}
use rdoc_sacompanion.Text.Decimal.{value}
use rdoc_sacompanion.Server.{Crypto}
use rdoc_sacompanion.Server.Auth.{AuthConfig, EnvResult, from_env, token_for}
use rdoc_sacompanion.Server.Tls.{Tls, Pem, Outside, ensure}
use rdoc_sacompanion.Server.Sessions.{Session, reap}
use rdoc_sacompanion.Server.RateLimit.{Limiter, prune, rl_window}
use rdoc_sacompanion.Server.Room.{Rooms}

pub data Startup : Type 0 where
  bad_config : Startup
  -- `mint <room>`: the token, or the hint that none is needed
  minted : (token : Option String) → Startup
  no_certificate : Startup
  plain : (bind_ip : String) (port : ℕ) → Startup
  secure : (bind_ip : String) (port : ℕ) (cert : Tls) → Startup

abbrev nth : ℕ → List String → Option String
nth n [] = none
nth zero (a ∷ rest) = some a
nth (suc n) (a ∷ rest) = nth n rest

-- `p.parse::<u16>()`: digits, perhaps behind a plus sign.
unfoldable pub parse_u16 : String → Option ℕ
parse_u16 s =
    let digits = unwrap_or (strip_prefix "+" s) s in
    let n = value 0 digits in
    if not (is_empty digits) && chars_all is_ascii_digit digits && leb n 65535 then some n else none

unfoldable pub port_of : Option String → ℕ
port_of none = 8080
port_of (some p) = unwrap_or (parse_u16 p) 8080

abbrev pub wants_mint : (args : List String) → Bool
wants_mint args = elim (nth 1 args) [ none ↦ false | some a ↦ a == "mint" ]

module _ (crypto : Crypto) (pem : Pem) (o : Outside) (env : String → Option String) where
  -- From `let port` on.
  unfoldable pub listen : Dict String → Startup
  listen fs =
      let port = port_of (env "PORT") in
      let cert_path = unwrap_or (env "TLS_CERT") "init-cert.pem" in
      let key_path = unwrap_or (env "TLS_KEY") "init-key.pem" in
      if is_some (env "TLS_DISABLE")
      then plain (if is_some (env "ALLOW_PLAIN_PUBLIC_BIND") then "0.0.0.0" else "127.0.0.1") port
      else elim (ensure pem o (env "TLS_SAN") cert_path key_path fs).1 [
        | none ↦ no_certificate
        | some cert ↦ secure "0.0.0.0" port cert
      ]

  unfoldable pub main : (args : List String) → Dict String → Startup
  main args fs = elim (from_env env) [
    | EnvResult.refused ↦ bad_config
    | EnvResult.ok auth ↦
        if wants_mint args
        then minted (token_for crypto auth (unwrap_or (nth 2 args) ""))
        else listen fs
  ]

-- Whether a room has members.
abbrev pub is_live : Rooms → (room : String) → Bool
is_live rooms room = elim (get room rooms) [
  | none ↦ false
  | some r ↦ elim r [ [] ↦ false | ◌∷◌ x xs ↦ true ]
]

-- One tick of the sweep, at the time `now`.
unfoldable pub tick : (now : ℕ) → Rooms → Dict Session → Limiter → Dict Session × Limiter
tick now rooms sessions limiter = (reap now (is_live rooms) sessions, prune rl_window now limiter)
