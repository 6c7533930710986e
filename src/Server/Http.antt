-- ===== src/Server/Http.antt =====
-- The REST handlers of server/init/src/main.rs: creating a session, and resolving its code with
-- the PIN. What the generator draws and the clock's answer are arguments; a response is its status
-- and the fields of its body that are not constants.
pub mod Invite
pub mod Budget
use rdoc_sacompanion.Base.{
  ℕ, String, Bool, true, false, ◌||◌, not, Option, none, some, List, [], ◌∷◌, nat_eq, if◌then◌else◌,
  unwrap_or,
}
use rdoc_sacompanion.Dict.{Dict}
use rdoc_sacompanion.Text.{is_empty, before, trim}
use rdoc_sacompanion.Server.{Crypto}
use rdoc_sacompanion.Server.Auth.{AuthConfig, token_for}
use rdoc_sacompanion.Server.Sessions.{
  Session, JoinError, not_found, locked, bad_pin, JoinResult, ok, err, Created, create, join,
}
use rdoc_sacompanion.Server.RateLimit.{Limiter, rl_window, rl_join_max, rl_create_max, allow}
use rdoc_sacompanion.Server.Socket.{len_ok}

abbrev pub max_code : ℕ
max_code = 32

abbrev pub max_pin : ℕ
max_pin = 12

-- The connection's peer, and the header X-Forwarded-For where it is a text.
pub record Client : Type 0 where
  pub loopback : Bool
  pub ip : String
  pub forwarded : Option String

abbrev first_hop : Option String → String → String
first_hop none ip = ip
first_hop (some s) ip =
    let first = trim (before (λ c. nat_eq c b',') s) in if is_empty first then ip else first

unfoldable pub client_ip : Client → String
client_ip c = if c.loopback then first_hop c.forwarded c.ip else c.ip

-- The parts of `AppState` that these handlers change.
pub record Service : Type 0 where
  pub rate : Limiter
  pub sessions : Dict Session

pub data Response : Type 0 where
  created : Created → Response
  joined : (room : String) (token : Option String) → Response
  error : (status : ℕ) (code : String) → Response

-- What the random generator gives to `create_session`.
pub record Draws : Type 0 where
  pub room_hex : String
  pub pin : ℕ
  pub codes : List String

abbrev stored :
    Limiter → Dict Session → Option (Created × Dict Session) → Option (Response × Service)
stored rate sessions none = none
stored rate sessions (some (c, m)) = some (created c, record { rate = rate; sessions = m })

-- `none` where the draws end before a code is free.
unfoldable pub create_session :
    Crypto → AuthConfig → Client → (now : ℕ) → Draws → Service → Option (Response × Service)
unfolding client_ip
create_session crypto auth client now draws s =
    let called = allow (client_ip client) rl_create_max rl_window now s.rate in
    if called.0
    then stored called.1 s.sessions
        (create (token_for crypto auth) now draws.room_hex draws.pin draws.codes s.sessions)
    else some (error 429 "rate_limited", record s { rate = called.1 })

abbrev answer : JoinResult → Response
answer (ok room token) = joined room token
answer (err not_found) = error 404 "not_found"
answer (err locked) = error 429 "locked"
answer (err bad_pin) = error 403 "bad_pin"

-- `pin` is the body's field, where it is a text.
unfoldable pub join_session :
    Client → (now : ℕ) (code : String) (pin : Option String) → Service → Response × Service
unfolding client_ip
join_session client now code pin s =
    let called = allow (client_ip client) rl_join_max rl_window now s.rate in
    let tried = join code (unwrap_or pin "") now s.sessions in
    if not called.0
    then (error 429 "rate_limited", record s { rate = called.1 })
    else if not (len_ok code max_code) || not (len_ok (unwrap_or pin "") max_pin)
    then (error 404 "not_found", record s { rate = called.1 })
    else (answer tried.0, record { rate = called.1; sessions = tried.1 })
