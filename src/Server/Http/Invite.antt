-- ===== src/Server/Http/Invite.antt =====
-- From the creation of a session to the token that lets the guest into the room, across the
-- handlers of server/init/src/main.rs, sessions.rs and auth.rs.
use rdoc_sacompanion.Base.{
  ℕ, String, ◌≡◌, refl, Bool, true, false, Option, none, some, arith, if◌then◌else◌,
}
use rdoc_sacompanion.Dict.{Dict}
use rdoc_sacompanion.Server.{Crypto}
use rdoc_sacompanion.Server.Auth.{AuthConfig, hmac, open_mode, token_for, check}
use rdoc_sacompanion.Server.Auth.Laws.{check-token_for_iff}
use rdoc_sacompanion.Server.Sessions.{Session, Created, create}
use rdoc_sacompanion.Server.Sessions.Create.{join-create}
use rdoc_sacompanion.Server.RateLimit.{Limiter, allow, rl_window, rl_join_max, rl_create_max}
use rdoc_sacompanion.Server.Socket.{len_ok}
use rdoc_sacompanion.Server.Http.{
  Client, client_ip, Service, created, joined, error, Draws, stored, create_session, join_session,
  max_code, max_pin,
}

stored_inv :
    (rate : Limiter) (sessions : Dict Session) (r : Option (Created × Dict Session)) (c : Created)
    (s : Service)
    → stored rate sessions r ≡ some (created c, s)
    → r ≡ some (c, s.sessions)
stored_inv rate sessions none c s e = cc
stored_inv rate sessions (some (d, m)) c s e = ground arith

allowed_inv :
    (allowed : Bool) (rate : Limiter) (sessions : Dict Session)
    (r : Option (Created × Dict Session)) (refused : Service) (c : Created) (s : Service)
    → (if allowed then stored rate sessions r else some (error 429 "rate_limited", refused))
      ≡ some (created c, s)
    → r ≡ some (c, s.sessions)
allowed_inv true rate sessions r refused c s e = stored_inv rate sessions r c s e
allowed_inv false rate sessions r refused c s e = absurd (ground arith)

create_session_inv :
    (crypto : Crypto) (auth : AuthConfig) (host : Client) (now : ℕ) (draws : Draws) (s s' : Service)
    (c : Created)
    → create_session crypto auth host now draws s ≡ some (created c, s')
    → create (token_for crypto auth) now draws.room_hex draws.pin draws.codes s.sessions
      ≡ some (c, s'.sessions)
unfolding create_session
create_session_inv crypto auth host now draws s s' c e =
    let called = allow (client_ip host) rl_create_max rl_window now s.rate in
    allowed_inv called.0 called.1 s.sessions _ (record s { rate = called.1 }) c s' e

token_for-check :
    (crypto : Crypto) (auth : AuthConfig) (room : String)
    → check crypto auth room (token_for crypto auth room) ≡ true
token_for-check crypto open_mode room = unfold check in refl
token_for-check crypto (hmac key) room =
    (check-token_for_iff crypto key room (token_for crypto (hmac key) room)).1 refl

-- An invitation works: a guest whose address is below its limit, and who has the code and the PIN
-- of a session just created (both within the handler's bounds), is answered with the session's
-- room and the token that the server mints for it, and the server accepts that token for that room.
pub create_session-join_session :
    (crypto : Crypto) (auth : AuthConfig) (host guest : Client) (now later : ℕ) (draws : Draws)
    (s s' : Service) (c : Created)
    → create_session crypto auth host now draws s ≡ some (created c, s')
    → (allow (client_ip guest) rl_join_max rl_window later s'.rate).0 ≡ true
    → len_ok c.code max_code ≡ true
    → len_ok c.pin max_pin ≡ true
    → ((join_session guest later c.code (some c.pin) s').0
        ≡ joined c.room (token_for crypto auth c.room))
      × (check crypto auth c.room (token_for crypto auth c.room) ≡ true)
unfolding join_session
create_session-join_session crypto auth host guest now later draws s s' c e allowed code pin =
    let made = create_session_inv crypto auth host now draws s s' c e in
    let (free, found, others) =
      join-create (token_for crypto auth) now draws.room_hex draws.pin draws.codes s.sessions
        s'.sessions c later made in
    (rw (allowed, code, pin, found) refl, token_for-check crypto auth c.room)
