-- ===== src/Tests/Sessions.antt =====
-- The session store of server/init/src/sessions.rs, and the rate limiter and the REST handlers of
-- main.rs, at small inputs.
use rdoc_sacompanion.Base.{
  ℕ, zero, suc, map, replicate, ◌<◌, ◌≤◌, String, ◌≡◌, ◌↔◌, refl, Bool, true, false, Option, none,
  some, List, [], ◌∷◌, arith, eq_iff,
}
use rdoc_sacompanion.Dict.{Dict, get, insert}
use rdoc_sacompanion.Text.{trim, before}
use rdoc_sacompanion.Text.Decimal.{zero_padded}
use rdoc_sacompanion.Server.Sessions.Draws.{rand_pin}
use rdoc_sacompanion.Server.{Crypto}
use rdoc_sacompanion.Server.Auth.{hmac, token_for, check}
use rdoc_sacompanion.Server.Sessions.{Session, Created, ok, max_attempts, create, join}
use rdoc_sacompanion.Server.Sessions.Join.{
  join-ok_iff, Event, joins, bad_pins, bad_pins-le-max_attempts,
}
use rdoc_sacompanion.Server.Sessions.Create.{create-total}
use rdoc_sacompanion.Server.Sessions.Lifetime.{sweeps, sweeps-KeptAlive}
use rdoc_sacompanion.Server.RateLimit.{Limiter, allow, rl_window}
use rdoc_sacompanion.Server.RateLimit.Laws.{Call, Within, run, calls_of, allow-run_iff}
use rdoc_sacompanion.Server.Http.{
  Client, client_ip, Service, Draws, joined, created, error, create_session, join_session,
}
use rdoc_sacompanion.Server.Http.Budget.{Try, attempts, call_of, create_session-refused_by_joins}
use rdoc_sacompanion.Server.Http.Invite.{create_session-join_session}

abbrev session : Session
session = record {
  room = "squad-1";
  token = some "t";
  pin = "000042";
  created = 0;
  last_active = 0;
  attempts = 5;
}

abbrev store : Dict Session
store = ("abc", session) ∷ []

found : get "abc" store ≡ some session
unfolding get
found = refl

join-ok_iff_example : ((join "abc" "000042" 9 store).0 ≡ ok "squad-1" (some "t")) ↔ (
    (s : Session) × (get "abc" store ≡ some s)
    × ((s.attempts < max_attempts)
        × (s.pin ≡ "000042")
        × (s.room ≡ "squad-1")
        × (s.token ≡ some "t")))
join-ok_iff_example = join-ok_iff "abc" "000042" 9 store "squad-1" (some "t")

abbrev two_wrong : List Event
two_wrong = joins "abc" "1" 1 ∷ joins "abc" "2" 2 ∷ []

bad_pins-le-max_attempts_example : bad_pins "abc" store two_wrong ≤ max_attempts
bad_pins-le-max_attempts_example =
    bad_pins-le-max_attempts "abc" store two_wrong (unfold get in (refl, tt))

abbrev no_token : String → Option String
no_token room = none

create-total_example :
    (r : Created × Dict Session) × (create no_token 1 "ff" 7 ("abc" ∷ "abd" ∷ []) store ≡ some r)
create-total_example =
    create-total no_token 1 "ff" 7 ("abc" ∷ "abd" ∷ []) store
      ((λ e. absurd (ground (arith, eq_iff "abc" "abd")), tt), (tt, tt)) (omega arith)

abbrev handed_out : Created
handed_out = record { code = "abd"; pin = "000007"; room = "squad-ff"; token = none }

abbrev stored_session : Session
stored_session = record {
  room = "squad-ff";
  token = none;
  pin = "000007";
  created = 1;
  last_active = 1;
  attempts = 0;
}

was_created :
    create no_token 1 "ff" 7 ("abc" ∷ "abd" ∷ []) store
    ≡ some (handed_out, ("abd", stored_session) ∷ store)
unfolding create get rand_pin insert zero_padded
was_created = refl

abbrev live : String → Bool
live room = true

sweeps-KeptAlive_example :
    (n : ℕ) × (get "abc" (sweeps store ((60, live) ∷ []))
      ≡ some (record session { last_active = n }))
sweeps-KeptAlive_example =
    sweeps-KeptAlive ((60, live) ∷ []) store "abc" session (unfold get in (refl, tt)) found
      ((omega arith, refl), tt)

abbrev no_limits : Limiter
no_limits = []

abbrev call : ℕ → Call
call now = record { ip = "1.2.3.4"; max = 30; now = now }

allow-run_iff_example :
    ((allow "1.2.3.4" 2 300 12 (run 300 no_limits (call 10 ∷ call 11 ∷ []))).0 ≡ true)
    ↔ (calls_of "1.2.3.4" (call 10 ∷ call 11 ∷ []) < 2)
allow-run_iff_example =
    allow-run_iff "1.2.3.4" 300 12 2 no_limits (call 10) (call 11 ∷ []) (unfold get in refl) refl
      ((λ e. (omega arith, omega arith)), tt) (omega arith) (unfold calls_of in omega arith)

abbrev crypto : Crypto
crypto = record {
  hmac_sha256 = λ key msg. msg;
  hmac_sha1 = λ key msg. msg;
  hex_encode = λ bytes. "abcd";
  base64_encode = λ bytes. "q80=";
}

abbrev host : Client
host = record { loopback = true; ip = "127.0.0.1"; forwarded = some "5.6.7.8, 10.0.0.1" }

abbrev guest : Client
guest = record { loopback = false; ip = "9.9.9.9"; forwarded = some "5.6.7.8" }

abbrev draws : Draws
draws = record { room_hex = "ff"; pin = 7; codes = "abd" ∷ [] }

abbrev fresh : Service
fresh = record { rate = []; sessions = [] }

abbrev invitation : Created
invitation = record { code = "abd"; pin = "000007"; room = "squad-ff"; token = some "abcd" }

abbrev invited : Service
invited = record {
  rate = ("5.6.7.8", record { start = 1; count = 1 }) ∷ [];
  sessions = ("abd", record stored_session { token = some "abcd" }) ∷ [];
}

was_invited :
    create_session crypto (hmac (1 ∷ [])) host 1 draws fresh ≡ some (created invitation, invited)
unfolding create_session allow create token_for get rand_pin insert zero_padded trim before
was_invited = refl

create_session-join_session_example :
    ((join_session guest 9 "abd" (some "000007") invited).0
      ≡ joined "squad-ff" (token_for crypto (hmac (1 ∷ [])) "squad-ff"))
    × (check crypto (hmac (1 ∷ [])) "squad-ff" (token_for crypto (hmac (1 ∷ [])) "squad-ff") ≡ true)
create_session-join_session_example =
    create_session-join_session crypto (hmac (1 ∷ [])) host guest 1 9 draws fresh invited invitation
      was_invited (unfold allow get client_ip in refl) refl refl

-- Nineteen more PIN tries a second after the first.
abbrev try : ℕ → Try
try now = record { from = guest; at = now; code = "abd"; pin = none }

abbrev tries : List Try
tries = replicate 19 (try 11)

repeated_in_time :
    (n : ℕ) → Within (client_ip guest) rl_window 10 (map call_of (replicate n (try 11)))
repeated_in_time zero = tt
repeated_in_time (suc n) = (λ e. (omega arith, omega arith), repeated_in_time n)

create_session-refused_by_joins_example :
    let s = attempts (try 10 ∷ tries) fresh in
    create_session crypto (hmac (1 ∷ [])) guest 12 draws s
    ≡ some
        (error 429 "rate_limited", record s { rate = (allow (client_ip guest) 20 300 12 s.rate).1 })
create_session-refused_by_joins_example =
    create_session-refused_by_joins crypto (hmac (1 ∷ [])) guest 12 draws fresh (try 10) tries
      (unfold get in refl) refl (repeated_in_time 19) (omega arith)
      (unfold calls_of client_ip in omega arith) (unfold calls_of client_ip in omega arith)
