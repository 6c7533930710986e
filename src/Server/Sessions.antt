-- ===== src/Server/Sessions.antt =====
-- server/init/src/sessions.rs: sessions behind a code and a PIN. The clock's answer `now` and what
-- the random generator draws are arguments; times are seconds, as a `u64`.
pub mod Draws
pub mod Create
pub mod Join
pub mod Lifetime
use Prim.Native.String.{◌++◌}
use rdoc_sacompanion.Base.{
  ℕ, ◌+◌, ◌-◌, String, Bool, true, false, Option, none, some, List, [], ◌∷◌, ltb, leb,
  if◌then◌else◌,
}
use rdoc_sacompanion.Dict.{Dict, get, insert, update, retain, contains_key}
use rdoc_sacompanion.Text.Bytes.{as_bytes}
use rdoc_sacompanion.Server.CtEq.{ct_eq}
use Draws.{rand_code, rand_pin}

abbrev pub max_age_secs : ℕ
max_age_secs = 86400

abbrev pub empty_grace_secs : ℕ
empty_grace_secs = 300

abbrev pub max_attempts : ℕ
max_attempts = 6

pub record Session : Type 0 where
  pub room : String
  pub token : Option String
  pub pin : String
  pub created : ℕ
  pub last_active : ℕ
  pub attempts : ℕ

pub data JoinError : Type 0 where
  not_found locked bad_pin : JoinError

pub data JoinResult : Type 0 where
  ok : (room : String) (token : Option String) → JoinResult
  err : JoinError → JoinResult

-- What `create` returns.
pub record Created : Type 0 where
  pub code : String
  pub pin : String
  pub room : String
  pub token : Option String

-- `while map.contains_key(&code) { code = rand_code(); }` over the draws that the generator makes;
-- `none` where they end before a code is free.
unfoldable pub fresh_code : Dict Session → List String → Option String
fresh_code m [] = none
fresh_code m (code ∷ draws) = elim (contains_key code m) [
  | true ↦ fresh_code m draws
  | false ↦ some code
]

unfoldable pub new_session : Created → ℕ → Session
new_session c now = record {
  room = c.room;
  token = c.token;
  pin = c.pin;
  created = now;
  last_active = now;
  attempts = 0;
}

store_created : Dict Session → ℕ → Created → Created × Dict Session
unfolding new_session
store_created m now c = (c, insert c.code (new_session c now) m)

-- `Sessions::create`: `room_hex` is the text of 8 random bytes, `pin` a random number and `codes`
-- the codes drawn one after another.
unfoldable pub create :
    (String → Option String)
    → ℕ
    → (room_hex : String) (pin : ℕ) (codes : List String) → Dict Session
    → Option (Created × Dict Session)
unfolding fresh_code store_created
create token_for now room_hex pin codes m =
    let room : String = "squad-" ++ room_hex in
    elim (fresh_code m codes) [
      | none ↦ none
      | some code ↦ some (
          store_created m now
            (record { code = code; pin = rand_pin pin; room = room; token = token_for room }))
    ]

-- The rest of `join`, with the session found. The session is written through its reference.
unfoldable pub try_pin : Session → String → ℕ → JoinResult × Session
try_pin s pin now =
    if leb max_attempts s.attempts
    then (err locked, s)
    else if ct_eq (as_bytes s.pin) (as_bytes pin)
    then (ok s.room s.token, record s { last_active = now })
    else (err bad_pin, record s { attempts = s.attempts + 1 })

-- `Sessions::join`
unfoldable pub join : String → String → ℕ → Dict Session → JoinResult × Dict Session
unfolding try_pin
join code pin now m = elim (get code m) [
  | none ↦ (err not_found, m)
  | some s ↦ ((try_pin s pin now).0, update code (λ s. (try_pin s pin now).1) m)
]

-- The closure of `reap`.
unfoldable pub sweep : ℕ → (String → Bool) → Session → Option Session
sweep n room_nonempty s =
    if leb max_age_secs (n - s.created)
    then none
    else if room_nonempty s.room
    then some (record s { last_active = n })
    else if ltb (n - s.last_active) empty_grace_secs
    then some s
    else none

-- `Sessions::reap`
unfoldable pub reap : ℕ → (String → Bool) → Dict Session → Dict Session
unfolding sweep
reap n room_nonempty m = retain (sweep n room_nonempty) m
