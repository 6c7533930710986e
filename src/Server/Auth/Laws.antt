-- ===== src/Server/Auth/Laws.antt =====
-- What the room authentication of server/init/src/auth.rs guarantees.
use rdoc_sacompanion.Base.{
  ℕ, String, eq_iff, ◌≡◌, ◌↔◌, ◌⊎◌, inl, inr, true, Option, none, some, List, arith,
}
use rdoc_sacompanion.Text.{to_ascii_lowercase}
use rdoc_sacompanion.Text.Bytes.{as_bytes}
use rdoc_sacompanion.Server.{Crypto}
use rdoc_sacompanion.Server.CtEq.{ct_eq-as_bytes_iff}
use rdoc_sacompanion.Server.Auth.{
  open_mode, hmac, ok, allow_open, from_vars, from_env, hmac_hex, token_for, check,
}

module _ (crypto : Crypto) where
  -- With a secret, the server accepts exactly the token that it mints for the room.
  pub check-token_for_iff :
      (key : List ℕ) (room : String) (token : Option String)
      → (check crypto (hmac key) room token ≡ true) ↔ (token ≡ token_for crypto (hmac key) room)
  unfolding check token_for
  check-token_for_iff key room none = (λ h. ground arith, λ h. ground arith)
  check-token_for_iff key room (some t) =
      let same = ct_eq-as_bytes_iff t (hmac_hex crypto key (as_bytes room)) in ground arith

-- ALLOW_OPEN_AUTH is `1`, or `true` in any case.
abbrev pub AllowsOpen : Option String → Type 0
AllowsOpen none = ⊥
AllowsOpen (some v) = (v ≡ "1") ⊎ (to_ascii_lowercase v ≡ "true")

allow_open_iff : (allow : Option String) → (allow_open allow ≡ true) ↔ AllowsOpen allow
unfolding allow_open
allow_open_iff none = (λ h. ground arith, λ h. absurd h)
allow_open_iff (some v) =
    let one = eq_iff v "1" in
    let yes_true = eq_iff (to_ascii_lowercase v) "true" in unfold to_ascii_lowercase in ground arith

from_vars-open_iff :
    (secret allow : Option String)
    → (from_vars secret allow ≡ ok open_mode)
      ↔ (((secret ≡ none) ⊎ (secret ≡ some "")) × AllowsOpen allow)
unfolding from_vars
from_vars-open_iff none allow = let iff = allow_open_iff allow in ground arith
from_vars-open_iff (some String.[]) allow = let iff = allow_open_iff allow in ground arith
from_vars-open_iff (some (String.◌∷◌ c s)) allow =
    (λ h. cc, λ h. elim h.0 [ inl e ↦ cc | inr e ↦ cc ])

-- Fail-closed: the server starts open exactly when no secret is set and open mode was asked for.
pub from_env-open_iff :
    (env : String → Option String)
    → (from_env env ≡ ok open_mode) ↔ (
        ((env "ROOM_AUTH_SECRET" ≡ none) ⊎ (env "ROOM_AUTH_SECRET" ≡ some ""))
        × AllowsOpen (env "ALLOW_OPEN_AUTH"))
unfolding from_env
from_env-open_iff env = from_vars-open_iff (env "ROOM_AUTH_SECRET") (env "ALLOW_OPEN_AUTH")
