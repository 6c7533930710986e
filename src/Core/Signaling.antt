-- ===== src/Core/Signaling.antt =====
-- apps/companion-core/src/signaling.rs: which servers the client connects to, and which
-- certificates it accepts. The hash, the decoder of hexadecimal texts and the outcome of a
-- connection attempt are parameters.
pub mod Policy
pub mod Pump
use rdoc_sacompanion.Base.{
  ℕ, String, ◌==◌, Bool, true, false, ◌&&◌, ◌||◌, not, Option, none, some, List, [], ◌∷◌, nat_eq,
  length, list_eq, if◌then◌else◌, is_some, unwrap_or, ◌>>=◌,
}
use rdoc_sacompanion.Text.{
  is_empty, before, after_last, strip_prefix, split_once_tail, to_ascii_lowercase, trim,
}

abbrev pub is_authority_end : ℕ → Bool
is_authority_end c = nat_eq c b'/' || nat_eq c b'?' || nat_eq c b'#'

abbrev pub is_at : ℕ → Bool
is_at c = nat_eq c b'@'

abbrev pub is_colon : ℕ → Bool
is_colon c = nat_eq c b':'

abbrev pub is_bracket : ℕ → Bool
is_bracket c = nat_eq c b']'

-- The host of `host:port`, or of `[ipv6]:port`.
unfoldable pub host_of : (hostport : String) → String
host_of hostport = elim (strip_prefix "[" hostport) [
  | some behind ↦ before is_bracket behind
  | none ↦ before is_colon hostport
]

abbrev lowered_host : String → Option String
lowered_host host = if is_empty host then none else some (to_ascii_lowercase host)

unfoldable pub url_host : (url : String) → Option String
unfolding host_of
url_host url = do
  rest ← split_once_tail "://" url
  lowered_host (host_of (after_last is_at (before is_authority_end rest)))

abbrev pub is_loopback_host : Option String → Bool
is_loopback_host none = false
is_loopback_host (some h) = h == "localhost" || h == "127.0.0.1" || h == "::1"

unfoldable pub is_loopback : (url : String) → Bool
unfolding url_host
is_loopback url = is_loopback_host (url_host url)

abbrev pub starts_with : (prefix : String) → String → Bool
starts_with prefix s = is_some (strip_prefix prefix s)

unfoldable pub server_url_ok : (url : String) → Bool
unfolding is_loopback
server_url_ok url =
    let u = trim url in
    elim (strip_prefix "wss://" u) [
      | some stripped ↦ not (is_empty stripped) && is_some (url_host u)
      | none ↦ if starts_with "ws://" u then is_loopback u else false
    ]

-- What the client relies on outside of this file.
pub record Tls : Type 0 where
  pub sha256 : List ℕ → List ℕ
  pub hex_decode : String → Option (List ℕ)

-- `PinnedCert::verify_server_cert`
unfoldable pub verify_server_cert : Tls → (pin certificate : List ℕ) → Bool
verify_server_cert tls pin certificate = list_eq (tls.sha256 certificate) pin

-- `verify_tls12_signature` and `verify_tls13_signature`, which read nothing of what they are given.
unfoldable pub verify_signature : (message certificate signed : List ℕ) → Bool
verify_signature message certificate signed = true

pub data PinError : Type 0 where
  not_hex : PinError
  not_32_bytes : PinError

pub data Connector : Type 0 where
  pinned : (sha256 : List ℕ) → Connector
  refused : PinError → Connector

abbrev checked_pin : Option (List ℕ) → Connector
checked_pin none = refused not_hex
checked_pin (some bytes) = if nat_eq (length bytes) 32 then pinned bytes else refused not_32_bytes

unfoldable pub pinned_connector : Tls → (cert_sha256 : String) → Connector
pinned_connector tls cert_sha256 = checked_pin (tls.hex_decode (trim cert_sha256))

-- How `connect` opens the socket: TLS with the pinned certificate, the library's default, or an
-- error before anything is sent.
pub data Dial : Type 0 where
  dial_pinned : (sha256 : List ℕ) → Dial
  dial_default : Dial
  bad_pin : PinError → Dial
  refuse_plain : Dial

abbrev dial_with : Connector → Dial
dial_with (pinned sha256) = dial_pinned sha256
dial_with (refused e) = bad_pin e

abbrev dial_wss : Tls → Option String → Dial
dial_wss tls none = dial_default
dial_wss tls (some pin) = dial_with (pinned_connector tls pin)

-- The decision at the top of `connect`.
unfoldable pub connect : Tls → (url : String) → (cert_sha256 : Option String) → Dial
unfolding pinned_connector is_loopback
connect tls url cert_sha256 =
    if starts_with "wss://" url
    then dial_wss tls cert_sha256
    else if starts_with "ws://" url && not (is_loopback url)
    then refuse_plain
    else dial_default
