-- ===== src/Core/Signaling/Policy.antt =====
-- What the client's connection policy in apps/companion-core/src/signaling.rs promises.
use Prim.Native.String.{◌++◌}
use text.Mathlib.TextLemmas.{nil-append, cons-append}
use rdoc_sacompanion.Base.{
  ℕ, String, eq_iff, ◌≡◌, ◌↔◌, ◌⊎◌, inl, inr, refl, true, false, Option, none, some, List, arith,
  nat_eq, length, if◌then◌else◌, Bool-cases, Option-cases,
}
use rdoc_sacompanion.Text.{is_empty, chars_any, strip_prefix, to_ascii_lowercase, trim}
use rdoc_sacompanion.Text.Laws.{
  Lacks, Stops, before-append, after_last-append, split_once_tail-append,
}
use rdoc_sacompanion.Core.Signaling.{
  is_authority_end, is_at, is_colon, host_of, url_host, is_loopback_host, is_loopback, starts_with,
  server_url_ok, Tls, PinError, pinned_connector, dial_pinned, dial_default, bad_pin, refuse_plain,
  connect,
}

-- `userinfo@host:port`
abbrev authority : (userinfo host port : String) → String
authority userinfo host port = userinfo ++ String.◌∷◌ "@" (host ++ String.◌∷◌ ":" port)

host_of-port :
    (host port : String)
    → Lacks is_colon host
    → strip_prefix "[" (host ++ String.◌∷◌ ":" port) ≡ none
    → host_of (host ++ String.◌∷◌ ":" port) ≡ host
unfolding host_of
host_of-port host port h e =
    rw (e, host_of) (before-append is_colon host (String.◌∷◌ ":" port) h refl)

not_bracketed :
    (host port : String)
    → Lacks (λ c. nat_eq c b'[') host
    → strip_prefix "[" (host ++ String.◌∷◌ ":" port) ≡ none
unfolding strip_prefix chars_any
not_bracketed String.[] port h = rw nil-append refl
not_bracketed (String.◌∷◌ c host) port h = rw cons-append (ground arith)

-- On `scheme://userinfo@host:port` and what follows it, the answer is the text between the last
-- `@` and the port's colon, in lower case, or nothing if that is empty, whatever stands in the
-- userinfo, the port, the path, the query or the fragment. (The scheme has no colon; the user and
-- the port have none of `/`, `?` and `#`, the port no `@`, the host none of these nor `:` and `[`.)
pub url_host-parts :
    (scheme userinfo host port tail : String)
    → Lacks is_colon scheme
    → Lacks is_authority_end (authority userinfo host port)
    → Lacks is_at (host ++ String.◌∷◌ ":" port)
    → Lacks is_colon host
    → Lacks (λ c. nat_eq c b'[') host
    → Stops is_authority_end tail
    → url_host (scheme ++ ("://" ++ (authority userinfo host port ++ tail)))
      ≡ (if is_empty host then none else some (to_ascii_lowercase host))
unfolding url_host
url_host-parts scheme userinfo host port tail hs ha hp hc hb ht =
    rw
      (
        split_once_tail-append ":" "//" scheme (authority userinfo host port ++ tail) hs,
        before-append is_authority_end (authority userinfo host port) tail ha ht,
        after_last-append is_at userinfo "@" (host ++ String.◌∷◌ ":" port) refl hp,
        host_of-port host port hc (not_bracketed host port hb),
      )
      refl

-- The hosts that never leave the machine.
abbrev pub IsLocal : Option String → Type 0
IsLocal host = (host ≡ some "localhost") ⊎ (host ≡ some "127.0.0.1") ⊎ (host ≡ some "::1")

is_loopback_host_iff : (host : Option String) → (is_loopback_host host ≡ true) ↔ IsLocal host
is_loopback_host_iff none =
    (λ h. cc, λ h. elim h [ inl e ↦ cc | inr r ↦ elim r [ inl e ↦ cc | inr e ↦ cc ] ])
is_loopback_host_iff (some h) =
    let a = eq_iff h "localhost" in
    let b = eq_iff h "127.0.0.1" in let c = eq_iff h "::1" in ground arith

plain_not_wss : (url : String) → starts_with "ws://" url ≡ true → starts_with "wss://" url ≡ false
unfolding strip_prefix
plain_not_wss String.[] h = cc
plain_not_wss (String.◌∷◌ c String.[]) h = ground arith
plain_not_wss (String.◌∷◌ c (String.◌∷◌ d String.[])) h = ground arith
plain_not_wss (String.◌∷◌ c (String.◌∷◌ d (String.◌∷◌ e s))) h = ground arith

-- A `ws://` address is dialled exactly when its host is a loopback host, with or without a pin;
-- otherwise the client refuses before anything is sent.
pub connect-plain_iff :
    (tls : Tls) (url : String) (cert_sha256 : Option String)
    → starts_with "ws://" url ≡ true
    → ((connect tls url cert_sha256 ≡ dial_default) ↔ IsLocal (url_host url))
      × ((connect tls url cert_sha256 ≡ dial_default)
          ⊎ (connect tls url cert_sha256 ≡ refuse_plain))
unfolding connect is_loopback
connect-plain_iff tls url cert_sha256 plain =
    let wss = plain_not_wss url plain in
    let iff = is_loopback_host_iff (url_host url) in
    elim (Bool-cases (is_loopback_host (url_host url))) [
      | inl here ↦ rw (wss, plain, here) ((λ e. iff.0 here, λ e. refl), inl refl)
      | inr away ↦
          rw (wss, plain, away) ((λ e. absurd (cc e), λ e. absurd (ground arith)), inr refl)
    ]

-- An address that the command layer lets through begins, trimmed, with `wss://`, or its host is a
-- loopback host.
pub server_url_ok-safe :
    (url : String)
    → server_url_ok url ≡ true
    → (starts_with "wss://" (trim url) ≡ true) ⊎ IsLocal (url_host (trim url))
unfolding server_url_ok is_loopback
server_url_ok-safe url h = let iff = is_loopback_host_iff (url_host (trim url)) in ground arith

-- With a pin, a `wss://` address is never dialled without it: the pin is the 32 bytes that the
-- trimmed text decodes to, or the client stops with an error.
pub connect-pinned :
    (tls : Tls) (url pin : String)
    → starts_with "wss://" url ≡ true
    → ((bytes : List ℕ) × (tls.hex_decode (trim pin) ≡ some bytes)
        × (length bytes ≡ 32)
        × (connect tls url (some pin) ≡ dial_pinned bytes))
      ⊎ ((e : PinError) × (connect tls url (some pin) ≡ bad_pin e))
unfolding connect pinned_connector
connect-pinned tls url pin wss = elim (Option-cases (tls.hex_decode (trim pin))) [
  | inl bad ↦ inr (PinError.not_hex, rw (wss, bad) refl)
  | inr (bytes, e) ↦ elim (Bool-cases (nat_eq (length bytes) 32)) [
    | inl fits ↦ inl (bytes, e, ground arith, rw (wss, e, fits) refl)
    | inr other ↦ inr (PinError.not_32_bytes, rw (wss, e, other) refl)
  ]
]
