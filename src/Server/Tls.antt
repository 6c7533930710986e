-- ===== src/Server/Tls.antt =====
-- server/init/src/tls.rs: the certificate of the signaling endpoint. The file system is a map from
-- paths to texts; what the crates rcgen, rustls_pemfile and sha2 do is a parameter.
pub mod Pin
use rdoc_sacompanion.Base.{
  ℕ, String, Bool, true, false, ◌&&◌, Option, none, some, List, [], ◌∷◌, ◌++◌, nat_eq,
  if◌then◌else◌, ◌>>=◌,
}
use rdoc_sacompanion.Dict.{Dict, get, insert, contains_key}
use rdoc_sacompanion.Text.{split, keep_nonempty}

pub record Tls : Type 0 where
  pub cert_pem : String
  pub key_pem : String
  pub fingerprint : String

-- `first_cert` reads the first certificate of a PEM text.
pub record Pem : Type 0 where
  pub first_cert : String → Option (List ℕ)
  pub sha256 : List ℕ → List ℕ
  pub hex_encode : List ℕ → String

-- What the outside answers in one run: the pair that rcgen draws, and whether a path can be read and
-- written.
pub record Outside : Type 0 where
  pub generate : (sans : List String) → Option (String × String)
  pub readable : String → Bool
  pub writable : String → Bool

unfoldable pub fingerprint_of : Pem → (cert_pem : String) → Option String
fingerprint_of pem cert_pem = elim (pem.first_cert cert_pem) [
  | none ↦ none
  | some der ↦ some (pem.hex_encode (pem.sha256 der))
]

abbrev read_to_string : Outside → (path : String) → Dict String → Option String
read_to_string o path fs = if o.readable path then get path fs else none

-- The names in the certificate: the variable TLS_SAN adds to the two that are always there.
unfoldable pub sans : (extra : Option String) → List String
sans extra =
    ("localhost" ∷ "127.0.0.1" ∷ [])
    ++ elim extra [ none ↦ [] | some e ↦ keep_nonempty (split (λ c. nat_eq c b',') e) ]

abbrev with_fingerprint : Pem → (cert_pem key_pem : String) → Option Tls
with_fingerprint pem cert_pem key_pem = elim (fingerprint_of pem cert_pem) [
  | none ↦ none
  | some fp ↦ some (record { cert_pem = cert_pem; key_pem = key_pem; fingerprint = fp })
]

-- The branch for files that exist.
unfoldable pub load : Pem → Outside → (cert_path key_path : String) → Dict String → Option Tls
load pem o cert_path key_path fs = elim (read_to_string o cert_path fs) [
  | none ↦ none
  | some cert_pem ↦ elim (read_to_string o key_path fs) [
    | none ↦ none
    | some key_pem ↦ with_fingerprint pem cert_pem key_pem
  ]
]

-- The rest of `ensure`, with the pair that was drawn: the files behind it, and the result.
unfoldable pub store :
    Pem
    → Outside
    → (cert_path key_path cert_pem key_pem : String) → Dict String
    → Dict String × Option Tls
store pem o cert_path key_path cert_pem key_pem fs =
    let fs1 = insert cert_path cert_pem fs in
    let fs2 = insert key_path key_pem fs1 in
    if o.writable cert_path
    then if o.writable key_path then (fs2, with_fingerprint pem cert_pem key_pem) else (fs1, none)
    else (fs, none)

unfoldable pub ensure :
    Pem
    → Outside
    → (extra : Option String) → (cert_path key_path : String) → Dict String
    → Dict String × Option Tls
ensure pem o extra cert_path key_path fs =
    if contains_key cert_path fs && contains_key key_path fs
    then (fs, load pem o cert_path key_path fs)
    else elim (o.generate (sans extra)) [
      | none ↦ (fs, none)
      | some (cert_pem, key_pem) ↦ store pem o cert_path key_path cert_pem key_pem fs
    ]
