-- ===== src/Server.antt =====
-- server/init: the signaling server. `Crypto` is what its files take from other crates.
pub mod CtEq
pub mod Auth
pub mod Sessions
pub mod RateLimit
pub mod Channel
pub mod Turn
pub mod Room
pub mod Socket
pub mod Http
pub mod Lang
pub mod Cors
pub mod Page
pub mod Tls
pub mod Start
use rdoc_sacompanion.Base.{ℕ, String, List}

-- The `hmac`, `sha2`, `sha1`, `hex` and `base64` crates. No law of theirs is assumed here.
pub record Crypto : Type 0 where
  pub hmac_sha256 : (key msg : List ℕ) → List ℕ
  pub hmac_sha1 : (key msg : List ℕ) → List ℕ
  pub hex_encode : List ℕ → String
  pub base64_encode : List ℕ → String
