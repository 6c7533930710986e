-- ===== src/Protocol.antt =====
-- The wire types of crates/protocol/src/lib.rs. A `u64`, `u32` or `usize` is a number; the JSON
-- encoding is serde's.
use rdoc_sacompanion.Base.{ℕ, String, Bool, Option, List}

pub record PeerInfo : Type 0 where
  pub user_id : String
  pub name : String

pub record ChatMsg : Type 0 where
  pub text : String
  pub ts : ℕ

pub record TurnCreds : Type 0 where
  pub urls : List String
  pub username : String
  pub credential : String
  pub ttl : ℕ

pub record JoinRequest : Type 0 where
  pub room : String
  pub user_id : String
  pub name : String
  pub token : Option String

-- Client → server.
pub data ClientMsg : Type 0 where
  join : JoinRequest → ClientMsg
  offer : (to sdp : String) → ClientMsg
  answer : (to sdp : String) → ClientMsg
  ice : (to candidate : String) → ClientMsg
  ptt : (active : Bool) → ClientMsg
  rekey : ClientMsg
  leave : ClientMsg

-- Server → client.
pub data ServerMsg : Type 0 where
  roster : (peers : List PeerInfo) → ServerMsg
  turn : TurnCreds → ServerMsg
  peer_joined : (user_id name : String) → ServerMsg
  peer_left : (user_id : String) → ServerMsg
  offer : (from sdp : String) → ServerMsg
  answer : (from sdp : String) → ServerMsg
  ice : (from candidate : String) → ServerMsg
  ptt : (user_id : String) (active : Bool) → ServerMsg
  rekey : (by : String) → ServerMsg
  room_full : (cap : ℕ) → ServerMsg
  warn : (size cap : ℕ) → ServerMsg
  error : (code message : String) → ServerMsg
