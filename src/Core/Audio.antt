-- ===== src/Core/Audio.antt =====
-- apps/companion-core/src/audio.rs: what stands between the sound card, Opus and the peers. This
-- file has the constants and the gains.
pub mod Floats
pub mod Resampler
pub mod Dsp
pub mod Encode
pub mod Devices
pub mod Decode
pub mod Mixer
pub mod World
pub mod Rig
use rdoc_sacompanion.Base.{ℕ, String, Option, none, some, [], unwrap_or}
use rdoc_sacompanion.Dict.{Dict, get, insert}
use rdoc_sacompanion.Core.Audio.Floats.{Float, lit, clamp}

abbrev pub opus_sr : ℕ
opus_sr = 48000

-- 20 ms of one channel.
abbrev pub frame : ℕ
frame = 960

-- `Gains`: `none` for the master stands for 1.0.
pub record Gains (F : Type 0) : Type 0 where
  pub master : Option F
  pub peers : Dict F

module _ {F : Type 0} ⦃f : Float F⦄ where
  -- `Gains::new`
  abbrev pub new_gains : Gains F
  new_gains = record { master = some (lit 1 1); peers = [] }

  unfoldable pub set_master : F → Gains F → Gains F
  set_master v g = record g { master = some (clamp v (lit 0 1) (lit 2 1)) }

  unfoldable pub set_peer : (peer : String) → F → Gains F → Gains F
  set_peer peer v g = record g { peers = insert peer (clamp v (lit 0 1) (lit 2 1)) g.peers }

  unfoldable pub master_v : Gains F → F
  master_v g = unwrap_or g.master (lit 1 1)

  unfoldable pub peer_v : Gains F → (peer : String) → F
  peer_v g peer = unwrap_or (get peer g.peers) (lit 1 1)
