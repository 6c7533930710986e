-- ===== src/Core/Audio/Rig.antt =====
-- `setup_audio` and the methods of `Engine` in apps/companion-core/src/lib.rs that write to what the
-- audio threads read.
use rdoc_sacompanion.Base.{ℕ, String, Bool, true, false, if◌then◌else◌}
use rdoc_sacompanion.Core.Audio.{Gains, new_gains, set_master, set_peer}
use rdoc_sacompanion.Core.Audio.Floats.{Float}
use rdoc_sacompanion.Core.Audio.Dsp.{DspConfig, default_config}
use rdoc_sacompanion.Core.Audio.Encode.{Flags}

-- The cells that the handle, the event loop and the threads share.
pub record Rig (F : Type 0) : Type 0 where
  pub transmit : Bool
  pub gains : Gains F
  pub dsp_cfg : DspConfig F
  pub monitor : Bool
  pub stop : Bool
  pub bitrate : ℕ
  pub dtx : Bool

module _ {F : Type 0} ⦃f : Float F⦄ where
  unfoldable pub setup_audio : Rig F
  setup_audio = record {
    transmit = false;
    gains = new_gains;
    dsp_cfg = default_config;
    monitor = false;
    stop = false;
    bitrate = 0;
    dtx = false;
  }

  unfoldable pub set_master_volume : F → Rig F → Rig F
  set_master_volume v r = record r { gains = set_master v r.gains }

  unfoldable pub set_peer_volume : (user_id : String) → F → Rig F → Rig F
  set_peer_volume user_id v r = record r { gains = set_peer user_id v r.gains }

module _ {F : Type 0} where
  unfoldable pub set_dsp : DspConfig F → Rig F → Rig F
  set_dsp cfg r = record r { dsp_cfg = cfg }

  unfoldable pub set_monitor : Bool → Rig F → Rig F
  set_monitor on r = record r { monitor = on }

  unfoldable pub set_low_bandwidth : Bool → Rig F → Rig F
  set_low_bandwidth on r = record r { bitrate = if on then 14000 else 0; dtx = on }

  -- `Drop for Engine`
  unfoldable pub drop_engine : Rig F → Rig F
  drop_engine r = record r { stop = true }

  -- What `encode_loop` reads of the cells for one frame.
  abbrev pub flags_of : Rig F → Flags F
  flags_of r = record {
    transmit = r.transmit;
    monitor = r.monitor;
    dtx = r.dtx;
    bitrate = r.bitrate;
    dsp_cfg = r.dsp_cfg;
  }
