-- ===== src/App/Settings.antt =====
-- The commands of apps/companion/src-tauri/src/main.rs that change the audio of a running session. The
-- floats come from the web view and may be anything.
pub mod Ranges
use rdoc_sacompanion.Base.{
  String, Bool, true, false, Option, none, some, List, [], ◌∷◌, if◌then◌else◌,
}
use rdoc_sacompanion.App.{valid_id}
use rdoc_sacompanion.Core.Audio.Floats.{Float, lit, clamp}
use rdoc_sacompanion.Core.Audio.Dsp.{DspConfig}
use rdoc_sacompanion.Core.Audio.Rig
use rdoc_sacompanion.Core.Audio.Rig.{Rig}

pub data Setting (F : Type 0) : Type 0 where
  set_master_volume : (volume : F) → Setting F
  set_peer_volume : (user_id : String) (volume : F) → Setting F
  set_dsp : (cfg : DspConfig F) → Setting F
  set_monitor : (on : Bool) → Setting F
  set_low_bandwidth : (on : Bool) → Setting F

module _ {F : Type 0} ⦃f : Float F⦄ where
  unfoldable pub clamp_vol : F → F
  clamp_vol v = if f.is_finite v then clamp v (lit 0 1) (lit 2 1) else lit 1 1

  -- The closure `norm` of `set_dsp`.
  unfoldable pub norm : (v lo hi dflt : F) → F
  norm v lo hi dflt = if f.is_finite v then clamp v lo hi else dflt

  unfoldable pub normalized : DspConfig F → DspConfig F
  normalized cfg = record cfg {
    gate_threshold = norm cfg.gate_threshold (lit 0 1) (lit 5 10) (lit 15 1000);
    comp_threshold = norm cfg.comp_threshold (lit 1 100) (lit 1 1) (lit 15 100);
    comp_ratio = norm cfg.comp_ratio (lit 1 1) (lit 20 1) (lit 3 1);
    comp_makeup = norm cfg.comp_makeup (lit 1 10) (lit 4 1) (lit 14 10);
    limiter_ceiling = norm cfg.limiter_ceiling (lit 5 100) (lit 1 1) (lit 97 100);
  }

  -- What a command does to the rig of the running engine.
  unfoldable pub apply : Setting F → Rig F → Rig F
  apply (set_master_volume volume) r = Rig.set_master_volume (clamp_vol volume) r
  apply (set_peer_volume user_id volume) r =
      if valid_id user_id 64 then Rig.set_peer_volume user_id (clamp_vol volume) r else r
  apply (set_dsp cfg) r = Rig.set_dsp (normalized cfg) r
  apply (set_monitor on) r = Rig.set_monitor on r
  apply (set_low_bandwidth on) r = Rig.set_low_bandwidth on r

  -- The command, without an engine nothing.
  abbrev pub command : Setting F → Option (Rig F) → Option (Rig F)
  command s none = none
  command s (some r) = some (apply s r)

  abbrev pub commands : List (Setting F) → Option (Rig F) → Option (Rig F)
  commands [] r = r
  commands (s ∷ ss) r = commands ss (command s r)
