-- ===== src/App/Settings/Ranges.antt =====
-- Whatever the web view sends, the audio works with numbers in their ranges.
use rdoc_sacompanion.Base.{
  ℕ, ◌*◌, ◌≤◌, ◌<◌, String, ◌==◌, ◌≡◌, refl, true, false, Bool-cases, inl, inr, some, List, [], ◌∷◌,
  arith,
}
use rdoc_sacompanion.Dict.{get-insert, get-empty}
use rdoc_sacompanion.App.{valid_id}
use rdoc_sacompanion.Core.Audio.{Gains, set_master, set_peer, master_v, peer_v}
use rdoc_sacompanion.Core.Audio.Floats.{Float, lit, clamp}
use rdoc_sacompanion.Core.Audio.Dsp.{DspConfig, default_config}
use rdoc_sacompanion.Core.Audio.Rig
use rdoc_sacompanion.Core.Audio.Rig.{Rig, setup_audio}
use rdoc_sacompanion.App.Settings.{Setting, clamp_vol, norm, normalized, apply, commands}

-- The order of f32 on its finite values, and on literals up to 20.
pub record IsOrder (F : Type 0) ⦃f : Float F⦄ : Type 0 where
  pub lit_finite : (n d : ℕ) → 0 < d → n ≤ 20 * d → f.is_finite (lit n d) ≡ true
  pub lit_le : (n d m e : ℕ) → 0 < d → 0 < e → n * e ≤ m * d → f.le (lit n d) (lit m e) ≡ true
  pub not_lt :
      (x y : F) → f.is_finite x ≡ true → f.is_finite y ≡ true → f.lt x y ≡ false → f.le y x ≡ true

module _ {F : Type 0} ⦃f : Float F⦄ where
  abbrev pub InRange : (lo hi x : F) → Type 0
  InRange lo hi x = (f.le lo x ≡ true) × (f.le x hi ≡ true)

  pub record SaneGains (g : Gains F) : Type 0 where
    pub master : InRange (lit 0 1) (lit 2 1) (master_v g)
    pub peers : (user_id : String) → InRange (lit 0 1) (lit 2 1) (peer_v g user_id)

  pub record SaneDsp (c : DspConfig F) : Type 0 where
    pub gate : InRange (lit 0 1) (lit 5 10) c.gate_threshold
    pub knee : InRange (lit 1 100) (lit 1 1) c.comp_threshold
    pub ratio : InRange (lit 1 1) (lit 20 1) c.comp_ratio
    pub makeup : InRange (lit 1 10) (lit 4 1) c.comp_makeup
    pub ceiling : InRange (lit 5 100) (lit 1 1) c.limiter_ceiling

  -- All that the mixer and the DSP chain read.
  pub record IsSane (r : Rig F) : Type 0 where
    pub gains : SaneGains r.gains
    pub dsp : SaneDsp r.dsp_cfg

  module _ (order : IsOrder F) where
    clamp-InRange :
        (v lo hi : F)
        → f.is_finite v ≡ true
        → f.is_finite lo ≡ true
        → f.is_finite hi ≡ true
        → f.le lo lo ≡ true
        → f.le lo hi ≡ true
        → f.le hi hi ≡ true
        → InRange lo hi (clamp v lo hi)
    unfolding clamp
    clamp-InRange v lo hi fv fl fh ll lh hh = ground (arith, order.not_lt v lo, order.not_lt hi v)

    norm-InRange :
        (v lo hi dflt : F)
        → f.is_finite lo ≡ true
        → f.is_finite hi ≡ true
        → f.le lo lo ≡ true
        → f.le lo hi ≡ true
        → f.le hi hi ≡ true
        → InRange lo hi dflt
        → InRange lo hi (norm v lo hi dflt)
    unfolding norm
    norm-InRange v lo hi dflt fl fh ll lh hh d = elim (Bool-cases (f.is_finite v)) [
      | inl e ↦ rw e (clamp-InRange v lo hi e fl fh ll lh hh)
      | inr e ↦ rw e d
    ]

    lit-InRange :
        (n d a b c e : ℕ)
        → 0 < d
        → 0 < b
        → 0 < e
        → a * d ≤ n * b
        → n * e ≤ c * d
        → InRange (lit a b) (lit c e) (lit n d)
    lit-InRange n d a b c e hd hb he low high =
        (order.lit_le a b n d hb hd low, order.lit_le n d c e hd he high)

    norm_lit-InRange :
        (v dflt : F) (a b c e : ℕ)
        → 0 < b
        → 0 < e
        → a ≤ 20 * b
        → c ≤ 20 * e
        → a * e ≤ c * b
        → InRange (lit a b) (lit c e) dflt
        → InRange (lit a b) (lit c e) (norm v (lit a b) (lit c e) dflt)
    norm_lit-InRange v dflt a b c e hb he ha hc low h =
        norm-InRange v (lit a b) (lit c e) dflt (order.lit_finite a b hb ha)
          (order.lit_finite c e he hc) (order.lit_le a b a b hb hb (omega arith))
          (order.lit_le a b c e hb he low) (order.lit_le c e c e he he (omega arith)) h

    clamp_vol-finite : (v : F) → f.is_finite (clamp_vol v) ≡ true
    unfolding clamp_vol clamp
    clamp_vol-finite v = ground (
      arith,
      order.lit_finite 0 1 (omega arith) (omega arith),
      order.lit_finite 1 1 (omega arith) (omega arith),
      order.lit_finite 2 1 (omega arith) (omega arith),
    )

    -- What the core keeps of a volume: it clamps once more.
    volume-InRange : (v : F) → InRange (lit 0 1) (lit 2 1) (clamp (clamp_vol v) (lit 0 1) (lit 2 1))
    volume-InRange v =
        clamp-InRange (clamp_vol v) (lit 0 1) (lit 2 1) (clamp_vol-finite v)
          (order.lit_finite 0 1 (omega arith) (omega arith))
          (order.lit_finite 2 1 (omega arith) (omega arith))
          (order.lit_le 0 1 0 1 (omega arith) (omega arith) (omega arith))
          (order.lit_le 0 1 2 1 (omega arith) (omega arith) (omega arith))
          (order.lit_le 2 1 2 1 (omega arith) (omega arith) (omega arith))

    one-InRange : InRange (lit 0 1) (lit 2 1) (lit 1 1)
    one-InRange =
        lit-InRange 1 1 0 1 2 1 (omega arith) (omega arith) (omega arith) (omega arith)
          (omega arith)

    default-SaneDsp : SaneDsp default_config
    default-SaneDsp = record {
      gate =
          lit-InRange 15 1000 0 1 5 10 (omega arith) (omega arith) (omega arith) (omega arith)
            (omega arith);
      knee =
          lit-InRange 15 100 1 100 1 1 (omega arith) (omega arith) (omega arith) (omega arith)
            (omega arith);
      ratio =
          lit-InRange 3 1 1 1 20 1 (omega arith) (omega arith) (omega arith) (omega arith)
            (omega arith);
      makeup =
          lit-InRange 14 10 1 10 4 1 (omega arith) (omega arith) (omega arith) (omega arith)
            (omega arith);
      ceiling =
          lit-InRange 97 100 5 100 1 1 (omega arith) (omega arith) (omega arith) (omega arith)
            (omega arith);
    }

    setup_audio-IsSane : IsSane setup_audio
    unfolding setup_audio master_v peer_v
    setup_audio-IsSane = record {
      gains = record { master = one-InRange; peers = λ user_id. rw get-empty one-InRange };
      dsp = default-SaneDsp;
    }

    normalized-SaneDsp : (c : DspConfig F) → SaneDsp (normalized c)
    unfolding normalized
    normalized-SaneDsp c = record {
      gate =
          norm_lit-InRange _ _ 0 1 5 10 (omega arith) (omega arith) (omega arith) (omega arith)
            (omega arith) default-SaneDsp.gate;
      knee =
          norm_lit-InRange _ _ 1 100 1 1 (omega arith) (omega arith) (omega arith) (omega arith)
            (omega arith) default-SaneDsp.knee;
      ratio =
          norm_lit-InRange _ _ 1 1 20 1 (omega arith) (omega arith) (omega arith) (omega arith)
            (omega arith) default-SaneDsp.ratio;
      makeup =
          norm_lit-InRange _ _ 1 10 4 1 (omega arith) (omega arith) (omega arith) (omega arith)
            (omega arith) default-SaneDsp.makeup;
      ceiling =
          norm_lit-InRange _ _ 5 100 1 1 (omega arith) (omega arith) (omega arith) (omega arith)
            (omega arith) default-SaneDsp.ceiling;
    }

    set_peer-InRange :
        (g : Gains F) (user_id : String) (v : F) (other : String)
        → InRange (lit 0 1) (lit 2 1) (peer_v g other)
        → InRange (lit 0 1) (lit 2 1) (peer_v (set_peer user_id (clamp_vol v) g) other)
    unfolding peer_v set_peer
    set_peer-InRange g user_id v other h = elim (Bool-cases (user_id == other)) [
      | inl e ↦ rw (get-insert, e) (volume-InRange v)
      | inr e ↦ rw (get-insert, e) h
    ]

    apply-IsSane : (s : Setting F) (r : Rig F) → IsSane r → IsSane (apply s r)
    unfolding apply Rig.set_master_volume Rig.set_peer_volume Rig.set_dsp Rig.set_monitor
        Rig.set_low_bandwidth
    apply-IsSane (Setting.set_master_volume v) r i = record {
      gains = record {
        master = unfold master_v set_master in volume-InRange v;
        peers = unfold peer_v set_master in i.gains.peers;
      };
      dsp = i.dsp;
    }
    apply-IsSane (Setting.set_peer_volume user_id v) r i = elim (Bool-cases (valid_id user_id 64)) [
      | inl e ↦ rw e (record {
        gains = record {
          master = unfold master_v set_peer in i.gains.master;
          peers = λ other. set_peer-InRange r.gains user_id v other (i.gains.peers other);
        };
        dsp = i.dsp;
      })
      | inr e ↦ rw e i
    ]
    apply-IsSane (Setting.set_dsp cfg) r i = record {
      gains = i.gains;
      dsp = normalized-SaneDsp cfg;
    }
    apply-IsSane (Setting.set_monitor on) r i = record { gains = i.gains; dsp = i.dsp }
    apply-IsSane (Setting.set_low_bandwidth on) r i = record { gains = i.gains; dsp = i.dsp }

    commands-keep :
        (ss : List (Setting F)) (r : Rig F)
        → IsSane r
        → (r' : Rig F) × ((commands ss (some r) ≡ some r') × IsSane r')
    commands-keep [] r i = (r, (refl, i))
    commands-keep (s ∷ ss) r i = commands-keep ss (apply s r) (apply-IsSane s r i)

    -- After any commands, with any floats in them, the engine still runs, the gains that the mixer
    -- uses lie between 0 and 2, and the numbers of the DSP chain in the ranges of the shell.
    pub commands-IsSane :
        (ss : List (Setting F))
        → (r : Rig F) × ((commands ss (some setup_audio) ≡ some r) × IsSane r)
    commands-IsSane ss = commands-keep ss setup_audio setup_audio-IsSane
