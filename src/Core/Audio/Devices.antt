-- ===== src/Core/Audio/Devices.antt =====
-- `choose`, `build_input`, `build_output` and `run_devices` of apps/companion-core/src/audio.rs: the
-- sound cards. What the host lists is a parameter; a stream is what its callback does.
pub mod Downmix
use rdoc_sacompanion.Base.{
  ℕ, zero, suc, String, Bool, true, false, Option, none, some, ◌⊎◌, inl, inr, List, [], ◌∷◌, ◌++◌,
  map, ℤ, pos, ◌+ℤ◌, div_ℕ, wrap, i16, i32, length, take, drop, ◌&&◌, is_some, if◌then◌else◌,
}
use rdoc_sacompanion.Text.{is_empty, split_once_tail}
use rdoc_sacompanion.Core.Audio.Floats.{Float, lit, clamp, ◌+f◌, ◌*f◌, ◌/f◌}

pub data SampleFormat : Type 0 where
  f32 : SampleFormat
  i16_samples : SampleFormat
  unsupported : SampleFormat

pub record Config : Type 0 where
  pub fmt : SampleFormat
  pub channels : ℕ
  pub rate : ℕ

-- The crate cpal: a device's name and default configuration, each of which may be an error.
pub record Device : Type 0 where
  pub name : Option String
  pub config : Option Config

-- Where `true` stands for input.
pub record Host : Type 0 where
  pub devices : Bool → Option (List Device)
  pub default_device : Bool → Option Device

pub record Picked : Type 0 where
  pub device : Device
  pub config : Config

pub data ChooseError : Type 0 where
  host_error : ChooseError
  not_found : (want : String) → ChooseError
  no_default : ChooseError
  config_error : ChooseError

-- `n.contains(w)` on a name that can be read.
unfoldable pub is_named : (want : String) → Device → Bool
is_named want d = elim d.name [ none ↦ false | some n ↦ is_some (split_once_tail want n) ]

unfoldable pub find_named : (want : String) → List Device → Option Device
find_named want [] = none
find_named want (d ∷ ds) = let rest = find_named want ds in if is_named want d then some d else rest

abbrev or_error : {A : Type 0} → ChooseError → Option A → ChooseError ⊎ A
or_error e none = inl e
or_error e (some a) = inr a

-- An empty wish is no wish.
unfoldable pub pick_device :
    Host → (input : Bool) → (want : Option String) → List Device → ChooseError ⊎ Device
pick_device host input none devs = or_error no_default (host.default_device input)
pick_device host input (some w) devs =
    if is_empty w
    then or_error no_default (host.default_device input)
    else or_error (not_found w) (find_named w devs)

abbrev with_config : Device → ChooseError ⊎ Picked
with_config d = elim d.config [
  | none ↦ inl config_error
  | some c ↦ inr (record { device = d; config = c })
]

unfoldable pub choose : Host → (input : Bool) → (want : Option String) → ChooseError ⊎ Picked
choose host input want = elim (host.devices input) [
  | none ↦ inl host_error
  | some devs ↦ elim (pick_device host input want devs) [ inl e ↦ inl e | inr d ↦ with_config d ]
]

module _ {A : Type 0} (n : ℕ) where
  abbrev chunks_fuel : (fuel : ℕ) → List A → List (List A)
  chunks_fuel zero xs = []
  chunks_fuel (suc fuel) [] = []
  chunks_fuel (suc fuel) (x ∷ xs) = take n (x ∷ xs) ∷ chunks_fuel fuel (drop n (x ∷ xs))

  -- `data.chunks(n)`: the last one may be shorter.
  unfoldable pub chunks : List A → List (List A)
  chunks xs = chunks_fuel (length xs) xs

-- `fr.iter().map(|&x| x as i32).sum::<i32>()`, which wraps around.
unfoldable pub sum_i32 : (acc : ℤ) → List ℤ → ℤ
sum_i32 acc [] = acc
sum_i32 acc (x ∷ xs) = sum_i32 (wrap i32 (acc +ℤ x)) xs

-- One frame of `ch` channels of 16 bits, as one sample.
unfoldable pub mono_i16 : (ch : ℕ) → List ℤ → ℤ
mono_i16 ch fr = wrap i16 (div_ℕ (sum_i32 (pos 0) fr) ch)

-- The input callback on 16-bit samples.
unfoldable pub capture_i16 : (ch : ℕ) → (data_in cap : List ℤ) → List ℤ
capture_i16 ch data_in cap = cap ++ map (mono_i16 ch) (chunks ch data_in)

module _ {A : Type 0} (emit : ℤ → A) where
  -- `for fr in data.chunks_mut(ch)`: every channel of a frame gets the next sample, or silence.
  abbrev play_frames : List (List A) → (play : List ℤ) → List A × List ℤ
  play_frames [] play = ([], play)
  play_frames (fr ∷ frs) [] =
      let (out, rest) = play_frames frs [] in (map (λ o. emit (pos 0)) fr ++ out, rest)
  play_frames (fr ∷ frs) (v ∷ play) =
      let (out, rest) = play_frames frs play in (map (λ o. emit v) fr ++ out, rest)

  -- An output callback: what it writes into `data`, and what is left to play.
  unfoldable pub fill_output : (ch : ℕ) → (data_out : List A) → (play : List ℤ) → List A × List ℤ
  fill_output ch data_out play = play_frames (chunks ch data_out) play

-- The output callback on 16-bit samples.
abbrev pub play_i16 : (ch : ℕ) → (data_out play : List ℤ) → List ℤ × List ℤ
play_i16 = fill_output (λ v. v)

module _ {F : Type 0} ⦃f : Float F⦄ where
  abbrev sum_f32 : (acc : F) → List F → F
  sum_f32 acc [] = acc
  sum_f32 acc (x ∷ xs) = sum_f32 (acc +f x) xs

  -- One frame of floats, as one sample.
  unfoldable pub mono_f32 : (ch : ℕ) → List F → ℤ
  mono_f32 ch fr =
      let s = sum_f32 (lit 0 1) fr /f f.of_int (pos ch) in
      f.to_int i16 (clamp s (f.neg (lit 1 1)) (lit 1 1) *f lit 32767 1)

  -- The input callback on floats.
  unfoldable pub capture_f32 : (ch : ℕ) → (data_in : List F) → (cap : List ℤ) → List ℤ
  capture_f32 ch data_in cap = cap ++ map (mono_f32 ch) (chunks ch data_in)

  -- The output callback on floats.
  abbrev pub play_f32 : (ch : ℕ) → (data_out : List F) → (play : List ℤ) → List F × List ℤ
  play_f32 = fill_output (λ v. f.of_int v /f lit 32768 1)

abbrev or_else : Option String → Option String → Option String
or_else none env = env
or_else (some n) env = some n

-- `build_input` and `build_output` refuse other formats.
abbrev is_supported : SampleFormat → Bool
is_supported f32 = true
is_supported i16_samples = true
is_supported unsupported = false

-- What comes of `run_devices`: the rates that it reports, and whether both streams run until `stop`.
-- Without them the thread has panicked.
pub record Devices : Type 0 where
  pub reported : Option (ℕ × ℕ)
  pub playing : Bool

abbrev panicked : Devices
panicked = record { reported = none; playing = false }

-- The settings' names go before the environment's.
unfoldable pub run_devices : Host → (in_name out_name in_env out_env : Option String) → Devices
run_devices host in_name out_name in_env out_env =
    elim (choose host true (or_else in_name in_env)) [
      | inl e ↦ panicked
      | inr inp ↦ elim (choose host false (or_else out_name out_env)) [
        | inl e ↦ panicked
        | inr outp ↦ record {
          reported = some (inp.config.rate, outp.config.rate);
          playing = is_supported inp.config.fmt && is_supported outp.config.fmt;
        }
      ]
    ]
