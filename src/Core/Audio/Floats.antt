-- ===== src/Core/Audio/Floats.antt =====
-- What the audio code does with its floating-point numbers. No law is assumed here: a theorem that
-- relies on one names it.
use rdoc_sacompanion.Base.{ℕ, Bool, ℤ, if◌then◌else◌}

-- A width of float. `lit n d` is the literal for n/d, `of_int` the cast of an integer, and
-- `to_int w` the cast to a signed integer of `w` bits, which saturates.
pub record Float (F : Type 0) : Type 0 where
  pub lit : (n d : ℕ) → F
  pub plus : F → F → F
  pub minus : F → F → F
  pub times : F → F → F
  pub over : F → F → F
  pub neg : F → F
  pub abs : F → F
  pub max : F → F → F
  pub exp : F → F
  pub tanh : F → F
  pub lt : F → F → Bool
  pub le : F → F → Bool
  pub is_finite : F → Bool
  pub of_int : ℤ → F
  pub to_int : (w : ℕ) → F → ℤ

infixl 65 ◌+f◌ ◌-f◌
infixl 70 ◌*f◌ ◌/f◌
infix 50 ◌<f◌ ◌>f◌ ◌>=f◌
abbrev pub ◌+f◌ : {F : Type 0} ⦃f : Float F⦄ → F → F → F
◌+f◌ ⦃f⦄ x y = f.plus x y

abbrev pub ◌-f◌ : {F : Type 0} ⦃f : Float F⦄ → F → F → F
◌-f◌ ⦃f⦄ x y = f.minus x y

abbrev pub ◌*f◌ : {F : Type 0} ⦃f : Float F⦄ → F → F → F
◌*f◌ ⦃f⦄ x y = f.times x y

abbrev pub ◌/f◌ : {F : Type 0} ⦃f : Float F⦄ → F → F → F
◌/f◌ ⦃f⦄ x y = f.over x y

abbrev pub ◌<f◌ : {F : Type 0} ⦃f : Float F⦄ → F → F → Bool
◌<f◌ ⦃f⦄ x y = f.lt x y

abbrev pub ◌>f◌ : {F : Type 0} ⦃f : Float F⦄ → F → F → Bool
◌>f◌ ⦃f⦄ x y = f.lt y x

abbrev pub ◌>=f◌ : {F : Type 0} ⦃f : Float F⦄ → F → F → Bool
◌>=f◌ ⦃f⦄ x y = f.le y x

abbrev pub lit : {F : Type 0} ⦃f : Float F⦄ → (n d : ℕ) → F
lit ⦃f⦄ n d = f.lit n d

-- `clamp` of the standard library; a NaN stays as it is.
unfoldable pub clamp : {F : Type 0} ⦃f : Float F⦄ → (x lo hi : F) → F
clamp x lo hi = if x <f lo then lo else if x >f hi then hi else x
