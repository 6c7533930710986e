-- ===== src/Server/Sessions/Draws.antt =====
-- `rand_code` and `rand_pin` of server/init/src/sessions.rs, as functions of what the generator
-- draws.
use Prim.Native.String.{char_at, count}
use rdoc_sacompanion.Base.{ℕ, ◌<◌, String, ◌≡◌, List, [], ◌∷◌}
use rdoc_sacompanion.Text.Decimal.{zero_padded, value, value-zero_padded, count-zero_padded}

-- The unambiguous alphabet, 32 characters.
abbrev pub alphabet : String
alphabet = "abcdefghijkmnpqrstuvwxyz23456789"

-- One character for each index drawn below 32; the program draws 8.
unfoldable pub rand_code : List ℕ → String
rand_code [] = String.[]
rand_code (i ∷ draws) = String.◌∷◌ (char_at alphabet i) (rand_code draws)

-- `format!("{n:06}")` of a number below 1_000_000.
unfoldable pub rand_pin : ℕ → String
rand_pin n = zero_padded 6 n

-- A PIN has six characters and spells its number, so all 1_000_000 PINs differ.
pub rand_pin_lem : (n : ℕ) → n < 1_000_000 → (count (rand_pin n) ≡ 6) × (value 0 (rand_pin n) ≡ n)
unfolding rand_pin
rand_pin_lem n h = (count-zero_padded 6 n, value-zero_padded 6 n h)
