-- ===== src/App.antt =====
-- apps/companion/src-tauri/src/main.rs: the desktop shell's commands, between the webview and the
-- engine.
pub mod Connect
pub mod Ptt
pub mod Commands
pub mod Settings
pub mod Rigs
use rdoc_sacompanion.Base.{ℕ, suc, String, Bool, true, false, ◌&&◌, ◌||◌, not, leb, nat_eq, len}
use rdoc_sacompanion.Text.{is_empty, chars_all, is_ascii_alphanumeric, is_ascii_hexdigit}

abbrev pub is_id_char : ℕ → Bool
is_id_char c = is_ascii_alphanumeric c || nat_eq c b'-' || nat_eq c b'_'

unfoldable pub valid_id : String → (max : ℕ) → Bool
valid_id s max = not (is_empty s) && (leb (len s) max && chars_all is_id_char s)

unfoldable pub valid_hex : String → (max : ℕ) → Bool
valid_hex s max = not (is_empty s) && (leb (len s) max && chars_all is_ascii_hexdigit s)

-- `s.chars().count()`
unfoldable pub char_count : String → ℕ
char_count String.[] = 0
char_count (String.◌∷◌ c s) = suc (char_count s)
