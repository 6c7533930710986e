-- ===== src/Text.antt =====
-- Rust's `str` methods that the program uses, over the native texts, whose `len` counts bytes of
-- UTF-8 as Rust's does. A pattern of a `split` is a test on a character's number.
pub mod Bytes
pub mod Laws
pub mod Trim
pub mod Decimal
pub mod Order
use Prim.Native.Char.{Char, code}
use Prim.Native.String.{char_at, compare}
use text.Mathlib.Text.{is_lt}
use rdoc_sacompanion.Base.{
  ℕ, zero, suc, ◌-◌, String, ◌==◌, Bool, true, false, ◌&&◌, ◌||◌, Option, none, some, List, [], ◌∷◌,
  leb, nat_eq, if◌then◌else◌,
}

-- `s.is_empty()`
abbrev pub is_empty : String → Bool
is_empty String.[] = true
is_empty (String.◌∷◌ c s) = false

-- `s.chars().all(p)`
unfoldable pub chars_all : (ℕ → Bool) → String → Bool
chars_all p String.[] = true
chars_all p (String.◌∷◌ c s) = p (code c) && chars_all p s

-- `s.chars().any(p)`
unfoldable pub chars_any : (ℕ → Bool) → String → Bool
chars_any p String.[] = false
chars_any p (String.◌∷◌ c s) = p (code c) || chars_any p s

-- `s.split(p).next()`: the text before the first separator, all of it if there is none.
unfoldable pub before : (ℕ → Bool) → String → String
before p String.[] = String.[]
before p (String.◌∷◌ c s) =
    let rest = before p s in if p (code c) then String.[] else String.◌∷◌ c rest

-- `s.rsplit(p).next()`: the text behind the last separator, all of it if there is none.
unfoldable pub after_last : (ℕ → Bool) → String → String
unfolding chars_any
after_last p String.[] = String.[]
after_last p (String.◌∷◌ c s) =
    let rest = after_last p s in if p (code c) || chars_any p s then rest else String.◌∷◌ c s

abbrev onto_first : Char → List String → List String
onto_first c [] = String.◌∷◌ c String.[] ∷ []
onto_first c (w ∷ ws) = String.◌∷◌ c w ∷ ws

-- `s.split(p)`: every part.
unfoldable pub split : (ℕ → Bool) → String → List String
split p String.[] = String.[] ∷ []
split p (String.◌∷◌ c s) =
    let parts = split p s in if p (code c) then String.[] ∷ parts else onto_first c parts

-- `s.strip_prefix(t)`, the pattern first
unfoldable pub strip_prefix : String → String → Option String
strip_prefix String.[] s = some s
strip_prefix (String.◌∷◌ d t) String.[] = none
strip_prefix (String.◌∷◌ d t) (String.◌∷◌ c s) =
    let rest = strip_prefix t s in if nat_eq (code c) (code d) then rest else none

-- `s.split_once(t)?.1`: the text behind the first occurrence of `t`
unfoldable pub split_once_tail : String → String → Option String
unfolding strip_prefix
split_once_tail t String.[] = strip_prefix t String.[]
split_once_tail t (String.◌∷◌ c s) = elim (strip_prefix t (String.◌∷◌ c s)) [
  | some rest ↦ some rest
  | none ↦ split_once_tail t s
]

-- `char::is_whitespace`: the property White_Space of Unicode
abbrev pub is_whitespace : ℕ → Bool
is_whitespace c =
    (leb 0x9 c && leb c 0xd)
    || nat_eq c 0x20
    || nat_eq c 0x85
    || nat_eq c 0xa0
    || nat_eq c 0x1680
    || (leb 0x2000 c && leb c 0x200a)
    || nat_eq c 0x2028
    || nat_eq c 0x2029
    || nat_eq c 0x202f
    || nat_eq c 0x205f
    || nat_eq c 0x3000

-- `char::is_control`: the general category Cc
abbrev pub is_control : ℕ → Bool
is_control c = leb c 0x1f || (leb 0x7f c && leb c 0x9f)

abbrev pub is_ascii_digit : ℕ → Bool
is_ascii_digit c = leb b'0' c && leb c b'9'

abbrev pub is_ascii_alphanumeric : ℕ → Bool
is_ascii_alphanumeric c =
    (leb b'a' c && leb c b'z') || (leb b'A' c && leb c b'Z') || is_ascii_digit c

abbrev pub is_ascii_hexdigit : ℕ → Bool
is_ascii_hexdigit c = (leb b'a' c && leb c b'f') || (leb b'A' c && leb c b'F') || is_ascii_digit c

unfoldable pub trim_start : String → String
trim_start String.[] = String.[]
trim_start (String.◌∷◌ c s) =
    let rest = trim_start s in if is_whitespace (code c) then rest else String.◌∷◌ c s

unfoldable pub trim_end : String → String
trim_end String.[] = String.[]
trim_end (String.◌∷◌ c s) =
    let rest = trim_end s in
    if is_whitespace (code c) && is_empty rest then String.[] else String.◌∷◌ c rest

-- `s.trim()`
unfoldable pub trim : String → String
unfolding trim_start trim_end
trim s = trim_end (trim_start s)

abbrev pub lower_char : Char → Char
lower_char c =
    if leb b'A' (code c) && leb (code c) b'Z'
    then char_at "abcdefghijklmnopqrstuvwxyz" (code c - b'A')
    else c

-- `s.to_ascii_lowercase()`
unfoldable pub to_ascii_lowercase : String → String
to_ascii_lowercase String.[] = String.[]
to_ascii_lowercase (String.◌∷◌ c s) = String.◌∷◌ (lower_char c) (to_ascii_lowercase s)

-- `s.eq_ignore_ascii_case(t)`
abbrev pub eq_ignore_ascii_case : String → String → Bool
eq_ignore_ascii_case s t = to_ascii_lowercase s == to_ascii_lowercase t

-- `s.chars().take(n).collect()`
unfoldable pub take_chars : ℕ → String → String
take_chars zero s = String.[]
take_chars (suc n) String.[] = String.[]
take_chars (suc n) (String.◌∷◌ c s) = String.◌∷◌ c (take_chars n s)

-- `s < t` on texts: by their bytes, which is the order of their characters' numbers
abbrev pub str_lt : String → String → Bool
str_lt s t = is_lt (compare s t)

-- The parts of `s.split(',')`, trimmed, without the empty ones.
unfoldable pub keep_nonempty : List String → List String
unfolding trim
keep_nonempty [] = []
keep_nonempty (p ∷ ps) =
    let rest = keep_nonempty ps in if is_empty (trim p) then rest else trim p ∷ rest
