-- ===== src/Text/Bytes.antt =====
-- `s.as_bytes()`: the UTF-8 encoding, and that it determines the text.
use Prim.Native.Char.{code}
use text.Mathlib.TextEquality.{Char-path}
use rdoc_sacompanion.Base.{
  ℕ, ◌+◌, ◌/◌, ◌%◌, String, ◌≡◌, refl, sym, List, [], ◌∷◌, ◌++◌, arith, ltb, if◌then◌else◌,
}

unfoldable pub encode_utf8 : ℕ → List ℕ
encode_utf8 c =
    if ltb c 0x80
    then c ∷ []
    else if ltb c 0x800
    then (0xc0 + c / 64) ∷ (0x80 + c % 64) ∷ []
    else if ltb c 0x10000
    then (0xe0 + c / 4096) ∷ (0x80 + c / 64 % 64) ∷ (0x80 + c % 64) ∷ []
    else (0xf0 + c / 262144) ∷ (0x80 + c / 4096 % 64) ∷ (0x80 + c / 64 % 64) ∷ (0x80 + c % 64) ∷ []

unfoldable pub as_bytes : String → List ℕ
unfolding encode_utf8
as_bytes String.[] = []
as_bytes (String.◌∷◌ c s) = encode_utf8 (code c) ++ as_bytes s

-- UTF-8 is a prefix code.
encode_utf8-append_inj :
    (c d : ℕ) (r s : List ℕ) → encode_utf8 c ++ r ≡ encode_utf8 d ++ s → (c ≡ d) × (r ≡ s)
unfolding encode_utf8
encode_utf8-append_inj c d r s e = ground arith

encode_utf8-append-ne-nil : (c : ℕ) (r : List ℕ) → encode_utf8 c ++ r ≡ [] → ⊥
unfolding encode_utf8
encode_utf8-append-ne-nil c r e = ground arith

-- Two texts with the same bytes are the same text.
pub as_bytes_inj : (s t : String) → as_bytes s ≡ as_bytes t → s ≡ t
unfolding as_bytes
as_bytes_inj String.[] String.[] e = refl
as_bytes_inj String.[] (String.◌∷◌ d t) e =
    absurd (encode_utf8-append-ne-nil (code d) (as_bytes t) (sym e))
as_bytes_inj (String.◌∷◌ c s) String.[] e = absurd (encode_utf8-append-ne-nil (code c) _ e)
as_bytes_inj (String.◌∷◌ c s) (String.◌∷◌ d t) e =
    let (same_code, same_rest) = encode_utf8-append_inj (code c) (code d) _ _ e in
    cc (Char-path c d same_code, as_bytes_inj s t same_rest)
