-- ===== src/Text/Trim.antt =====
-- What `str::trim` leaves has nothing to trim.
use Prim.Native.Char.{code}
use rdoc_sacompanion.Base.{String, ◌≡◌, refl, ◌∙◌, ap, true, Bool-cases, inl, inr, ◌&&◌, arith}
use rdoc_sacompanion.Text.{
  is_empty, is_whitespace, is_ascii_hexdigit, chars_all, chars_any, trim_start, trim_end, trim,
}
use rdoc_sacompanion.Text.Laws.{Lacks, chars_any_all}

trim_end-trim_end : (s : String) → trim_end (trim_end s) ≡ trim_end s
unfolding trim_end
trim_end-trim_end String.[] = refl
trim_end-trim_end (String.◌∷◌ c s) =
    elim (Bool-cases (is_whitespace (code c) && is_empty (trim_end s))) [
      | inl gone ↦ rw gone refl
      | inr stays ↦ rw (stays, trim_end) (rw (trim_end-trim_end s, stays) refl)
    ]

trim_start-trim_end : (s : String) → trim_start (trim_end (trim_start s)) ≡ trim_end (trim_start s)
unfolding trim_start trim_end
trim_start-trim_end String.[] = refl
trim_start-trim_end (String.◌∷◌ c s) = elim (Bool-cases (is_whitespace (code c))) [
  | inl space ↦ rw space (trim_start-trim_end s)
  | inr other ↦ rw (other, trim_end) (rw (other, trim_start) (rw other refl))
]

pub trim-trim : (s : String) → trim (trim s) ≡ trim s
unfolding trim
trim-trim s = ap trim_end (trim_start-trim_end s) ∙ trim_end-trim_end (trim_start s)

trim_end_lacking : (s : String) → Lacks is_whitespace s → trim_end s ≡ s
unfolding trim_end chars_any
trim_end_lacking String.[] h = refl
trim_end_lacking (String.◌∷◌ c s) h = ground (arith, trim_end_lacking s)

trim_start_lacking : (s : String) → Lacks is_whitespace s → trim_start s ≡ s
unfolding trim_start chars_any
trim_start_lacking String.[] h = refl
trim_start_lacking (String.◌∷◌ c s) h = ground arith

pub trim_hex : (s : String) → chars_all is_ascii_hexdigit s ≡ true → trim s ≡ s
unfolding trim
trim_hex s h =
    let lacks = chars_any_all is_whitespace is_ascii_hexdigit s (λ c hex. ground arith) h in
    ap trim_end (trim_start_lacking s lacks) ∙ trim_end_lacking s lacks
