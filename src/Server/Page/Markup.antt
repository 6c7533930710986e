-- ===== src/Server/Page/Markup.antt =====
-- What a stranger's session code can do to the landing page.
use Prim.Native.Char.{Char, code}
use Prim.Native.String.{◌++◌}
use text.Mathlib.TextLemmas.{nil-append, cons-append, append_assoc}
use rdoc_sacompanion.Base.{
  ℕ, suc, ◌+◌, String, ◌≡◌, refl, sym, ap, ◌∙◌, Bool, true, false, ◌||◌, List, [], ◌∷◌, arith,
  nat_eq, if◌then◌else◌, Bool-cases, inl, inr, Option,
}
use rdoc_sacompanion.Text.{chars_any}
use rdoc_sacompanion.Text.Laws.{chars_any-append}
use rdoc_sacompanion.Server.Lang.{Lang, lang_of}
use rdoc_sacompanion.Server.Page.{
  replace, esc, switcher_links, switcher, shell, landing_body, landing_page, landing, all_langs,
}

-- Every character on its own.
abbrev pub esc_char : Char → String
esc_char c =
    if nat_eq (code c) b'&'
    then "&amp;"
    else if nat_eq (code c) b'<'
    then "&lt;"
    else if nat_eq (code c) b'>'
    then "&gt;"
    else if nat_eq (code c) b'"'
    then "&quot;"
    else if nat_eq (code c) b'\''
    then "&#x27;"
    else String.◌∷◌ c String.[]

abbrev pub esc_chars : String → String
esc_chars String.[] = String.[]
esc_chars (String.◌∷◌ c s) = esc_char c ++ esc_chars s

replace-append : (p : ℕ) (t u v : String) → replace p t (u ++ v) ≡ replace p t u ++ replace p t v
unfolding replace
replace-append p t String.[] v = rw (nil-append, nil-append) refl
replace-append p t (String.◌∷◌ c u) v = elim (Bool-cases (nat_eq (code c) p)) [
  | inl e ↦ rw (cons-append, e, replace-append p t u v, append_assoc) refl
  | inr e ↦ rw (cons-append, e, replace-append p t u v, cons-append) refl
]

esc-append : (u v : String) → esc (u ++ v) ≡ esc u ++ esc v
unfolding esc
esc-append u v =
    rw (replace-append, replace-append, replace-append, replace-append, replace-append) refl

esc-esc_char : (c : Char) → esc (String.◌∷◌ c String.[]) ≡ esc_char c
unfolding esc replace
esc-esc_char c = elim (Bool-cases (nat_eq (code c) b'&')) [
  | inl e1 ↦ rw (e1) refl
  | inr e1 ↦ elim (Bool-cases (nat_eq (code c) b'<')) [
    | inl e2 ↦ rw (e1, e2) refl
    | inr e2 ↦ elim (Bool-cases (nat_eq (code c) b'>')) [
      | inl e3 ↦ rw (e1, e2, e3) refl
      | inr e3 ↦ elim (Bool-cases (nat_eq (code c) b'"')) [
        | inl e4 ↦ rw (e1, e2, e3, e4) refl
        | inr e4 ↦ elim (Bool-cases (nat_eq (code c) b'\'')) [
          | inl e5 ↦ rw (e1, e2, e3, e4, e5) refl
          | inr e5 ↦ rw (e1, e2, e3, e4, e5) refl
        ]
      ]
    ]
  ]
]

-- The five passes one after the other do what one pass does: no pass touches what an earlier one
-- wrote.
pub esc-esc_chars : (s : String) → esc s ≡ esc_chars s
esc-esc_chars String.[] = unfold esc replace in refl
esc-esc_chars (String.◌∷◌ c s) =
    ap esc (sym (cons-append c String.[] s ∙ ap (String.◌∷◌ c) (nil-append s)))
    ∙ esc-append (String.◌∷◌ c String.[]) s
    ∙ rw (esc-esc_char c, esc-esc_chars s) refl

-- The characters that end a text or an attribute of HTML.
abbrev pub is_markup : ℕ → Bool
is_markup c = nat_eq c b'<' || nat_eq c b'>' || nat_eq c b'"' || nat_eq c b'\''

esc_char-cases :
    (P : String → Type 0) (c : Char)
    → P "&amp;"
    → P "&lt;"
    → P "&gt;"
    → P "&quot;"
    → P "&#x27;"
    → (is_markup (code c) ≡ false → P (String.◌∷◌ c String.[]))
    → P (esc_char c)
esc_char-cases P c amp lower greater quote tick other = elim (Bool-cases (nat_eq (code c) b'&')) [
  | inl e1 ↦ rw (e1) amp
  | inr e1 ↦ elim (Bool-cases (nat_eq (code c) b'<')) [
    | inl e2 ↦ rw (e1, e2) lower
    | inr e2 ↦ elim (Bool-cases (nat_eq (code c) b'>')) [
      | inl e3 ↦ rw (e1, e2, e3) greater
      | inr e3 ↦ elim (Bool-cases (nat_eq (code c) b'"')) [
        | inl e4 ↦ rw (e1, e2, e3, e4) quote
        | inr e4 ↦ elim (Bool-cases (nat_eq (code c) b'\'')) [
          | inl e5 ↦ rw (e1, e2, e3, e4, e5) tick
          | inr e5 ↦ rw (e1, e2, e3, e4, e5) (other (ground arith))
        ]
      ]
    ]
  ]
]

esc_char-plain : (c : Char) → chars_any is_markup (esc_char c) ≡ false
unfolding chars_any
esc_char-plain c =
    esc_char-cases (λ t. chars_any is_markup t ≡ false) c refl refl refl refl refl (λ h. rw h refl)

esc_chars-plain : (s : String) → chars_any is_markup (esc_chars s) ≡ false
esc_chars-plain String.[] = unfold chars_any in refl
esc_chars-plain (String.◌∷◌ c s) =
    rw (chars_any-append is_markup (esc_char c) (esc_chars s), esc_char-plain c) (esc_chars-plain s)

pub esc-plain : (s : String) → chars_any is_markup (esc s) ≡ false
esc-plain s = rw (esc-esc_chars s) (esc_chars-plain s)

-- How many characters of a text pass a test.
unfoldable pub marks : (test : ℕ → Bool) → String → ℕ
marks test String.[] = 0
marks test (String.◌∷◌ c s) = let rest = marks test s in if test (code c) then suc rest else rest

module _ (test : ℕ → Bool) (markup : (c : ℕ) → test c ≡ true → is_markup c ≡ true) where
  marks-append : (s t : String) → marks test (s ++ t) ≡ marks test s + marks test t
  unfolding marks
  marks-append String.[] t = rw nil-append (omega arith)
  marks-append (String.◌∷◌ c s) t = rw cons-append (ground (arith, marks-append s t))

  marks_plain : (s : String) → chars_any is_markup s ≡ false → marks test s ≡ 0
  unfolding marks chars_any
  marks_plain String.[] h = refl
  marks_plain (String.◌∷◌ c s) h = elim (Bool-cases (test (code c))) [
    | inl e ↦ ground (arith, markup (code c))
    | inr e ↦ ground (arith, marks_plain s)
  ]

  module _ (u v : String) (hu : marks test u ≡ 0) (hv : marks test v ≡ 0) where
    abbrev Same : (page : String → String) → Type 0
    Same page = marks test (page u) ≡ marks test (page v)

    switcher_links-Same :
        (l : Lang) (ls : List Lang) → Same (λ shown. switcher_links ("/j/" ++ shown) l ls)
    unfolding switcher_links
    switcher_links-Same l [] = refl
    switcher_links-Same l (x ∷ xs) = simp (marks-append, hu, hv, switcher_links-Same l xs)

    switcher-Same : (l : Lang) → Same (λ shown. switcher ("/j/" ++ shown) l)
    unfolding switcher
    switcher-Same l = simp (marks-append, switcher_links-Same l all_langs)

    landing_body-Same : (l : Lang) (base : String) → Same (landing_body l base)
    unfolding landing_body
    landing_body-Same l base = simp (marks-append, hu, hv)

    landing_page-Same : (base : String) (l : Lang) → Same (landing_page base l)
    unfolding landing_page shell
    landing_page-Same base l = simp (marks-append, switcher-Same, landing_body-Same)

  -- Whatever stands in a link's code, the page has as many of each character that ends a text or an
  -- attribute as the page for an empty code.
  pub landing-marks :
      (base session_code : String) (query accept : Option String)
      → marks test (landing base session_code query accept)
        ≡ marks test (landing base "" query accept)
  unfolding landing
  landing-marks base session_code query accept =
      landing_page-Same (esc _) (esc _) (marks_plain _ (esc-plain _)) (marks_plain _ (esc-plain _))
        base (lang_of query accept)
