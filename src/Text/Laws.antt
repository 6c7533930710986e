-- ===== src/Text/Laws.antt =====
-- What the `str` methods do to texts that are put together from parts.
use Prim.Native.Char.{Char, code}
use Prim.Native.String.{◌++◌}
use text.Mathlib.TextLemmas.{nil-append, cons-append, append-nil}
use rdoc_sacompanion.Base.{
  ℕ, String, ◌≡◌, refl, subst, Bool, true, false, ◌||◌, some, arith, nat_eq,
}
use rdoc_sacompanion.Text.{chars_all, chars_any, before, after_last, strip_prefix, split_once_tail}

-- No character of the text is a separator.
abbrev pub Lacks : (ℕ → Bool) → String → Type 0
Lacks p s = chars_any p s ≡ false

-- The text is empty or begins with a separator.
abbrev pub Stops : (ℕ → Bool) → String → Type 0
Stops p String.[] = Unit
Stops p (String.◌∷◌ c s) = p (code c) ≡ true

module _ (p : ℕ → Bool) where
  before_stop : (t : String) → Stops p t → before p t ≡ String.[]
  unfolding before
  before_stop String.[] k = refl
  before_stop (String.◌∷◌ c t) k = ground arith

  pub before-append : (s t : String) → Lacks p s → Stops p t → before p (s ++ t) ≡ s
  unfolding before chars_any
  before-append String.[] t h k = rw nil-append (before_stop t k)
  before-append (String.◌∷◌ c s) t h k = rw cons-append (ground (arith, before-append s t))

  pub before_lacking : (s : String) → Lacks p s → before p s ≡ s
  before_lacking s h = subst (λ t. before p t ≡ s) (append-nil s) (before-append s String.[] h tt)

  pub chars_any-append : (s t : String) → chars_any p (s ++ t) ≡ (chars_any p s || chars_any p t)
  unfolding chars_any
  chars_any-append String.[] t = rw nil-append
  chars_any-append (String.◌∷◌ c s) t = rw cons-append (ground (arith, chars_any-append s t))

  pub after_last_lacking : (s : String) → Lacks p s → after_last p s ≡ s
  unfolding after_last chars_any
  after_last_lacking String.[] h = refl
  after_last_lacking (String.◌∷◌ c s) h = ground arith

  pub after_last-append :
      (s : String) (c : Char) (t : String)
      → p (code c) ≡ true
      → Lacks p t
      → after_last p (s ++ String.◌∷◌ c t) ≡ t
  unfolding after_last chars_any
  after_last-append String.[] c t h k = rw nil-append (ground (arith, after_last_lacking t))
  after_last-append (String.◌∷◌ d s) c t h k =
      rw cons-append (ground (arith, after_last-append s c t, chars_any-append s (String.◌∷◌ c t)))

  pub chars_any_all :
      (q : ℕ → Bool) (s : String)
      → ((c : ℕ) → q c ≡ true → p c ≡ false)
      → chars_all q s ≡ true
      → Lacks p s
  unfolding chars_all chars_any
  chars_any_all q String.[] h k = refl
  chars_any_all q (String.◌∷◌ c s) h k = ground (arith, h (code c), chars_any_all q s h)

pub strip_prefix-append : (t s : String) → strip_prefix t (t ++ s) ≡ some s
unfolding strip_prefix
strip_prefix-append String.[] s = rw nil-append
strip_prefix-append (String.◌∷◌ c t) s = rw cons-append (ground (arith, strip_prefix-append t s))

-- The text in front of the first occurrence lacks the pattern's first character.
pub split_once_tail-append :
    (d : Char) (t s rest : String)
    → Lacks (λ c. nat_eq c (code d)) s
    → split_once_tail (String.◌∷◌ d t) (s ++ (String.◌∷◌ d t ++ rest)) ≡ some rest
unfolding split_once_tail strip_prefix chars_any
split_once_tail-append d t String.[] rest h =
    rw (nil-append, cons-append) (ground (arith, strip_prefix-append t rest))
split_once_tail-append d t (String.◌∷◌ c s) rest h =
    rw cons-append (ground (arith, split_once_tail-append d t s rest))
