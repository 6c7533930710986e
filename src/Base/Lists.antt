-- ===== src/Base/Lists.antt =====
-- Lists measured by native numbers, and predicates on all their elements.
use Prim.Native.Nat.{ℕ, zero, suc, ◌+◌, ◌<◌}
use mathlib.Core.Path.{◌≡◌, refl, ap}
use mathlib.Core.Bool.{Bool, true, false, ◌&&◌}
use mathlib.Core.List.{List, [], ◌∷◌, ◌++◌, map}
use mathlib.Core.Option.{Option, none, some}
use mathlib.Core.Logic.{◌↔◌, ◌≢◌}
use rdoc_sacompanion.Base.Tests.{nat_eq}
use native.Mathlib.Omega.{arith}

module _ {ℓ} {A : Type ℓ} where
  abbrev pub length : List A → ℕ
  length [] = 0
  length (x ∷ xs) = suc (length xs)

  pub length-append : (xs ys : List A) → length (xs ++ ys) ≡ length xs + length ys
  length-append [] ys = omega arith
  length-append (x ∷ xs) ys = omega (arith, length-append xs ys)

  -- `iter().all(…)`
  abbrev pub all : (A → Bool) → List A → Bool
  all p [] = true
  all p (x ∷ xs) = p x && all p xs

  -- A `filter` on a Boolean test.
  abbrev pub keep_if : (A → Bool) → List A → List A
  keep_if p [] = []
  keep_if p (x ∷ xs) = elim (p x) [ true ↦ x ∷ keep_if p xs | false ↦ keep_if p xs ]

  abbrev pub drop : ℕ → List A → List A
  drop zero xs = xs
  drop (suc n) [] = []
  drop (suc n) (x ∷ xs) = drop n xs

  abbrev pub get_elem? : List A → ℕ → Option A
  get_elem? [] i = none
  get_elem? (x ∷ xs) zero = some x
  get_elem? (x ∷ xs) (suc i) = get_elem? xs i

  -- A write out of bounds changes nothing.
  abbrev pub set : List A → ℕ → A → List A
  set [] i v = []
  set (x ∷ xs) zero v = v ∷ xs
  set (x ∷ xs) (suc i) v = x ∷ set xs i v

  pub get_elem?-append :
      (xs ys : List A) (i : ℕ) (v : A) → get_elem? xs i ≡ some v → get_elem? (xs ++ ys) i ≡ some v
  get_elem?-append [] ys i v h = cc
  get_elem?-append (x ∷ xs) ys zero v h = h
  get_elem?-append (x ∷ xs) ys (suc i) v h = get_elem?-append xs ys i v h

  pub get_elem?-last : (xs : List A) (v : A) → get_elem? (xs ++ v ∷ []) (length xs) ≡ some v
  get_elem?-last [] v = refl
  get_elem?-last (x ∷ xs) v = get_elem?-last xs v

  pub get_elem?-set_ne :
      (xs : List A) (i j : ℕ) (v : A) → i ≢ j → get_elem? (set xs i v) j ≡ get_elem? xs j
  get_elem?-set_ne [] i j v differs = refl
  get_elem?-set_ne (x ∷ xs) zero zero v differs = absurd (differs refl)
  get_elem?-set_ne (x ∷ xs) zero (suc j) v differs = refl
  get_elem?-set_ne (x ∷ xs) (suc i) zero v differs = refl
  get_elem?-set_ne (x ∷ xs) (suc i) (suc j) v differs =
      get_elem?-set_ne xs i j v (λ e. differs (ap suc e))

  pub lt-length_of_get_elem? :
      (xs : List A) (i : ℕ) (v : A) → get_elem? xs i ≡ some v → i < length xs
  lt-length_of_get_elem? [] i v h = absurd (ground arith)
  lt-length_of_get_elem? (x ∷ xs) zero v h = omega arith
  lt-length_of_get_elem? (x ∷ xs) (suc i) v h = omega (arith, lt-length_of_get_elem? xs i v h)

  -- `concat()`
  abbrev pub flatten : List (List A) → List A
  flatten [] = []
  flatten (xs ∷ xss) = xs ++ flatten xss

  abbrev pub replicate : ℕ → A → List A
  replicate zero a = []
  replicate (suc n) a = a ∷ replicate n a

pub length-map {ℓ κ} :
    {A : Type ℓ} {B : Type κ} (xs : List A) (f : A → B) → length (map f xs) ≡ length xs
length-map [] f = refl
length-map (x ∷ xs) f = ap suc (length-map xs f)

module _ {ℓ κ} {A : Type ℓ} (P : A → Type κ) where
  abbrev pub All : List A → Type κ
  All [] = Unit
  All (x ∷ xs) = P x × All xs

  pub All-append : (xs ys : List A) → All xs → All ys → All (xs ++ ys)
  All-append [] ys hx hy = hy
  All-append (x ∷ xs) ys hx hy = (hx.0, All-append xs ys hx.1 hy)

-- `==` on slices of bytes
unfoldable pub list_eq : List ℕ → List ℕ → Bool
list_eq [] [] = true
list_eq [] (y ∷ ys) = false
list_eq (x ∷ xs) [] = false
list_eq (x ∷ xs) (y ∷ ys) = nat_eq x y && list_eq xs ys

pub list_eq_iff : (xs ys : List ℕ) → (list_eq xs ys ≡ true) ↔ (xs ≡ ys)
unfolding list_eq
list_eq_iff [] [] = ground arith
list_eq_iff [] (y ∷ ys) = ground arith
list_eq_iff (x ∷ xs) [] = ground arith
list_eq_iff (x ∷ xs) (y ∷ ys) = let iff = list_eq_iff xs ys in ground arith
