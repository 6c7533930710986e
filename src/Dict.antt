-- ===== src/Dict.antt =====
-- `HashMap<String, V>`: an association list without repeated keys. The order of the entries stands
-- for the order in which the map is iterated, which the program must not rely on.
pub mod Distinct
use rdoc_sacompanion.Base.{
  ℕ, ◌+◌, ◌≤◌, ◌<◌, suc, String, ◌==◌, eq_iff, eq_refl, ◌≡◌, ◌≢◌, refl, Bool, true, false, Option,
  none, some, List, [], ◌∷◌, arith, if◌then◌else◌, is_some, length, ◌⊎◌, inl, inr, Bool-cases,
}

abbrev pub Dict {ℓ} : Type ℓ → Type ℓ
Dict V = List (String × V)

module _ {ℓ} {V : Type ℓ} where
  unfoldable pub get : String → Dict V → Option V
  get k [] = none
  get k ((j, v) ∷ m) = if j == k then some v else get k m

  unfoldable pub remove : String → Dict V → Dict V
  remove k [] = []
  remove k ((j, v) ∷ m) = let rest = remove k m in if j == k then rest else (j, v) ∷ rest

  -- The old entry of the key, if any, is replaced.
  unfoldable pub insert : String → V → Dict V → Dict V
  unfolding remove
  insert k v m = (k, v) ∷ remove k m

  abbrev pub contains_key : String → Dict V → Bool
  contains_key k m = is_some (get k m)

  -- `get_mut(k)` followed by a write through the reference.
  unfoldable pub update : String → (V → V) → Dict V → Dict V
  update k f [] = []
  update k f ((j, v) ∷ m) =
      let rest = update k f m in if j == k then (j, f v) ∷ m else (j, v) ∷ rest

  abbrev keep_entry : String → Option V → Dict V → Dict V
  keep_entry k none m = m
  keep_entry k (some v) m = (k, v) ∷ m

  -- `retain` with a closure that may also write to the value: `none` drops the entry.
  unfoldable pub retain : (V → Option V) → Dict V → Dict V
  retain f [] = []
  retain f ((j, v) ∷ m) = keep_entry j (f v) (retain f m)

  pub get-remove :
      (k j : String) (m : Dict V) → get j (remove k m) ≡ (if k == j then none else get j m)
  unfolding get remove
  get-remove k j [] = ground arith
  get-remove k j ((i, w) ∷ m) = ground (arith, eq_iff k j, eq_iff i k, eq_iff i j, get-remove k j m)

  pub get-insert :
      (k j : String) (v : V) (m : Dict V)
      → get j (insert k v m) ≡ (if k == j then some v else get j m)
  unfolding get insert
  get-insert k j v m = ground (arith, get-remove k j m)

  pub get-update :
      (k j : String) (f : V → V) (m : Dict V)
      → get j (update k f m)
        ≡ (if k == j then elim (get j m) [ none ↦ none | some v ↦ some (f v) ] else get j m)
  unfolding get update
  get-update k j f [] = ground arith
  get-update k j f ((i, w) ∷ m) =
      ground (arith, eq_iff k j, eq_iff i k, eq_iff i j, get-update k j f m)

  pub length-remove-le : (k : String) (m : Dict V) → length (remove k m) ≤ length m
  unfolding remove
  length-remove-le k [] = omega arith
  length-remove-le k ((i, w) ∷ m) = ground (arith, length-remove-le k m)

  pub length-remove-lt :
      (k : String) (m : Dict V) → contains_key k m ≡ true → length (remove k m) < length m
  unfolding get remove
  length-remove-lt k [] h = ground arith
  length-remove-lt k ((i, w) ∷ m) h = ground (arith, length-remove-le k m, length-remove-lt k m)

  pub length-update : (k : String) (f : V → V) (m : Dict V) → length (update k f m) ≡ length m
  unfolding update
  length-update k f [] = refl
  length-update k f ((i, w) ∷ m) = ground (arith, length-update k f m)

pub get-empty {ℓ} : {V : Type ℓ} (k : String) → get {V = V} k [] ≡ none
unfolding get
get-empty k = refl

pub ruleset dict_laws = (get-empty, get-insert, get-remove, get-update)
