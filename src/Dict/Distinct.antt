-- ===== src/Dict/Distinct.antt =====
-- No key is in a map twice, and what a map of that kind promises about `retain`.
use rdoc_sacompanion.Base.{
  ◌≤◌, String, eq_iff, ◌≡◌, refl, true, Option, none, List, [], ◌∷◌, arith, length, ◌>>=◌, ◌≢◌,
}
use rdoc_sacompanion.Dict.{
  Dict, get, remove, insert, update, retain, contains_key, get-remove, get-update, length-remove-lt,
}

-- The keys of the list differ from one another.
abbrev pub Differ : String → List String → Type 0
Differ k [] = Unit
Differ k (j ∷ ks) = (k ≢ j) × Differ k ks

abbrev pub AllDiffer : List String → Type 0
AllDiffer [] = Unit
AllDiffer (k ∷ ks) = Differ k ks × AllDiffer ks

module _ {ℓ} {V : Type ℓ} where
  abbrev pub DistinctKeys : Dict V → Type ℓ
  DistinctKeys [] = Unit
  DistinctKeys ((k, v) ∷ m) = (get k m ≡ none) × DistinctKeys m

  pub remove-DistinctKeys : (k : String) (m : Dict V) → DistinctKeys m → DistinctKeys (remove k m)
  unfolding remove
  remove-DistinctKeys k [] d = tt
  remove-DistinctKeys k ((j, v) ∷ m) d = ground (arith, get-remove k j m, remove-DistinctKeys k m)

  pub insert-DistinctKeys :
      (k : String) (v : V) (m : Dict V) → DistinctKeys m → DistinctKeys (insert k v m)
  unfolding insert
  insert-DistinctKeys k v m d =
      ground (arith, get-remove k k m, eq_iff k k, remove-DistinctKeys k m)

  pub update-DistinctKeys :
      (k : String) (f : V → V) (m : Dict V) → DistinctKeys m → DistinctKeys (update k f m)
  unfolding update
  update-DistinctKeys k f [] d = tt
  update-DistinctKeys k f ((j, v) ∷ m) d =
      ground (arith, get-update k j f m, eq_iff j k, update-DistinctKeys k f m)

  get-retain_missing :
      (f : V → Option V) (k : String) (m : Dict V) → get k m ≡ none → get k (retain f m) ≡ none
  unfolding get retain
  get-retain_missing f k [] h = refl
  get-retain_missing f k ((j, v) ∷ m) h = ground (arith, get-retain_missing f k m)

  -- `retain` decides on each entry by itself.
  pub get-retain :
      (f : V → Option V) (k : String) (m : Dict V)
      → DistinctKeys m
      → get k (retain f m) ≡ (get k m >>= f)
  unfolding get retain
  get-retain f k [] d = refl
  get-retain f k ((j, v) ∷ m) d =
      ground (arith, eq_iff j k, get-retain f k m, get-retain_missing f k m)

  pub retain-DistinctKeys :
      (f : V → Option V) (m : Dict V) → DistinctKeys m → DistinctKeys (retain f m)
  unfolding retain
  retain-DistinctKeys f [] d = tt
  retain-DistinctKeys f ((j, v) ∷ m) d =
      ground (arith, get-retain_missing f j m, retain-DistinctKeys f m)

  abbrev pub Contains : Dict V → List String → Type 0
  Contains m [] = Unit
  Contains m (k ∷ ks) = (contains_key k m ≡ true) × Contains m ks

  Contains-remove :
      (k : String) (m : Dict V) (ks : List String)
      → Differ k ks
      → Contains m ks
      → Contains (remove k m) ks
  Contains-remove k m [] d c = tt
  Contains-remove k m (j ∷ ks) d c =
      ground (arith, get-remove k j m, eq_iff k j, Contains-remove k m ks)

  -- The pigeonhole principle: a map holds at least as many entries as distinct keys.
  pub length-le_of_Contains :
      (ks : List String) (m : Dict V) → AllDiffer ks → Contains m ks → length ks ≤ length m
  length-le_of_Contains [] m d c = omega arith
  length-le_of_Contains (k ∷ ks) m d c = omega (
    arith,
    length-le_of_Contains ks (remove k m) d.1 (Contains-remove k m ks d.0 c.1),
    length-remove-lt k m c.0,
  )
