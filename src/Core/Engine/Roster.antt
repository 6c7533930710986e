-- ===== src/Core/Engine/Roster.antt =====
-- The list of participants that `emit_roster` of apps/companion-core/src/lib.rs sends.
use rdoc_sacompanion.Base.{
  ℕ, ◌+◌, String, ◌≡◌, refl, Bool, false, List, [], ◌∷◌, arith, if◌then◌else◌, Bool-cases, inl, inr,
}
use rdoc_sacompanion.Text.{str_lt}
use rdoc_sacompanion.Text.Order.{str_lt_asym}
use rdoc_sacompanion.Core.Engine.{Participant, insert_by_name, sort_by_name}

-- The first of the list, if any, does not come before the name.
abbrev NotBefore : String → List Participant → Type 0
NotBefore name [] = Unit
NotBefore name (q ∷ qs) = str_lt q.name name ≡ false

abbrev pub IsSorted : List Participant → Type 0
IsSorted [] = Unit
IsSorted (p ∷ ps) = NotBefore p.name ps × IsSorted ps

-- How many participants pass a test.
abbrev pub count : (Participant → Bool) → List Participant → ℕ
count test [] = 0
count test (p ∷ ps) = (if test p then 1 else 0) + count test ps

insert_by_name-NotBefore :
    (p : Participant) (ps : List Participant) (name : String)
    → NotBefore name ps
    → str_lt p.name name ≡ false
    → NotBefore name (insert_by_name p ps)
unfolding insert_by_name
insert_by_name-NotBefore p [] name h k = k
insert_by_name-NotBefore p (q ∷ qs) name h k = elim (Bool-cases (str_lt q.name p.name)) [
  | inl first ↦ rw first h
  | inr later ↦ rw later k
]

insert_by_name-IsSorted :
    (p : Participant) (ps : List Participant) → IsSorted ps → IsSorted (insert_by_name p ps)
unfolding insert_by_name
insert_by_name-IsSorted p [] h = (tt, tt)
insert_by_name-IsSorted p (q ∷ qs) h = elim (Bool-cases (str_lt q.name p.name)) [
  | inl first ↦ rw first (
    insert_by_name-NotBefore p qs q.name h.0 (str_lt_asym q.name p.name first),
    insert_by_name-IsSorted p qs h.1,
  )
  | inr later ↦ rw later (later, h)
]

insert_by_name-count :
    (test : Participant → Bool) (p : Participant) (ps : List Participant)
    → count test (insert_by_name p ps) ≡ count test (p ∷ ps)
unfolding insert_by_name
insert_by_name-count test p [] = refl
insert_by_name-count test p (q ∷ qs) = elim (Bool-cases (str_lt q.name p.name)) [
  | inl first ↦ rw first (omega (arith, insert_by_name-count test p qs))
  | inr later ↦ rw later refl
]

-- The others are listed in the order of their names, and they are the same participants: of any
-- kind, as many as before the sort.
pub sort_by_name-IsSorted :
    (ps : List Participant)
    → IsSorted (sort_by_name ps)
      × ((test : Participant → Bool) → count test (sort_by_name ps) ≡ count test ps)
unfolding sort_by_name
sort_by_name-IsSorted [] = (tt, λ test. refl)
sort_by_name-IsSorted (p ∷ ps) =
    let rest = sort_by_name-IsSorted ps in
    (
      insert_by_name-IsSorted p (sort_by_name ps) rest.0,
      λ test. omega (arith, insert_by_name-count test p (sort_by_name ps), rest.1 test),
    )
