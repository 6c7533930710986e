-- ===== src/Server/Sessions/Create.antt =====
-- `Sessions::create` of server/init/src/sessions.rs: the loop ends, the code is new, and the
-- session can be joined with what was handed out.
use rdoc_sacompanion.Base.{
  ℕ, ◌<◌, String, ◌==◌, eq_iff, ◌≡◌, ◌≢◌, refl, ◌∙◌, Option, none, some, List, [], ◌∷◌, arith,
  if◌then◌else◌, length, Option-cases, inl, inr,
}
use rdoc_sacompanion.Dict.{Dict, get, insert, get-insert}
use rdoc_sacompanion.Dict.Distinct.{AllDiffer, Contains, length-le_of_Contains}
use rdoc_sacompanion.Server.Sessions.{
  Session, Created, ok, fresh_code, new_session, create, try_pin, join,
}
use rdoc_sacompanion.Server.Sessions.Join.{join_found, try_pin-ok_iff}

-- A code that the loop returns is free.
fresh_code-get :
    (m : Dict Session) (codes : List String) (c : String)
    → fresh_code m codes ≡ some c
    → get c m ≡ none
unfolding fresh_code
fresh_code-get m [] c h = cc
fresh_code-get m (d ∷ codes) c h = ground (arith, fresh_code-get m codes c)

-- If the loop finds no code, all the codes that were drawn are taken.
fresh_code-Contains :
    (m : Dict Session) (codes : List String) → fresh_code m codes ≡ none → Contains m codes
unfolding fresh_code
fresh_code-Contains m [] h = tt
fresh_code-Contains m (d ∷ codes) h = ground (arith, fresh_code-Contains m codes)

-- The loop of `create` ends as soon as more different codes were drawn than sessions are open.
pub create-total :
    (token_for : String → Option String) (now : ℕ) (room_hex : String) (pin : ℕ)
    (codes : List String) (m : Dict Session)
    → AllDiffer codes
    → length m < length codes
    → (r : Created × Dict Session) × (create token_for now room_hex pin codes m ≡ some r)
unfolding create
create-total token_for now room_hex pin codes m d h = elim (Option-cases (fresh_code m codes)) [
  | inl e ↦ absurd (omega (arith, length-le_of_Contains codes m d (fresh_code-Contains m codes e)))
  | inr (c, e) ↦ rw (e, create) (_, refl)
]

-- Inversion of a `create` that returns.
create_inv :
    (token_for : String → Option String) (now : ℕ) (room_hex : String) (pin : ℕ)
    (codes : List String) (m m' : Dict Session) (c : Created)
    → create token_for now room_hex pin codes m ≡ some (c, m')
    → (get c.code m ≡ none)
      × (m' ≡ insert c.code (new_session c now) m)
      × (c.token ≡ token_for c.room)
unfolding create
create_inv token_for now room_hex pin codes m m' c h = ground (arith, fresh_code-get m codes c.code)

-- What `create` leaves in the map.
get_created :
    (m : Dict Session) (c : Created) (now : ℕ) (j : String)
    → get j (insert c.code (new_session c now) m)
      ≡ (if c.code == j then some (new_session c now) else get j m)
get_created m c now j = get-insert c.code j (new_session c now) m

join_new :
    (c : Created) (now later : ℕ) → (try_pin (new_session c now) c.pin later).0 ≡ ok c.room c.token
unfolding new_session
join_new c now later =
    (try_pin-ok_iff (new_session c now) c.pin later c.room c.token).1
      (omega arith, refl, refl, refl)

-- A created session has a code that was free, every other session stays as it was, and whoever
-- has the code and the PIN gets the room with the token minted for it.
pub join-create :
    (token_for : String → Option String) (now : ℕ) (room_hex : String) (pin : ℕ)
    (codes : List String) (m m' : Dict Session) (c : Created) (later : ℕ)
    → create token_for now room_hex pin codes m ≡ some (c, m')
    → (get c.code m ≡ none)
      × ((join c.code c.pin later m').0 ≡ ok c.room (token_for c.room))
      × ((other : String) → other ≢ c.code → get other m' ≡ get other m)
join-create token_for now room_hex pin codes m m' c later h =
    let (free, stored, minted) = create_inv token_for now room_hex pin codes m m' c h in
    (
      free,
      rw (stored, ← minted)
          (join_found c.code c.pin later _ (new_session c now)
              (ground (arith, get_created m c now c.code, eq_iff c.code c.code))
            ∙ join_new c now later),
      λ other differs. ground (arith, get_created m c now other, eq_iff c.code other),
    )
