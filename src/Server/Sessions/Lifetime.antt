-- ===== src/Server/Sessions/Lifetime.antt =====
-- `Sessions::reap` of server/init/src/sessions.rs: how long a session lives.
use rdoc_sacompanion.Base.{
  ℕ, ◌+◌, ◌-◌, ◌≤◌, ◌<◌, String, ◌≡◌, ◌↔◌, ◌⊎◌, refl, Bool, true, false, some, List, [], ◌∷◌, arith,
  Option-cases, inl, inr, ◌>>=◌,
}
use rdoc_sacompanion.Dict.{Dict, get}
use rdoc_sacompanion.Dict.Distinct.{DistinctKeys, get-retain, retain-DistinctKeys}
use rdoc_sacompanion.Server.Sessions.{
  Session, ok, max_age_secs, empty_grace_secs, max_attempts, join, sweep, reap,
}
use rdoc_sacompanion.Server.Sessions.Join.{join-ok_iff}

module _ (n : ℕ) (live : String → Bool) (m : Dict Session) (d : DistinctKeys m) (c : String) where
  get-reap : get c (reap n live m) ≡ (get c m >>= sweep n live)
  unfolding reap
  get-reap = get-retain (sweep n live) c m d

  -- A session survives a sweep exactly when it is younger than 24 hours and either its room has
  -- members, and then it counts as active now, or it was active in the last five minutes, and then
  -- it is left as it was.
  pub reap_iff :
      (s' : Session)
      → (get c (reap n live m) ≡ some s') ↔ (
          (s : Session) × (get c m ≡ some s)
          × ((n - s.created < max_age_secs)
              × (((live s.room ≡ true) × (s' ≡ record s { last_active = n }))
                  ⊎ ((live s.room ≡ false) × (n - s.last_active < empty_grace_secs) × (s' ≡ s)))))
  unfolding sweep
  reap_iff s' = (
    λ h. elim (Option-cases (get c m)) [
      | inl e ↦ absurd (ground (arith, get-reap))
      | inr (s, e) ↦ (s, e, ground (arith, get-reap))
    ],
    λ (s, e, alive). ground (arith, get-reap),
  )

-- Sweeps one after another, each with its time and its view of the rooms.
pub sweeps : Dict Session → List (ℕ × (String → Bool)) → Dict Session
sweeps m [] = m
sweeps m ((n, live) ∷ rest) = sweeps (reap n live m) rest

-- Every sweep of the list comes before the age limit and finds members in the room.
abbrev pub KeptAlive : (created : ℕ) (room : String) → List (ℕ × (String → Bool)) → Type 0
KeptAlive created room [] = Unit
KeptAlive created room ((n, live) ∷ rest) =
    ((n - created < max_age_secs) × (live room ≡ true)) × KeptAlive created room rest

-- A session whose room is never found empty lives through any number of sweeps until it is 24
-- hours old: at most the time of its last activity has changed.
pub sweeps-KeptAlive :
    (rest : List (ℕ × (String → Bool))) (m : Dict Session) (c : String) (s : Session)
    → DistinctKeys m
    → get c m ≡ some s
    → KeptAlive s.created s.room rest
    → (n : ℕ) × (get c (sweeps m rest) ≡ some (record s { last_active = n }))
unfolding sweeps
sweeps-KeptAlive [] m c s d e k = (s.last_active, e)
sweeps-KeptAlive ((n, live) ∷ rest) m c s d e k =
    sweeps-KeptAlive rest (reap n live m) c (record s { last_active = n })
      (unfold reap in retain-DistinctKeys (sweep n live) m d)
      ((reap_iff n live m d c (record s { last_active = n })).1 (s, e, (k.0.0, inl (k.0.1, refl))))
      k.1

-- `join` does not look at a session's age: a session that is in the store, not locked and older
-- than 24 hours still lets in whoever has its PIN.
pub join_past_age :
    (code : String) (now : ℕ) (m : Dict Session) (s : Session)
    → get code m ≡ some s
    → s.attempts < max_attempts
    → s.created + max_age_secs ≤ now
    → (join code s.pin now m).0 ≡ ok s.room s.token
join_past_age code now m s e a old =
    (join-ok_iff code s.pin now m s.room s.token).1 (s, e, (a, refl, refl, refl))
