-- ===== src/Server/Sessions/Join.antt =====
-- `Sessions::join` of server/init/src/sessions.rs: who gets in, and how many wrong PINs a session
-- answers before it locks.
use rdoc_sacompanion.Base.{
  ℕ, ◌+◌, ◌-◌, ◌≤◌, ◌<◌, String, ◌==◌, eq_iff, ◌≡◌, ◌↔◌, sym, ◌∙◌, ap, Bool, Option, none, some,
  List, [], ◌∷◌, arith, if◌then◌else◌, Option-cases, inl, inr,
}
use rdoc_sacompanion.Dict.{Dict, get, get-update}
use rdoc_sacompanion.Dict.Distinct.{
  DistinctKeys, get-retain, update-DistinctKeys, retain-DistinctKeys,
}
use rdoc_sacompanion.Server.CtEq.{ct_eq-as_bytes_iff}
use rdoc_sacompanion.Server.Sessions.{
  Session, not_found, bad_pin, JoinResult, ok, err, max_attempts, try_pin, join, sweep, reap,
}

pub join_found :
    (code pin : String) (now : ℕ) (m : Dict Session) (s : Session)
    → get code m ≡ some s
    → (join code pin now m).0 ≡ (try_pin s pin now).0
unfolding join
join_found code pin now m s h = rw (h, join)

join_missing :
    (code pin : String) (now : ℕ) (m : Dict Session)
    → get code m ≡ none
    → join code pin now m ≡ (err not_found, m)
unfolding join
join_missing code pin now m h = rw (h, join)

-- A call of `join` writes to the session of its code and to no other.
get-join :
    (code pin : String) (now : ℕ) (m : Dict Session) (j : String)
    → get j (join code pin now m).1 ≡ (
        if code == j
        then elim (get j m) [ none ↦ none | some s ↦ some (try_pin s pin now).1 ]
        else get j m)
unfolding join
get-join code pin now m j =
    ground (arith, eq_iff code j, get-update code j (λ (s : Session). (try_pin s pin now).1) m)

pub try_pin-ok_iff :
    (s : Session) (pin : String) (now : ℕ) (room : String) (token : Option String)
    → ((try_pin s pin now).0 ≡ ok room token)
      ↔ ((s.attempts < max_attempts) × (s.pin ≡ pin) × (s.room ≡ room) × (s.token ≡ token))
unfolding try_pin
try_pin-ok_iff s pin now room token = let same = ct_eq-as_bytes_iff s.pin pin in ground arith

-- A join succeeds exactly for an open session that is not locked, with its PIN, and hands out the
-- room and the token of that session.
pub join-ok_iff :
    (code pin : String) (now : ℕ) (m : Dict Session) (room : String) (token : Option String)
    → ((join code pin now m).0 ≡ ok room token) ↔ (
        (s : Session) × (get code m ≡ some s)
        × ((s.attempts < max_attempts) × (s.pin ≡ pin) × (s.room ≡ room) × (s.token ≡ token)))
join-ok_iff code pin now m room token = (
  λ h. elim (Option-cases (get code m)) [
    | inl e ↦ absurd (
        ground (arith, ap (λ (r : JoinResult × Dict Session). r.0) (join_missing code pin now m e)))
    | inr (s, e) ↦
        (s, e, (try_pin-ok_iff s pin now room token).0 (sym (join_found code pin now m s e) ∙ h))
  ],
  λ (s, e, fits). join_found code pin now m s e ∙ (try_pin-ok_iff s pin now room token).1 fits,
)

-- What happens to one session: a join with some PIN, or a sweep.
pub data Event : Type 0 where
  joins : (code pin : String) (now : ℕ) → Event
  sweeps : (now : ℕ) (room_nonempty : String → Bool) → Event

pub step : Dict Session → Event → Dict Session
step m (joins code pin now) = (join code pin now m).1
step m (sweeps now live) = reap now live m

-- 1 if the event is a join of the code that is answered with `bad_pin`.
abbrev is_bad_pin : JoinResult → ℕ
is_bad_pin (err bad_pin) = 1
is_bad_pin _ = 0

pub bad_pin_answer : String → Dict Session → Event → ℕ
bad_pin_answer c m (joins code pin now) =
    if code == c then is_bad_pin (join code pin now m).0 else 0
bad_pin_answer c m (sweeps now live) = 0

-- How many wrong PINs for the code a history answers with `bad_pin`.
unfoldable pub bad_pins : String → Dict Session → List Event → ℕ
unfolding step bad_pin_answer
bad_pins c m [] = 0
bad_pins c m (e ∷ es) = bad_pin_answer c m e + bad_pins c (step m e) es

-- The wrong PINs that the code can still take.
unfoldable pub attempts_left : String → Dict Session → ℕ
attempts_left c m = elim (get c m) [ none ↦ 0 | some s ↦ max_attempts - s.attempts ]

step-DistinctKeys : (m : Dict Session) (e : Event) → DistinctKeys m → DistinctKeys (step m e)
unfolding step join reap
step-DistinctKeys m (joins code pin now) d =
    ground (arith, update-DistinctKeys code (λ (s : Session). (try_pin s pin now).1) m)
step-DistinctKeys m (sweeps now live) d = retain-DistinctKeys (sweep now live) m d

-- Each answer `bad_pin` uses up an attempt, and nothing gives one back.
step-attempts_left :
    (c : String) (m : Dict Session) (e : Event)
    → DistinctKeys m
    → bad_pin_answer c m e + attempts_left c (step m e) ≤ attempts_left c m
unfolding bad_pin_answer step attempts_left
step-attempts_left c m (joins code pin now) d = elim (Option-cases (get c m)) [
  | inl e ↦ ground (arith, get-join code pin now m c, join_missing code pin now m, eq_iff code c)
  | inr (s, e) ↦
      unfold try_pin in
      ground (arith, get-join code pin now m c, join_found code pin now m s, eq_iff code c)
]
step-attempts_left c m (sweeps now live) d =
    unfold reap sweep in ground (arith, get-retain (sweep now live) c m)

bad_pins-le :
    (c : String) (m : Dict Session) (es : List Event)
    → DistinctKeys m
    → bad_pins c m es ≤ attempts_left c m
unfolding bad_pins
bad_pins-le c m [] d = omega arith
bad_pins-le c m (e ∷ es) d =
    omega (arith, step-attempts_left c m e d, bad_pins-le c (step m e) es (step-DistinctKeys m e d))

attempts_left-le : (c : String) (m : Dict Session) → attempts_left c m ≤ max_attempts
unfolding attempts_left
attempts_left-le c m = ground arith

-- However joins and sweeps follow one another, a code answers at most six wrong PINs.
pub bad_pins-le-max_attempts :
    (c : String) (m : Dict Session) (es : List Event)
    → DistinctKeys m
    → bad_pins c m es ≤ max_attempts
bad_pins-le-max_attempts c m es d = omega (arith, bad_pins-le c m es d, attempts_left-le c m)
