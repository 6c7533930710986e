-- ===== src/App/Rigs/Running.antt =====
-- How many audio rigs run after any commands of apps/companion/src-tauri/src/main.rs.
use rdoc_sacompanion.Base.{
  ℕ, zero, suc, ◌+◌, ◌≡◌, refl, ◌∙◌, Bool, true, false, Option, none, some, List, [], ◌∷◌, ◌++◌,
  arith, length, get_elem?, set, get_elem?-append, get_elem?-last, get_elem?-set_ne,
  lt-length_of_get_elem?, if◌then◌else◌, is_some,
}
use rdoc_sacompanion.App.Rigs.{
  Shell, Attempt, no_devices, fails_later, works, Command, connect, serverless_offer,
  serverless_accept_offer, disconnect, with_rig, drop_engine, on_connect, on_serverless,
  on_disconnect, on_command, run, initial,
}

-- The rigs that were not told to stop.
abbrev pub running : List Bool → ℕ
running [] = 0
running (stop ∷ stops) = (if stop then 0 else 1) + running stops

-- The starts whose rig belongs to no engine: a connect that fails behind the set-up of the audio,
-- and every serverless session.
abbrev pub unowned : Command → ℕ
unowned (connect fails_later) = 1
unowned (serverless_offer fails_later) = 1
unowned (serverless_offer works) = 1
unowned (serverless_accept_offer fails_later) = 1
unowned (serverless_accept_offer works) = 1
unowned _ = 0

abbrev pub all_unowned : List Command → ℕ
all_unowned [] = 0
all_unowned (c ∷ cs) = unowned c + all_unowned cs

abbrev pub held : Shell → ℕ
held s = if is_some s.engine then 1 else 0

running-append : (stops : List Bool) → running (stops ++ false ∷ []) ≡ running stops + 1
running-append [] = refl
running-append (stop ∷ stops) = omega (arith, running-append stops)

running-set :
    (stops : List Bool) (n : ℕ)
    → get_elem? stops n ≡ some false
    → running (set stops n true) + 1 ≡ running stops
running-set [] n h = absurd (ground arith)
running-set (stop ∷ stops) zero h = ground arith
running-set (stop ∷ stops) (suc n) h = omega (arith, running-set stops n h)

-- The engine's rig runs.
abbrev Runs : List Bool → Option ℕ → Type 0
Runs stops none = Unit
Runs stops (some n) = get_elem? stops n ≡ some false

record IsTracked (s : Shell) (n : ℕ) : Type 0 where
  owned : Runs s.stops s.engine
  count : running s.stops ≡ held s + n

Runs-with_rig : (stops : List Bool) (e : Option ℕ) → Runs stops e → Runs (stops ++ false ∷ []) e
Runs-with_rig stops none h = tt
Runs-with_rig stops (some n) h = get_elem?-append stops (false ∷ []) n false h

with_rig-IsTracked : (s : Shell) (n : ℕ) → IsTracked s n → IsTracked (with_rig s) (n + 1)
with_rig-IsTracked s n t = record {
  owned = Runs-with_rig s.stops s.engine t.owned;
  count = omega (arith, running-append s.stops, t.count);
}

drop_engine-running :
    (e : Option ℕ) (s : Shell)
    → Runs s.stops e
    → running (drop_engine e s).stops + (if is_some e then 1 else 0) ≡ running s.stops
unfolding drop_engine
drop_engine-running none s h = omega arith
drop_engine-running (some n) s h = running-set s.stops n h

-- The new rig still runs when the old engine is dropped.
drop_engine-last :
    (e : Option ℕ) (s : Shell)
    → Runs s.stops e
    → get_elem? (drop_engine e (with_rig s)).stops (length s.stops) ≡ some false
unfolding drop_engine
drop_engine-last none s h = get_elem?-last s.stops false
drop_engine-last (some n) s h =
    get_elem?-set_ne (s.stops ++ false ∷ []) n (length s.stops) true
      (λ e. omega (arith, lt-length_of_get_elem? s.stops n false h))
    ∙ get_elem?-last s.stops false

on_connect-IsTracked :
    (a : Attempt) (s : Shell) (n : ℕ)
    → IsTracked s n
    → IsTracked (on_connect a s) (n + unowned (connect a))
unfolding on_connect
on_connect-IsTracked no_devices s n t = record { owned = t.owned; count = omega (arith, t.count) }
on_connect-IsTracked fails_later s n t = with_rig-IsTracked s n t
on_connect-IsTracked works s n t =
    let more = Runs-with_rig s.stops s.engine t.owned in
    record {
      owned = drop_engine-last s.engine s t.owned;
      count =
          omega (
            arith,
            drop_engine-running s.engine (with_rig s) more,
            running-append s.stops,
            t.count,
          );
    }

on_serverless-IsTracked :
    (a : Attempt) (s : Shell) (n : ℕ)
    → IsTracked s n
    → IsTracked (on_serverless a s) (n + unowned (serverless_offer a))
unfolding on_serverless
on_serverless-IsTracked no_devices s n t = record {
  owned = t.owned;
  count = omega (arith, t.count);
}
on_serverless-IsTracked fails_later s n t = with_rig-IsTracked s n t
on_serverless-IsTracked works s n t =
    let more = with_rig-IsTracked s n t in record { owned = more.owned; count = more.count }

on_disconnect-IsTracked :
    (s : Shell) (n : ℕ) → IsTracked s n → IsTracked (on_disconnect s) (n + unowned disconnect)
unfolding on_disconnect
on_disconnect-IsTracked s n t = record {
  owned = tt;
  count = omega (arith, drop_engine-running s.engine s t.owned, t.count);
}

on_command-IsTracked :
    (c : Command) (s : Shell) (n : ℕ) → IsTracked s n → IsTracked (on_command c s) (n + unowned c)
unfolding on_command
on_command-IsTracked (connect a) s n t = on_connect-IsTracked a s n t
on_command-IsTracked (serverless_offer a) s n t = on_serverless-IsTracked a s n t
on_command-IsTracked (serverless_accept_offer no_devices) s n t =
    on_serverless-IsTracked no_devices s n t
on_command-IsTracked (serverless_accept_offer fails_later) s n t =
    on_serverless-IsTracked fails_later s n t
on_command-IsTracked (serverless_accept_offer works) s n t = on_serverless-IsTracked works s n t
on_command-IsTracked disconnect s n t = on_disconnect-IsTracked s n t

run_from-IsTracked :
    (cs : List Command) (s : Shell) (n m : ℕ)
    → n + all_unowned cs ≡ m
    → IsTracked s n
    → IsTracked (run cs s) m
unfolding run
run_from-IsTracked [] s n m e t = record { owned = t.owned; count = omega (arith, t.count, e) }
run_from-IsTracked (c ∷ cs) s n m e t =
    run_from-IsTracked cs (on_command c s) (n + unowned c) m (omega (arith, e))
      (on_command-IsTracked c s n t)

-- After any commands, the audio rigs that run are that of the current engine, if there is one, and
-- one for every start that no engine owns: each connect that failed behind the set-up of the audio,
-- and each serverless session that got as far, whether it works and whether it has been left.
pub run-running :
    (cs : List Command) → running (run cs initial).stops ≡ held (run cs initial) + all_unowned cs
run-running cs =
    (run_from-IsTracked cs initial 0 (all_unowned cs) (omega arith)
      (record { owned = tt; count = refl })).count
