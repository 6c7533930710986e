-- ===== src/App/Rigs.antt =====
-- Which audio threads run, over the commands of apps/companion/src-tauri/src/main.rs that start and end
-- sessions. `setup_audio` in apps/companion-core/src/lib.rs starts the threads, with a stop flag
-- that they poll; nothing else ends them.
pub mod Running
use rdoc_sacompanion.Base.{
  ℕ, Bool, true, false, ◌&&◌, Option, none, some, List, [], ◌∷◌, ◌++◌, length, set, if◌then◌else◌,
}

-- `AppState`, with the stop flag of each rig that was set up. A session is the number of its rig.
pub record Shell : Type 0 where
  pub stops : List Bool
  pub engine : Option ℕ
  pub serverless : Option ℕ

-- What comes of a start: the sound cards are missing, something that follows them fails, or all of
-- it works.
pub data Attempt : Type 0 where
  no_devices fails_later works : Attempt

pub data Command : Type 0 where
  connect : Attempt → Command
  serverless_offer : Attempt → Command
  serverless_accept_offer : Attempt → Command
  disconnect : Command

-- `setup_audio`, where the sound cards are there
abbrev pub with_rig : Shell → Shell
with_rig s = record s { stops = s.stops ++ false ∷ [] }

-- `Drop for Engine`
unfoldable pub drop_engine : Option ℕ → Shell → Shell
drop_engine none s = s
drop_engine (some n) s = record s { stops = set s.stops n true }

-- `start`, and the handle into the state, where the old one is dropped. A start that fails after
-- `setup_audio` makes no handle.
unfoldable pub on_connect : Attempt → Shell → Shell
unfolding drop_engine
on_connect no_devices s = s
on_connect fails_later s = with_rig s
on_connect works s = record (drop_engine s.engine (with_rig s)) { engine = some (length s.stops) }

-- `build_pc` begins with `setup_audio` too, and drops its stop flag.
unfoldable pub build_pc : Attempt → Shell → Shell
build_pc no_devices s = s
build_pc fails_later s = with_rig s
build_pc works s = with_rig s

-- The session into the state. `Serverless` has no stop flag, and no `Drop`.
unfoldable pub on_serverless : Attempt → Shell → Shell
unfolding build_pc
on_serverless no_devices s = build_pc no_devices s
on_serverless fails_later s = build_pc fails_later s
on_serverless works s = record (build_pc works s) { serverless = some (length s.stops) }

unfoldable pub on_disconnect : Shell → Shell
unfolding drop_engine
on_disconnect s = record (drop_engine s.engine s) { engine = none; serverless = none }

unfoldable pub on_command : Command → Shell → Shell
unfolding on_connect on_serverless on_disconnect
on_command (connect a) s = on_connect a s
on_command (serverless_offer a) s = on_serverless a s
on_command (serverless_accept_offer a) s = on_serverless a s
on_command disconnect s = on_disconnect s

unfoldable pub run : List Command → Shell → Shell
unfolding on_command
run [] s = s
run (c ∷ cs) s = run cs (on_command c s)

-- `.manage(AppState { .. })`
abbrev pub initial : Shell
initial = record { stops = []; engine = none; serverless = none }
