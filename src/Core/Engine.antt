-- ===== src/Core/Engine.antt =====
-- The event loop of `start` in apps/companion-core/src/lib.rs: one step for each arm of its
-- `select!`. What a step does outside of its own state is a list of effects, in order: events for
-- the frontend, messages to the signaling server, and calls of the mesh.
pub mod Roster
pub mod Pace
pub mod Link
pub mod Backoff
pub mod Meter
use Prim.Native.String.{◌++◌ as ◌+++◌}
use rdoc_sacompanion.Base.{
  ℕ, ◌+◌, ◌*◌, ◌^◌, ◌-◌, String, ◌==◌, Bool, true, false, not, Option, none, some, List, [], ◌∷◌,
  ◌++◌, map, leb, ltb, if◌then◌else◌, unwrap_or,
}
use rdoc_sacompanion.Dict.{Dict, get, insert, remove, update}
use rdoc_sacompanion.Text.{str_lt}
use rdoc_sacompanion.Text.Decimal.{decimal}
use rdoc_sacompanion.Protocol.{PeerInfo, TurnCreds, JoinRequest, ClientMsg, ServerMsg}

pub record EngineConfig : Type 0 where
  pub server : String
  pub room : String
  pub user_id : String
  pub name : String
  pub token : Option String
  pub cert_sha256 : Option String
  pub input_device : Option String
  pub output_device : Option String
  pub relay_enabled : Bool

-- The join that is sent first, and again after a reconnect.
unfoldable pub join_request : EngineConfig → JoinRequest
join_request cfg = record {
  room = cfg.room;
  user_id = cfg.user_id;
  name = cfg.name;
  token = cfg.token;
}

pub record Member : Type 0 where
  pub name : String
  pub badge : Option String
  pub speaking : Bool

pub record Participant : Type 0 where
  pub user_id : String
  pub name : String
  pub you : Bool
  pub badge : Option String
  pub speaking : Bool

pub data UiEvent : Type 0 where
  roster : (participants : List Participant) → UiEvent
  chat : (from text : String) → UiEvent
  status : (connected transmitting : Bool) → UiEvent
  log : (text : String) → UiEvent
  rekeyed : (generation : ℕ) (by : String) → UiEvent
  signaling : (up : Bool) → UiEvent
  net : (peers up_kbps down_kbps : ℕ) → UiEvent

-- The calls of the mesh's methods.
pub data MeshCall : Type 0 where
  on_peer : (peer : String) → MeshCall
  on_left : (peer : String) → MeshCall
  on_offer : (from sdp : String) → MeshCall
  on_answer : (from sdp : String) → MeshCall
  on_ice : (from candidate : String) → MeshCall
  rekey : MeshCall
  add_turn : TurnCreds → MeshCall
  broadcast_chat : (text : String) → MeshCall

pub data Effect : Type 0 where
  ui : UiEvent → Effect
  send : ClientMsg → Effect
  mesh : MeshCall → Effect

pub data Cmd : Type 0 where
  toggle_tx : Cmd
  set_tx : (on : Bool) → Cmd
  chat : (text : String) → Cmd
  rekey : Cmd
  reconnect : Cmd

pub data MeshEvent : Type 0 where
  chat : (from text : String) → MeshEvent
  badge : (peer kind : String) → MeshEvent

-- An arm of the `select!` that is ready, with the time where the arm reads the clock. The timer of
-- the bandwidth display is in Core/Engine/Meter.
pub data Event : Type 0 where
  uplink : ClientMsg → Event
  retry_ok : Event
  retry_failed : (now : ℕ) (message : String) → Event
  server_msg : ServerMsg → Event
  server_gone : (now : ℕ) → Event
  mesh_event : MeshEvent → Event
  command : (now : ℕ) → Cmd → Event
  handle_dropped : Event

-- The variables of the loop; `link` is `cur_in.is_some()`, `uplinked` is `cur_out.is_some()`.
pub record Engine : Type 0 where
  pub members : Dict Member
  pub key_gen : ℕ
  pub link : Bool
  pub uplinked : Bool
  pub next_try : Option ℕ
  pub backoff : ℕ
  pub transmit : Bool
  pub running : Bool

abbrev to_participant : String × Member → Participant
to_participant (id, m) = record {
  user_id = id;
  name = m.name;
  you = false;
  badge = m.badge;
  speaking = m.speaking;
}

-- `sort_by` on the names, which keeps the order of equal names.
unfoldable pub insert_by_name : Participant → List Participant → List Participant
insert_by_name p [] = p ∷ []
insert_by_name p (q ∷ qs) =
    let rest = insert_by_name p qs in if str_lt q.name p.name then q ∷ rest else p ∷ q ∷ qs

unfoldable pub sort_by_name : List Participant → List Participant
unfolding insert_by_name
sort_by_name [] = []
sort_by_name (p ∷ ps) = insert_by_name p (sort_by_name ps)

-- `emit_roster`
unfoldable pub emit_roster : EngineConfig → Dict Member → (transmitting : Bool) → Effect
unfolding sort_by_name
emit_roster cfg members transmitting = ui (
    UiEvent.roster (
      record {
        user_id = cfg.user_id;
        name = cfg.name;
        you = true;
        badge = none;
        speaking = transmitting;
      }
      ∷ sort_by_name (map to_participant members)))

abbrev pub u32_max : ℕ
u32_max = 4294967295

-- `saturating_add(1)`
unfoldable pub next_generation : ℕ → ℕ
next_generation g = if ltb g u32_max then g + 1 else u32_max

-- `(backoff * 2).min(30)`
unfoldable pub next_backoff : ℕ → ℕ
next_backoff b = if leb (b * 2) 30 then b * 2 else 30

-- A message on the current connection, if there is one.
abbrev pub send_up : Engine → ClientMsg → List Effect
send_up s msg = if s.uplinked then send msg ∷ [] else []

abbrev pub new_member : String → Member
new_member name = record { name = name; badge = none; speaking = false }

-- `.collect()` into the map
unfoldable pub collect_members : List PeerInfo → Dict Member → Dict Member
collect_members [] m = m
collect_members (p ∷ ps) m = collect_members ps (insert p.user_id (new_member p.name) m)

abbrev pub with_roster : EngineConfig → Engine → List Effect → Engine × List Effect
with_roster cfg s effects = (s, effects ++ emit_roster cfg s.members s.transmit ∷ [])

abbrev ui_log : String → Effect
ui_log text = ui (UiEvent.log text)

-- The `match` on a server's message.
unfoldable pub on_server_msg : EngineConfig → ServerMsg → Engine → Engine × List Effect
unfolding collect_members emit_roster next_generation
on_server_msg cfg (ServerMsg.roster peers) s =
    with_roster cfg (record s { members = collect_members peers [] })
      (map (λ p. mesh (on_peer p.user_id)) peers)
on_server_msg cfg (ServerMsg.peer_joined user_id name) s =
    with_roster cfg (record s { members = insert user_id (new_member name) s.members })
      (mesh (on_peer user_id) ∷ [])
on_server_msg cfg (ServerMsg.peer_left user_id) s =
    with_roster cfg (record s { members = remove user_id s.members }) (mesh (on_left user_id) ∷ [])
on_server_msg cfg (ServerMsg.offer from sdp) s = (s, mesh (on_offer from sdp) ∷ [])
on_server_msg cfg (ServerMsg.answer from sdp) s = (s, mesh (on_answer from sdp) ∷ [])
on_server_msg cfg (ServerMsg.ice from candidate) s = (s, mesh (on_ice from candidate) ∷ [])
on_server_msg cfg (ServerMsg.ptt user_id active) s =
    with_roster cfg
      (record s { members = update user_id (λ m. record m { speaking = active }) s.members }) []
on_server_msg cfg (ServerMsg.rekey by) s =
    let generation = next_generation s.key_gen in
    (record s { key_gen = generation }, mesh MeshCall.rekey ∷ ui (rekeyed generation by) ∷ [])
on_server_msg cfg (ServerMsg.turn t) s = (
  s,
  (if cfg.relay_enabled
        then mesh (add_turn t)
        else ui_log "TURN-Relay angeboten, aber deaktiviert (nur direkt/STUN).")
      ∷ [],
)
on_server_msg cfg (ServerMsg.warn size cap) s = (
  s,
  ui_log ("Room " +++ (decimal size +++ ("/" +++ (decimal cap +++ " — Audioqualität kann leiden"))))
      ∷ [],
)
on_server_msg cfg (ServerMsg.room_full cap) s =
    (record s { running = false }, ui_log ("Room voll @ " +++ decimal cap) ∷ [])
on_server_msg cfg (ServerMsg.error code message) s = (s, ui_log (code +++ (": " +++ message)) ∷ [])

-- A failed attempt to reconnect.
unfoldable pub on_retry_failed : (now : ℕ) (message : String) → Engine → Engine × List Effect
unfolding next_backoff
on_retry_failed now message s =
    let b = next_backoff s.backoff in
    (
      record s { backoff = b; next_try = some (now + b) },
      ui_log (
            "Reconnect fehlgeschlagen ("
            +++ (message +++ (") - neuer Versuch in " +++ (decimal b +++ "s."))))
          ∷ [],
    )

unfoldable pub on_retry_ok : EngineConfig → Engine → Engine × List Effect
unfolding join_request
on_retry_ok cfg s = (
  record s { link = true; uplinked = true; next_try = none; backoff = 2 },
  send (ClientMsg.join (join_request cfg))
      ∷ ui (signaling true)
      ∷ ui_log "Signaling wiederverbunden."
      ∷ [],
)

-- The signaling connection is gone; the mesh keeps running.
unfoldable pub on_server_gone : (now : ℕ) → Engine → Engine × List Effect
on_server_gone now s = (
  record s { link = false; uplinked = false; next_try = some (now + 2); backoff = 2 },
  ui (signaling false) ∷ ui_log "Signaling verloren - automatischer Reconnect laeuft." ∷ [],
)

-- The transmit flag is written, and everybody is told.
unfoldable pub transmit_now : EngineConfig → Bool → Engine → Engine × List Effect
unfolding emit_roster
transmit_now cfg on s = (
  record s { transmit = on },
  send_up s (ClientMsg.ptt on) ++ ui (status true on) ∷ emit_roster cfg s.members on ∷ [],
)

-- `Cmd::Reconnect` while the link is down: an attempt at once.
abbrev pub resumed : (now : ℕ) → Engine → Engine
resumed now s = record s { backoff = 2; next_try = some now }

abbrev pub same : Bool → Bool → Bool
same true b = b
same false b = not b

unfoldable pub on_cmd : EngineConfig → (now : ℕ) → Cmd → Engine → Engine × List Effect
unfolding transmit_now
on_cmd cfg now toggle_tx s = transmit_now cfg (not s.transmit) s
on_cmd cfg now (set_tx on) s = if same s.transmit on then (s, []) else transmit_now cfg on s
on_cmd cfg now (Cmd.chat text) s =
    (s, mesh (broadcast_chat text) ∷ ui (UiEvent.chat cfg.name text) ∷ [])
on_cmd cfg now Cmd.rekey s = (s, send_up s ClientMsg.rekey)
on_cmd cfg now reconnect s = (if s.link then s else resumed now s, [])

-- The sender's display name, or its id if it is no member.
abbrev display_name : String → Option Member → String
display_name from none = from
display_name from (some m) = m.name

unfoldable pub on_mesh_event : EngineConfig → MeshEvent → Engine → Engine × List Effect
unfolding emit_roster
on_mesh_event cfg (MeshEvent.chat from text) s =
    (s, ui (UiEvent.chat (display_name from (get from s.members)) text) ∷ [])
on_mesh_event cfg (MeshEvent.badge peer kind) s =
    with_roster cfg
      (record s { members = update peer (λ m. record m { badge = some kind }) s.members }) []

unfoldable pub step : EngineConfig → Event → Engine → Engine × List Effect
unfolding on_server_msg on_retry_failed on_retry_ok on_server_gone on_cmd on_mesh_event
step cfg (uplink msg) s = (s, send_up s msg)
step cfg retry_ok s = on_retry_ok cfg s
step cfg (retry_failed now message) s = on_retry_failed now message s
step cfg (server_msg msg) s = on_server_msg cfg msg s
step cfg (server_gone now) s = on_server_gone now s
step cfg (mesh_event ev) s = on_mesh_event cfg ev s
step cfg (command now cmd) s = on_cmd cfg now cmd s
step cfg handle_dropped s = (record s { running = false }, ui (status false false) ∷ [])

-- The guards of the arms: an attempt to reconnect runs while the link is down and a time is set,
-- the server is read while the link is up.
abbrev pub is_ready : Event → Engine → Bool
is_ready retry_ok s = not s.link
is_ready (retry_failed now message) s = not s.link
is_ready (server_msg msg) s = s.link
is_ready (server_gone now) s = s.link
is_ready _ s = true

-- The loop over the events that come, until it is left.
unfoldable pub run : EngineConfig → List Event → Engine → Engine
unfolding step
run cfg [] s = s
run cfg (ev ∷ evs) s =
    let later = run cfg evs (step cfg ev s).0 in
    let skipped = run cfg evs s in if s.running then if is_ready ev s then later else skipped else s

-- The state in which the loop is entered: the first connection is up and the join is sent.
abbrev pub entered : Engine
entered = record {
  members = [];
  key_gen = 1;
  link = true;
  uplinked = true;
  next_try = none;
  backoff = 2;
  transmit = false;
  running = true;
}
