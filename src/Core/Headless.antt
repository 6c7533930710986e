-- ===== src/Core/Headless.antt =====
-- apps/companion-core/src/main.rs: the console client. The environment is an argument; a line of input
-- is a command, an event is a line of output.
use Prim.Native.String.{◌++◌ as ◌+++◌}
use rdoc_sacompanion.Base.{
  String, ◌==◌, ◌≡◌, refl, Bool, true, false, not, Option, none, some, List, [], ◌∷◌, map, length,
  if◌then◌else◌, unwrap_or, is_some,
}
use rdoc_sacompanion.Text.{trim, is_empty}
use rdoc_sacompanion.Text.Decimal.{decimal}
use rdoc_sacompanion.Core.Engine.{
  EngineConfig, Participant, UiEvent, roster, chat, status, log, net, rekeyed, signaling, Cmd,
  toggle_tx,
}
use rdoc_sacompanion.Core.Mesh.{Webrtc, stun}
use rdoc_sacompanion.Core.Client.{Wake, run, joined}
use rdoc_sacompanion.Core.Client.Relay.{AllOpen, run-direct}

-- `std::env::var(key).ok()`
abbrev pub Env : Type 0
Env = String → Option String

unfoldable pub env_or : Env → (key default : String) → String
env_or env key default = unwrap_or (env key) default

unfoldable pub config : Env → EngineConfig
unfolding env_or
config env =
    let user = env_or env "USER_ID" "user" in
    record {
      server = env_or env "SERVER" "ws://127.0.0.1:8080/ws";
      room = env_or env "ROOM" "testroom";
      user_id = user;
      name = env_or env "NAME" user;
      token = env "TOKEN";
      cert_sha256 = env "CERT_SHA256";
      input_device = env "IN_DEVICE";
      output_device = env "OUT_DEVICE";
      relay_enabled = not (is_some (env "RELAY_DISABLED"));
    }

-- A line of the console; an empty one does nothing.
unfoldable pub on_line : String → Option Cmd
on_line line =
    let t = trim line in
    if t == "/t" then some toggle_tx else if is_empty t then none else some (Cmd.chat t)

abbrev bool_text : Bool → String
bool_text true = "true"
bool_text false = "false"

abbrev badge_text : Option String → String
badge_text none = ""
badge_text (some b) = " [" +++ (b +++ "]")

unfoldable pub participant_text : Participant → String
participant_text p =
    p.name
    +++ ((if p.you then " (du)" else "")
        +++ (badge_text p.badge +++ (if p.speaking then " 🎙" else "")))

-- `join(", ")`
abbrev joined_with : String → List String → String
joined_with separator [] = ""
joined_with separator (s ∷ []) = s
joined_with separator (s ∷ t ∷ rest) = s +++ (separator +++ joined_with separator (t ∷ rest))

unfoldable pub print : UiEvent → String
unfolding participant_text
print (roster participants) =
    "[Teilnehmer "
    +++ (decimal (length participants)
        +++ ("]: " +++ joined_with ", " (map participant_text participants)))
print (chat from text) = "[chat " +++ (from +++ ("] " +++ text))
print (status connected transmitting) =
    "[status verbunden="
    +++ (bool_text connected +++ (" senden=" +++ (bool_text transmitting +++ "]")))
print (log text) = "[log] " +++ text
print (net peers up_kbps down_kbps) =
    "[net peers="
    +++ (decimal peers
        +++ (" up=" +++ (decimal up_kbps +++ ("kbps down=" +++ (decimal down_kbps +++ "kbps]")))))
print (rekeyed generation by) = "[rekey #" +++ (decimal generation +++ (" by " +++ (by +++ "]")))
print (signaling up) = "[signaling " +++ ((if up then "up" else "down") +++ "]")

-- With RELAY_DISABLED in the environment, to whatever value, the console client opens no connection
-- with a TURN server.
pub config-direct :
    (lib : Webrtc) (env : Env) (value : String) (ws : List Wake)
    → env "RELAY_DISABLED" ≡ some value
    → AllOpen (λ s. s ≡ stun ∷ []) (run lib (config env) ws (joined (config env))).1
unfolding config
config-direct lib env value ws set = run-direct lib (config env) ws (rw (set, is_some) refl)
