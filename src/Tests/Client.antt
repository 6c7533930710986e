-- ===== src/Tests/Client.antt =====
-- The desktop client of apps/companion-core and apps/companion/src-tauri at small inputs.
use Prim.Native.String.{◌++◌}
use rdoc_sacompanion.Base.{
  ℕ, ◌+◌, ◌*◌, replicate, ◌≤◌, ltb, String, ◌≡◌, ◌↔◌, ◌⊎◌, refl, Bool, true, false, none, some,
  List, [], ◌∷◌, ◌++◌ as ◌+++◌, ◌==◌, nat_eq, length, len, if◌then◌else◌,
}
use rdoc_sacompanion.Text.{
  chars_any, chars_all, split_once_tail, after_last, before, strip_prefix, to_ascii_lowercase, trim,
}
use rdoc_sacompanion.Server.Socket.{bad_input}
use rdoc_sacompanion.Core.Signaling.{
  url_host, server_url_ok, Tls, dial_default, refuse_plain, connect,
}
use rdoc_sacompanion.Core.Signaling.Policy.{url_host-parts, IsLocal, connect-plain_iff}
use rdoc_sacompanion.Core.Engine.{
  EngineConfig, join_request, Participant, sort_by_name, Event, server_gone, retry_failed, entered,
  Engine,
}
use rdoc_sacompanion.Text.Bytes.{as_bytes}
use rdoc_sacompanion.Core.Serverless.{
  Codec, Rtc, Session, create_offer, accept_offer, accept_answer,
}
use rdoc_sacompanion.Core.Serverless.Handshake.{exchange-connects}
use rdoc_sacompanion.Protocol.{ClientMsg}
use rdoc_sacompanion.Core.Signaling.Pump.{
  Wake, outgoing, ping_due, Frame, write_loop, messages_of, outgoing_of, write_loop-prefix,
}
use rdoc_sacompanion.Core.Engine as Loop
use rdoc_sacompanion.Core.Engine.Link.{IsValid, run-IsValid}
use rdoc_sacompanion.Core.Engine.Pace.{IsPaced}
use rdoc_sacompanion.Core.Engine.Backoff
use rdoc_sacompanion.Core.Engine.Backoff.{IsDown, pause, run-outage}
use rdoc_sacompanion.Core.Mesh.{Webrtc, add_candidates}
use rdoc_sacompanion.Core.Mesh.Ice.{
  PeerEvent, candidate, described, peer_run, candidates_of, peer_run-in_order,
}
use rdoc_sacompanion.App.{char_count, valid_id}
use rdoc_sacompanion.App.Connect.{Request, ok}
use rdoc_sacompanion.App.Connect as Shell
use rdoc_sacompanion.App.Connect.Limits.{IsSafe, connect-IsSafe, connect-bad_input_iff}

abbrev tls : Tls
tls = record { sha256 = λ bytes. bytes; hex_decode = λ s. some (1 ∷ []) }

url_host-parts_example :
    url_host
      ("ws" ++ ("://" ++ (("127.0.0.1" ++ ("@" ++ ("Evil.example" ++ ":80"))) ++ "/localhost")))
    ≡ some (to_ascii_lowercase "Evil.example")
url_host-parts_example =
    url_host-parts "ws" "127.0.0.1" "Evil.example" "80" "/localhost" (unfold chars_any in refl)
      (unfold chars_any in refl) (unfold chars_any in refl) (unfold chars_any in refl)
      (unfold chars_any in refl) refl

abbrev evil : String
evil = "ws://127.0.0.1.evil.example/ws"

connect-plain_iff_example :
    ((connect tls evil none ≡ dial_default) ↔ IsLocal (url_host evil))
    × ((connect tls evil none ≡ dial_default) ⊎ (connect tls evil none ≡ refuse_plain))
connect-plain_iff_example = connect-plain_iff tls evil none (unfold strip_prefix in refl)

abbrev config : EngineConfig
config = record {
  server = "wss://h/ws";
  room = "r";
  user_id = "a";
  name = "A";
  token = none;
  cert_sha256 = none;
  input_device = none;
  output_device = none;
  relay_enabled = false;
}

-- The link is lost and two attempts fail; then a third one does.
abbrev outage : List Event
outage = server_gone 5 ∷ retry_failed 7 "e" ∷ retry_failed 11 "e" ∷ []

run-IsValid_example :
    let s = Loop.run config outage entered in
    IsValid s × IsPaced (retry_failed 19 "e") s (Loop.step config (retry_failed 19 "e") s).0
run-IsValid_example = run-IsValid config outage (retry_failed 19 "e")

run-outage_example :
    IsDown 19 (pause 3) (Loop.run config (Backoff.outage (λ n. 4 + n * 5) "e" 3) entered)
run-outage_example = run-outage config (λ n. 4 + n * 5) "e" 3 entered refl refl

abbrev lib : Webrtc
lib = record {
  opens = λ pc. true;
  adds_track = λ pc. true;
  opens_channel = λ pc. true;
  offers = λ pc. some "o";
  answers = λ pc. some "a";
  accepts_remote = λ pc sdp. true;
  parses_candidate = λ c. true;
}

abbrev arrivals : List PeerEvent
arrivals = candidate "c1" ∷ described ∷ candidate "c2" ∷ []

peer_run-in_order_example :
    peer_run lib arrivals (record { pc = 3; pending_ice = []; remote_set = false; chat = false })
    ≡ (
      record { pc = 3; pending_ice = []; remote_set = true; chat = false },
      add_candidates lib 3 (candidates_of arrivals),
    )
peer_run-in_order_example = peer_run-in_order lib arrivals 3

-- 40 characters, 80 bytes
abbrev umlauts : String
umlauts = "ääääääääääääääääääääääääääääääääääääääää"

abbrev request : Request
request = record {
  server = " wss://h/ws";
  room = "r";
  user_id = "a";
  name = umlauts;
  token = none;
  cert_sha256 = none;
  input_device = none;
  output_device = none;
  relay_enabled = none;
}

accepted : Shell.connect request ≡ ok (record config { name = umlauts })
unfolding Shell.connect server_url_ok strip_prefix trim split_once_tail after_last before valid_id
    chars_all char_count
accepted = refl

connect-IsSafe_example : IsSafe (record config { name = umlauts })
connect-IsSafe_example = connect-IsSafe request (record config { name = umlauts }) accepted

connect-bad_input_iff_example :
    (bad_input (join_request (record config { name = umlauts })) ≡ false) ↔ (len umlauts ≤ 64)
connect-bad_input_iff_example =
    connect-bad_input_iff request (record config { name = umlauts }) accepted

abbrev some_wakes : List Wake
some_wakes = outgoing ClientMsg.rekey ∷ ping_due ∷ outgoing ClientMsg.leave ∷ ping_due ∷ []

-- A pin of 64 hexadecimal digits.
abbrev fingerprint : String
fingerprint = "00112233445566778899aabbccddeeff00112233445566778899AABBCCDDEEFF"

abbrev pinned_tls : Tls
pinned_tls = record tls { hex_decode = λ s. some (replicate 32 7) }

-- A socket that takes two frames, one of them a ping, and then nothing.
abbrev dying : (turn : ℕ) → Frame → Bool
dying turn f = ltb turn 2

write_loop-prefix_example :
    (rest : List ClientMsg) × (outgoing_of some_wakes
      ≡ messages_of (write_loop dying 0 some_wakes) +++ rest)
write_loop-prefix_example = write_loop-prefix dying 0 some_wakes

abbrev codec : Codec
codec = record {
  encode = λ bytes. if nat_eq (length bytes) 5 then "bw==" else "YQ==";
  decode = λ s. if s == "bw==" then some (as_bytes "offer") else some (as_bytes "answer");
  from_utf8 = λ bytes. if nat_eq (length bytes) 5 then some "offer" else some "answer";
}

abbrev rtc : Rtc
rtc = record {
  builds = true;
  opens_channel = true;
  local_offer = some "offer";
  accepts = λ sdp. true;
  local_answer = λ offer. some "answer";
}

exchange-connects_example :
    (sa : Session) × (offer_code : String) × (sb : Session) × (answer_code : String) × (create_offer
        codec rtc "A"
      ≡ some (sa, offer_code))
    × (accept_offer codec rtc offer_code "B" ≡ some (sb, answer_code))
    × (sb.remote ≡ some "offer")
    × (accept_answer codec rtc answer_code sa ≡ some (record sa { remote = some "answer" }))
exchange-connects_example =
    exchange-connects codec rtc rtc "A" "B" "offer" "answer" (unfold as_bytes trim in (refl, refl))
      (unfold as_bytes trim in (refl, refl)) (refl, refl, refl) (refl, refl, refl) refl
