-- ===== src/Lib.antt =====
-- RDOC SquadLink Lite: encrypted voice and chat for a squad, peer to peer. A signaling server
-- (server/init) hands out sessions, keeps rooms of connected users and relays their WebRTC offers,
-- answers and candidates; a desktop client (apps/companion-core with the shell
-- apps/companion/src-tauri) joins a room over a WebSocket and builds a mesh of peer connections.
-- Both sides speak the messages of crates/protocol.
--
-- The files and the code that each one models:
--   Protocol                the message types of crates/protocol/src/lib.rs
--   Server/Auth, CtEq       server/init/src/auth.rs: room tokens, the comparison in constant time
--   Server/Sessions         server/init/src/sessions.rs: `create`, `join`, `reap`
--   Server/RateLimit        `RateLimiter` of server/init/src/main.rs
--   Server/Turn             server/init/src/turn.rs
--   Server/Channel          the bounded queue in front of each connection's writer task
--   Server/Room             the regions of `handle_socket` that hold the lock of the rooms, `relay_to`
--   Server/Socket           `handle_socket` as a state machine; Server/Socket/World has the tasks and
--                           their interleavings as a step relation
--   Server/Http             `create_session`, `join_session`, `client_ip` of server/init/src/main.rs
--   Server/Lang             `Lang` of server/init/src/i18n.rs and `lang_of`
--   Core/Signaling          apps/companion-core/src/signaling.rs
--   Core/Engine             the event loop of `start` in apps/companion-core/src/lib.rs
--   Core/Mesh               apps/companion-core/src/mesh.rs
--   Core/Client             `start` as a whole: the event loop with the mesh that it calls, and the queue
--                           through which the mesh reaches the signaling server
--   Core/Headless           apps/companion-core/src/main.rs
--   Server/Page             `esc`, `shell`, `footer`, `landing` of server/init/src/main.rs, `nav`, `switcher`
--                           and `landing` of server/init/src/i18n.rs
--   Server/Cors             `build_cors` of server/init/src/main.rs
--   Server/Tls              server/init/src/tls.rs
--   Server/Start            `main` of server/init/src/main.rs: start-up, and the sweep of each minute
--   Core/Serverless         apps/companion-core/src/serverless.rs
--   Core/Audio              apps/companion-core/src/audio.rs: resampler, DSP chain, the loops that
--                           encode, decode and mix, and the callbacks of the sound cards;
--                           Core/Audio/World has the threads as a step relation on the buffers that
--                           they share, Core/Audio/Rig the set-up and the handle's audio methods
--                           (apps/companion-core/src/lib.rs)
--   Core/Selfcheck          apps/companion-core/src/selfcheck.rs
--   App                     apps/companion/src-tauri/src/main.rs; App/Rigs has the life of its sessions
--                           with the audio threads that each one starts
--   System                  the server's answer to a join, read by the clients of a newcomer and a member
--   Base, Dict, Text        lists and tests, `HashMap<String, V>`, and the methods of `str`
--   Tests                   concrete runs
-- A file's theorems stand in the files below it, named for what they are about.
--
-- State is passed explicitly: the server's shared state is `Hub`, a connection's is `Next`, the
-- engine's is `Engine`, the mesh's is `Mesh`. What code does outside of its state is a list of
-- effects in order. A `HashMap` is an association list; no theorem depends on the order of its
-- entries. An `Arc` of a sender is the number of its channel. Clocks, random draws and the
-- environment are arguments. Numbers are natural numbers, with the wrap-around of the `u32` counter
-- of the rate limiter and the saturation of the key generation written out; a subtraction that
-- saturates in the source stops at 0.
--
-- Bounds and fuel: printing a number takes 20 digits, which a `u64` fits; `create` draws codes from
-- a list, and ends once more different codes were drawn than sessions are open; the loops that drain a
-- buffer in blocks have its length as fuel; the resampler's inner loop has fuel for the ticks of one
-- sample, and the mixer's refill takes one element of its list for each round that it makes among the
-- other threads; both are enough in the theorems below. Every other loop is recursion over its input.
--
-- Parameters: the crates for HMAC, hashing, hex and base64 (`Crypto`, `Tls`, `Pem`, `Codec`), the
-- WebRTC library (`Webrtc`, `Rtc`, `Library`), Opus and the denoiser (`Codec`, `Decoder`), the sound
-- cards (`Host`), and the arithmetic of f32 and f64 (`Float`). A theorem that needs a law of one of
-- them takes it as a hypothesis: that the WebRTC library's calls succeed (offers and answers, the
-- rotation of the keys) or that it opens connections and adds the track to them (the peers of the
-- mesh), that decoding undoes encoding (serverless codes), how the phase of the resampler grows
-- (`IsClock`), that a sample times a gain stays below 65536 (`IsScale`), and the order of floats
-- (`IsOrder`). JSON is decoded before a message reaches the model.
--
-- The samples of a buffer are integers, without the claim that they fit 16 bits where no theorem
-- needs it; sums of samples wrap around as in the source.
--
-- Not modelled: the pages whose text is constant, routing, device streams apart from their callbacks,
-- logging, the spikes and the web UI, which are glue, presentation or experiments.
pub mod Base
pub mod Dict
pub mod Text
pub mod Protocol
pub mod Server
pub mod Core
pub mod App
pub mod System
mod Tests
