-- ===== src/Core/Client/Rotation.antt =====
-- What the client of apps/companion-core/src/lib.rs shows of a rotation of the keys that fails.
use rdoc_sacompanion.Base.{ℕ, String, ◌≡◌, ◌≢◌, refl, false, List, [], ◌∷◌, ◌++◌}
use mathlib.Core.List.{append-nil}
use rdoc_sacompanion.Dict.{get}
use rdoc_sacompanion.Protocol.{ServerMsg}
use rdoc_sacompanion.Core.Engine.{
  EngineConfig, rekeyed, step, on_server_msg, next_generation, server_msg,
}
use rdoc_sacompanion.Core.Mesh.{Webrtc, makes_conn, rekey}
use rdoc_sacompanion.Core.Mesh.Stalled.{rekey-stalled}
use rdoc_sacompanion.Core.Client.{
  Client, Output, shown, call, perform, perform_all, run_arm, to_outputs,
}

-- Where the library opens no connection, or adds no track to it, the rotation of the keys that a
-- member asks for leaves every connection but one as it is, with its old keys. The client counts a
-- new generation of keys all the same, and shows it as done.
pub run_arm-stalled :
    (lib : Webrtc) (cfg : EngineConfig) (by : String) (c : Client)
    → ((pc : ℕ) → makes_conn lib pc ≡ false)
    → (lost : String) × (others : List Output) × ((id : String)
        → lost ≢ id
        → get id (run_arm lib cfg (server_msg (ServerMsg.rekey by)) c).0.mesh.peers
          ≡ get id c.mesh.peers)
      × ((run_arm lib cfg (server_msg (ServerMsg.rekey by)) c).0.engine.key_gen
          ≡ next_generation c.engine.key_gen)
      × ((run_arm lib cfg (server_msg (ServerMsg.rekey by)) c).1
          ≡ others ++ shown (rekeyed (next_generation c.engine.key_gen) by) ∷ [])
unfolding run_arm step on_server_msg perform_all perform call
run_arm-stalled lib cfg by c refuses =
    let (lost, kept) = rekey-stalled lib refuses c.mesh in
    (
      lost,
      to_outputs (rekey lib c.mesh).done,
      kept,
      refl,
      rw (append-nil (to_outputs (rekey lib c.mesh).done)) refl,
    )
