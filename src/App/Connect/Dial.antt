-- ===== src/App/Connect/Dial.antt =====
-- Where the engine of apps/companion-core connects to, when the shell of apps/companion/src-tauri has
-- accepted the request.
use rdoc_sacompanion.Core.Signaling as Signaling
