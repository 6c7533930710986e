-- ===== src/Core.antt =====
-- apps/companion-core: the engine of the desktop client.
pub mod Signaling
pub mod Engine
pub mod Mesh
pub mod Client
pub mod Headless
pub mod Serverless
pub mod Audio
pub mod Selfcheck
