-- ===== src/Tests.antt =====
-- Concrete runs of the program's parts, with the theorems applied to them.
mod Server
mod Sessions
mod Client
mod Audio
mod Host
mod Settings
mod Mesh
