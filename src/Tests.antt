-- ===== src/Tests.antt =====
-- Runs at fixed inputs and the theorems applied to them.
mod Names
mod Registry
mod Messages
mod Transcript
mod Election
mod Prompts
mod Remote
mod Base64
mod Mesh
mod Rpc
mod Sessions
