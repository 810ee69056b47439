-- ===== src/Rpc.antt =====
-- The requests of an app to a session: extension/src/session/rpc_inbound.ts, `getEntries` of
-- rpc_handlers.ts, and the walk of unbien-cli/src/client.ts over the pages of a transcript.
pub mod Fitting
pub mod Pages
pub mod Ids
pub mod Cutting
pub mod Cursors
pub mod Walk
pub mod Branching
