-- ===== src/Broker.antt =====
-- extension/src/session/broker.ts: the broker of the session leader, which registers the sessions of
-- one machine and routes their envelopes. State and Naming, Registry and Routing are the code; the
-- other modules prove what it does.
pub mod State
pub mod Naming
pub mod Registry
pub mod Routing
pub mod Inject
pub mod Quiet
pub mod Identity
pub mod Invariant
pub mod Entering
pub mod Moving
pub mod Fading
pub mod Serving
pub mod Steps
pub mod Senders
pub mod Delivery
pub mod Takeover
pub mod Scope
pub mod Roster
