-- ===== src/Remote.antt =====
-- extension/src/session/broker_remote.ts: the router by which the broker of one machine exchanges
-- envelopes with those of other machines, over transport/pi_forward_client.ts.
pub mod Prefix
pub mod Topology
pub mod Roster
pub mod State
pub mod Cache
pub mod Lifecycle
pub mod Retopology
pub mod Outbound
pub mod Errors
pub mod Incoming
pub mod Tables
pub mod Keyed
pub mod Dropping
pub mod Pruning
pub mod Serving
pub mod Hearing
pub mod Steps
pub mod Provenance
pub mod Addresses
pub mod Handing
pub mod Arriving
pub mod Crossing
pub mod Reading
pub mod Announcing
pub mod RelayIds
