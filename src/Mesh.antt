-- ===== src/Mesh.antt =====
-- The keys and the routing aliases of a mesh: extension/src/mesh/encoding.ts, and the topology that
-- siblings.ts makes of them.
pub mod Keys
pub mod Aliases
pub mod Snapshot
pub mod Unique
pub mod Grouping
pub mod Allocating
pub mod Collisions
pub mod Telling
pub mod Prepared
pub mod Naming
pub mod Allocation
pub mod Canonical
pub mod Characters
pub mod Inputs
pub mod Preparing
pub mod Noting
pub mod Accepting
pub mod Labelling
pub mod Building
