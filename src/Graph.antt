-- ===== src/Graph.antt =====
-- Graph helpers, shared/sync/graph.ts: what the store reaches (`reachableNodes`), and the export of
-- it (`exportReachableContext`).
pub mod Data
pub mod Primitive
pub mod Grown
pub mod Refs
pub mod Choice
pub mod Branch
pub mod Value
pub mod Proposal
pub mod Edges
pub mod Root
pub mod Link
pub mod Tests
pub mod Reach
