-- ===== src/Graph.antt =====
-- The execution graph: its route table, and the engine that walks it.
pub mod Routes
pub mod Lease
pub mod Store
pub mod Ops
pub mod Engine
