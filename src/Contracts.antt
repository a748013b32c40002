-- ===== src/Contracts.antt =====
-- contracts/: the data that the graph, its nodes and its stores exchange.
pub mod Common
pub mod Budget
pub mod Failure
pub mod Criteria
pub mod Branch
pub mod Run
pub mod Policy
