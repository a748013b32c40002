-- ===== src/Persistence.antt =====
-- persistence/: the checks and stores that the ledger, the graph and the workers share.
pub mod Fence
pub mod Idempotency
