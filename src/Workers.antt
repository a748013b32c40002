-- ===== src/Workers.antt =====
-- The workers: the queue of runs that they claim.
pub mod Queue
