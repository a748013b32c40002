-- ===== src/Review.antt =====
-- review/: what changes the status of a skill between runs.
pub mod Lifecycle
