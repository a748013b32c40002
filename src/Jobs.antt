-- ===== src/Jobs.antt =====
-- The jobs that improve the system between runs.
pub mod Quota
