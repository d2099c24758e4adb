-- ===== src/Cron.antt =====
-- The daily scan for expired guarantees.
pub mod Scan
