-- ===== src/Guarantee.antt =====
-- Guarantee periods: packages/db/src/guarantee-periods.ts and the expiry worker of
-- apps/server/src/api/guarantee-expiry-worker.ts.
pub mod Statements
pub mod Worker
pub mod Expiry
pub mod Atomicity
pub mod Selection
