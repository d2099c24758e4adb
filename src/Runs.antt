-- ===== src/Runs.antt =====
-- Commission runs: packages/db/src/commission-runs.ts and the handlers of
-- apps/server/src/api/commission-runs.ts.
pub mod Statements
pub mod Handlers
pub mod Records
pub mod Approval
pub mod Finalization
pub mod Refusals
