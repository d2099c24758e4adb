-- ===== src/Plans.antt =====
-- Commission plans, their versions, assignments and acknowledgements: packages/db/src/plans.ts and
-- apps/server/src/api/plans.ts.
pub mod Statements
pub mod Handlers
pub mod Activation
pub mod Versions
pub mod Acknowledgement
