-- ===== src/Exceptions.antt =====
-- Exceptions to a commission and their review: packages/db/src/exceptions.ts and
-- apps/server/src/api/exceptions.ts.
pub mod Statements
pub mod Handlers
pub mod Approval
pub mod Decided
