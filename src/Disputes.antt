-- ===== src/Disputes.antt =====
-- Disputes over a commission: packages/db/src/disputes.ts and apps/server/src/api/disputes.ts.
pub mod Statements
pub mod Handlers
pub mod Newest
pub mod Listing
pub mod Resolution
