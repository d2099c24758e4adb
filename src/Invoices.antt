-- ===== src/Invoices.antt =====
-- Invoices: packages/db/src/invoices.ts, the phase release of packages/db/src/billing-phases.ts and
-- the handlers of apps/server/src/api/invoices.ts.
pub mod Statements
pub mod Handlers
pub mod Members
pub mod Release
pub mod Paid
pub mod Payment
pub mod Csv
pub mod Lines
pub mod RoundTrip
pub mod Import
pub mod Numbers
pub mod Requests
pub mod Uniqueness
