-- ===== src/Calculation.antt =====
-- The calculation of a placement's commissions: apps/server/src/api/calculate.ts over the pipeline.
pub mod Statements
pub mod Handler
pub mod Resolved
pub mod Loop
pub mod Created
pub mod Holds
pub mod Released
pub mod Unpaid
