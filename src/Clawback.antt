-- ===== src/Clawback.antt =====
-- The trigger of a clawback.
pub mod Statements
pub mod Handler
pub mod Ledger
pub mod Trigger
pub mod Transaction
pub mod Report
pub mod Outcomes
pub mod Settled
