-- ===== src/Scenarios.antt =====
-- Concrete inputs: test data, tests, and the theorems applied to both.
pub mod Numbers
pub mod Database
pub mod Runs
pub mod Guarantees
pub mod Clawbacks
pub mod Queues
pub mod Guards
pub mod Calculations
pub mod Invoices
pub mod Reviews
pub mod Plans
