-- ===== src/Core/Tiers.antt =====
-- packages/core/tier-progress.ts, and the tier rules of packages/core/calculation-engine.ts and
-- packages/db/src/plans.ts: which rate a production amount earns, and how far the next tier is.
pub mod Scan
pub mod Sorting
pub mod Progress
pub mod Selection
pub mod Agreement
