-- ===== src/Core/Engine.antt =====
-- packages/core/calculation-engine.ts: `CommissionCalculationEngine` and the pipeline that runs its
-- five stages. A promise is its value, a thrown error is `none`.
pub mod Stages
pub mod Pipeline
pub mod Bounds
pub mod Holds
