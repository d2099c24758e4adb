-- ===== src/Core/Lifecycle.antt =====
-- The life cycles of packages/core: placement-state.ts, commission-run.ts, guarantee-state.ts and
-- the invoice states of invoice-trigger.ts.
pub mod States
pub mod Traces
