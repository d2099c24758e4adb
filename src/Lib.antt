-- ===== src/Lib.antt =====
-- Verification of the commission management service: the rules that compute a commission, the
-- life cycles of placements, runs and guarantees, and the request handlers and background jobs that
-- change them.
--
-- How the parts interact. The commission rules (packages/core) are pure: a pipeline of five stages
-- turns an input into a commission record with its explanation. The handlers (apps/server/src/api)
-- and the background jobs read and write the database through the statements of packages/db; they
-- are modelled as functions of a world, which holds the tables and the audit log, and an
-- environment, which holds the clock, the drawn identifiers and the statements that fail.
--
-- Core.Number: the JavaScript number, an argument of the rules, with the laws of finite doubles
--   that the theorems use; a fixed-point number meets them.
-- Core.Tiers: packages/core/tier-progress.ts (computeTierProgress is compute_tier_progress, its loop
--   scan), the tier loop of applyTiers (select_tier), and validateTiers of packages/db/src/plans.ts.
-- Core.Explanation: packages/core/explanation-engine.ts; text is a list of code points, toFixed and
--   the printing of a number are an argument.
-- Core.Engine: packages/core/calculation-engine.ts. Stages has the interface and its implementation,
--   one function per method, Pipeline has runCalculationPipeline. The error of stage 1 is `none`.
-- Core.Lifecycle: packages/core/placement-state.ts, commission-run.ts and guarantee-state.ts. The
--   table of the placements is consulted by no handler.
-- Store: the columns of packages/db/schema.sql that the modelled statements use (Tables), and
--   statements, transactions, thrown errors, answers and session claims (Monad). A statement that
--   fails writes nothing; db.begin restores the tables if its body throws. That a COMMIT fails, or a
--   connection is lost between a commit and its answer, is not modelled. An UPDATE with RETURNING
--   answers the first row that it changed; the order of rows that ORDER BY leaves open is the order
--   of the table.
-- Runs: packages/db/src/commission-runs.ts (Statements) and the approval handlers of
--   apps/server/src/api/commission-runs.ts (Handlers): handleApproveRunRecord,
--   handleApproveCommissionRun and handleFinalizeCommissionRun, with every early return. One request
--   runs at a time there.
-- Guarantee: packages/db/src/guarantee-periods.ts (Statements) and
--   apps/server/src/api/guarantee-expiry-worker.ts (Worker). What other sessions commit between the
--   worker's first read and its transaction is a function of the tables.
-- Clawback: packages/db/src/clawback.ts (Statements) and handleTriggerClawback of
--   apps/server/src/api/clawback.ts (Handler), its transaction and its error paths included; other
--   sessions act between its reads and its transaction.
-- Invoices: packages/db/src/invoices.ts and releasePhaseCollectionGate of
--   packages/db/src/billing-phases.ts (Statements), handleCreateInvoice and handleUpdateInvoice
--   (Handlers), parseInvoiceCsv (Csv) and handleImportInvoices (Import) of
--   apps/server/src/api/invoices.ts, with every early return and error path. The unique index of the
--   numbers and the reference to the placement are part of the statements. isNaN(Number(text)) and
--   the reading of an identifier are arguments; a text has ASCII characters only.
-- Calculation: handleCalculateCommission of apps/server/src/api/calculate.ts and its resolvers,
--   listContributors and createCommissionRecord. It runs the pipeline of Core.Engine on what it
--   reads; the two resolvers that Promise.all starts run one after the other. The reading of numbers
--   and rules and the printing of a date are an argument (Reading).
-- Exceptions: packages/db/src/exceptions.ts, adjustNetPayable of
--   packages/db/src/commission-records.ts (Statements), and the request, approval and rejection of
--   apps/server/src/api/exceptions.ts (Handlers). Other sessions act between the query and the update
--   of a review; nothing acts between the query and the update of an adjustment. The printed sum of
--   two amounts, and what a column NUMERIC(15,2) makes of a text, are arguments.
-- Disputes: packages/db/src/disputes.ts (Statements), apps/server/src/api/disputes.ts and
--   apps/server/src/audit/sensitive-read.ts (Handlers).
-- Plans: packages/db/src/plans.ts (Statements) and the writing handlers of
--   apps/server/src/api/plans.ts (Handlers): handleCreatePlan, handleCreatePlanVersion,
--   handleActivatePlanVersion, handleCreatePlanAssignment and handleAcknowledgePlanVersion. The
--   document that the rules of a body are stored as is an argument.
-- Tasks: packages/db/task-queue.ts on a list of rows; the row lock of a claim makes one claim follow
--   another. Steps has the queue as a step relation.
-- Cron: runGuaranteeExpiryScan of apps/server/src/cron/guarantee-expiry.ts, over the task queue; the
--   periods that its query answers are an argument.
-- Security: apps/server/src/security/rate-limiter.ts as apps/server/src/index.ts uses it, the variable
--   RATE_LIMIT_DISABLED as an argument, and the permission matrix of packages/core/auth.ts.
-- Scenarios: a small database, runs on it, and the theorems applied to them.
--
-- Bounds. Every loop of the modelled code runs over a list and is structural recursion, so that no
-- function needs fuel. Identifiers, dates and timestamps are natural numbers, by equality and order.
--
-- Not modelled: NaN and infinities; the encrypted columns; the web application; sessions and
-- passkeys; the handlers for placements, contributors, billing phases, reconciliation and exports;
-- dispute arbitration; the column tier_rate; the task handlers and the registration of cron jobs;
-- dashboards; the worker process; scripts and tests.
pub mod Prelude
pub mod Core
pub mod Store
pub mod Runs
pub mod Guarantee
pub mod Clawback
pub mod Invoices
pub mod Calculation
pub mod Exceptions
pub mod Disputes
pub mod Plans
pub mod Tasks
pub mod Security
pub mod Cron
pub mod Scenarios
