-- ===== src/Scenarios/Database.antt =====
-- A small database: one placement under guarantee with two commissions, an open run over them, and
-- an approved run.
use comission_mgmt.Prelude.{ℕ, Bool, true, false, none, some, [], ◌∷◌, ◌+◌}
use comission_mgmt.Core.Lifecycle.States.{in_force, guarantee_active}
use comission_mgmt.Core.Explanation.Text.{codes}
use comission_mgmt.Store.Tables.{
  Tables, CommissionRunRow, GuaranteePeriodRow, open_run, approved_run, guarantee_hold, accrued,
  held,
}
use comission_mgmt.Store.Monad.{Environment, World, SessionClaims, finance_admin}

abbrev pub failing : (ℕ → Bool) → Environment
failing fails = record { now = 1_000; today = 50; uuid = λ n. 900 + n; fails = fails }

-- No statement fails.
abbrev pub sound : Environment
sound = failing (λ n. false)

abbrev pub admin : SessionClaims
admin = record { user_id = 5; org_id = 1; role = finance_admin }

abbrev pub open_one : CommissionRunRow
open_one = record {
  id = 10;
  org_id = 1;
  period_start = 1;
  period_end = 30;
  status = open_run;
  created_by = 5;
  approved_by = none;
  approved_at = none;
  created_at = 7;
}

abbrev pub approved_one : CommissionRunRow
approved_one = record open_one { id = 11; status = approved_run; approved_by = some 5 }

-- The period ended on day 40.
abbrev pub period : GuaranteePeriodRow
period = record {
  id = 20;
  org_id = 1;
  placement_id = 30;
  guarantee_ends = 40;
  status = in_force;
  triggered_at = none;
  resolved_at = none;
  resolution = none;
  expired_at = none;
}

abbrev pub tables : Tables
tables = record {
  placements =
      record {
        id = 30;
        org_id = 1;
        compensation_base = codes "90000";
        fee_amount = codes "50000";
        status = guarantee_active;
        updated_at = 3;
      }
      ∷ [];
  guarantee_periods = period ∷ [];
  commission_records =
      record {
        id = 40;
        org_id = 1;
        placement_id = 30;
        contributor_id = 60;
        plan_version_id = 80;
        gross_amount = codes "5000.0000";
        net_payable = codes "5000.0000";
        explanation = none;
        billing_phase_id = none;
        status = accrued;
        hold_reason = none;
        approval_actor = none;
        approval_at = none;
        created_at = 4;
      }
      ∷ record {
        id = 41;
        org_id = 1;
        placement_id = 30;
        contributor_id = 61;
        plan_version_id = 80;
        gross_amount = codes "5000.0000";
        net_payable = codes "5000.0000";
        explanation = none;
        billing_phase_id = none;
        status = held;
        hold_reason = some guarantee_hold;
        approval_actor = none;
        approval_at = none;
        created_at = 5;
      }
      ∷ [];
  commission_runs = open_one ∷ approved_one ∷ [];
  commission_run_records =
      record {
        id = 50;
        org_id = 1;
        run_id = 10;
        commission_record_id = 40;
        individually_approved = true;
        individually_approved_by = some 5;
        individually_approved_at = some 6;
      }
      ∷ [];
  clawback_events = [];
  adjustments = [];
  recovery_schedules = [];
  discrepancies = [];
  invoices = [];
  billing_phases = [];
  commission_journal = [];
  exceptions = [];
  disputes = [];
  contributors = [];
  plan_versions = [];
  plan_assignments = [];
  commission_plans = [];
  plan_acknowledgments = [];
}

abbrev pub world : World
world = record { tables = tables; audit = []; statements = 0; drawn = 0 }
