-- ===== src/Scenarios/Calculations.antt =====
-- A calculation on a placement with two contributors, one paid and one open invoice, and a running
-- guarantee; then the payment of the open invoice.
use comission_mgmt.Prelude.{
  arith, ℕ, ◌≡◌, refl, true, false, none, some, List, [], ◌∷◌, ◌==◌, find, All, Zip, map, select,
  if◌then◌else◌,
}
use comission_mgmt.Prelude.First.{first_by}
use comission_mgmt.Prelude.Int.{pos}
use comission_mgmt.Prelude.Codes.{eq_codes}
use comission_mgmt.Core.Number.{Fixed, fixed_number}
use comission_mgmt.Core.Explanation.Text.{codes}
use comission_mgmt.Core.Engine.Stages.{
  gross_fee, first_dollar, calculate_base, apply_tiers, recover_draw, gate_on_collection,
  apply_guarantee_hold,
}
use comission_mgmt.Core.Engine.Pipeline.{record_of, run_calculation_pipeline}
use comission_mgmt.Core.Lifecycle.States.{active}
use comission_mgmt.Store.Tables.{
  Tables, PlacementRow, ContributorRow, InvoiceRow, active_version, paid_invoice, issued, held,
  payable, collection_gate,
}
use comission_mgmt.Store.Monad.{World, returned, reply, json_body, statement, query}
use comission_mgmt.Clawback.Statements.{get_placement}
use comission_mgmt.Calculation.Statements.{
  invoice_collected_in, guarantee_in, resolve_active_plan_version, resolve_invoice_collected,
  resolve_inside_guarantee_window, list_contributors, create_commission_record,
}
use comission_mgmt.Calculation.Handler.{
  Reading, Created, is_active, is_inside, calculate_all, handle_calculate_commission,
}
use comission_mgmt.Calculation.Created.{IsCalculation, handle_calculate_commission_ok}
use comission_mgmt.Calculation.Holds.{IsHeldFor, handle_calculate_commission_holds}
use comission_mgmt.Calculation.Released.{IsOpened, handle_update_invoice-opens_gate}
use comission_mgmt.Calculation.Unpaid.{IsReleasedUnpaid, released_unpaid}
use comission_mgmt.Invoices.Statements.{get_invoice, update_invoice, release_collection_gate}
use comission_mgmt.Prelude.Distinct.{Distinct}
use comission_mgmt.Invoices.Members.{record_id}
use comission_mgmt.Invoices.Handlers.{UpdateInvoiceBody, state, release_paid, handle_update_invoice}
use comission_mgmt.Scenarios.Database.{sound, admin, period, tables}
use comission_mgmt.Scenarios.Numbers.{fixed_format}

abbrev reading : Reading Fixed
reading = record {
  number_of = λ t. if eq_codes t (codes "0.5") then pos 5_000 else pos 500_000_000;
  date_text = λ d. codes "2026-06-01";
  rules_of = λ v. record {
    rate_type = some gross_fee;
    base_rate = pos 1_000;
    tiers = none;
    desk_cost = none;
    draw_recovery_mode = some first_dollar;
  };
}

abbrev contributor : ℕ → ContributorRow
contributor id = record {
  id = id;
  org_id = 1;
  placement_id = 31;
  producer_id = 70;
  split_pct = codes "0.5";
  created_at = id;
}

abbrev open_invoice : InvoiceRow
open_invoice = record {
  id = 92;
  org_id = 1;
  placement_id = 31;
  invoice_number = codes "A-1";
  amount_billed = codes "25000";
  amount_collected = none;
  status = issued;
  issued_at = 3;
  due_at = none;
  collected_at = none;
}

abbrev placement : PlacementRow
placement = record {
  id = 31;
  org_id = 1;
  compensation_base = codes "90000";
  fee_amount = codes "50000";
  status = active;
  updated_at = 3;
}

abbrev pub placed : Tables
placed = record tables {
  placements = placement ∷ tables.placements;
  guarantee_periods = record period { id = 21; placement_id = 31; guarantee_ends = 90 } ∷ [];
  invoices = open_invoice ∷ record open_invoice { id = 93; invoice_number = codes "A-2" } ∷ [];
  contributors = contributor 61 ∷ contributor 60 ∷ [];
  plan_versions =
      record {
        id = 80;
        org_id = 1;
        plan_id = 82;
        version_num = 1;
        status = active_version;
        rules_snapshot = 1;
        effective_at = 2;
      }
      ∷ [];
}

abbrev pub placed_world : World
placed_world = record { tables = placed; audit = []; statements = 0; drawn = 0 }

unfoldable pub calculation :
    (out : List (Created Fixed)) × (w' : World) × (handle_calculate_commission reading sound admin
        31 placed_world
      ≡ (returned (reply 200 out), w'))
unfolding handle_calculate_commission get_placement query statement list_contributors
    resolve_invoice_collected resolve_inside_guarantee_window calculate_all
    resolve_active_plan_version create_commission_record run_calculation_pipeline calculate_base
    first_by
calculation = (_, _, refl)

-- Both contributors have a record that the collection gate holds, although a guarantee runs too.
calculation_holds :
    (map (λ e. e.row.status) calculation.0 ≡ held ∷ held ∷ [])
    × (map (λ e. e.row.hold_reason) calculation.0
        ≡ some collection_gate ∷ some collection_gate ∷ [])
unfolding calculation handle_calculate_commission get_placement query statement list_contributors
    resolve_invoice_collected resolve_inside_guarantee_window calculate_all
    resolve_active_plan_version create_commission_record run_calculation_pipeline calculate_base
    record_of apply_tiers recover_draw gate_on_collection apply_guarantee_hold first_by
calculation_holds = (refl, refl)

handle_calculate_commission_ok_example :
    (p : PlacementRow) × (find (λ q. q.id == 31) placed.placements ≡ some p)
    × ((p.org_id == 1 ≡ true)
        × (is_active p.status ≡ true)
        × IsCalculation reading sound admin p calculation.0 placed calculation.1.tables)
handle_calculate_commission_ok_example =
    handle_calculate_commission_ok reading sound admin 31 calculation.0 placed_world calculation.1
      calculation.2

handle_calculate_commission_holds_example :
    (p : PlacementRow) × (find (λ q. q.id == 31) placed.placements ≡ some p)
    × All
        (λ e.
          IsHeldFor reading sound admin
            (invoice_collected_in 1 p.id placed)
            (is_inside (guarantee_in 50 1 p.id placed))
            e.row)
        calculation.0
handle_calculate_commission_holds_example =
    handle_calculate_commission_holds reading sound admin 31 calculation.0 placed_world
      calculation.1 calculation.2

-- The open invoice of number A-1 is paid, the one of number A-2 stays open.
abbrev pub payment : UpdateInvoiceBody
payment = record { status = state paid_invoice; amount_collected = none; due_at = none }

unfoldable pub paid :
    (u : InvoiceRow) × (count : ℕ) × (w' : World) × (handle_update_invoice sound
        (λ t. true)
        92
        (json_body payment)
        admin
        calculation.1
      ≡ (returned (reply 200 (u, count)), w'))
unfolding calculation handle_calculate_commission get_placement query statement list_contributors
    resolve_invoice_collected resolve_inside_guarantee_window calculate_all
    resolve_active_plan_version create_commission_record run_calculation_pipeline calculate_base
    record_of apply_tiers recover_draw gate_on_collection apply_guarantee_hold first_by
    handle_update_invoice get_invoice update_invoice release_paid release_collection_gate
paid = (_, _, _, refl)

-- Now both records are payable, although the other invoice is open and
-- the guarantee runs.
payment_releases :
    (map (λ c. c.status) (select (λ c. c.placement_id == 31) paid.2.tables.commission_records)
      ≡ payable ∷ payable ∷ [])
    × (invoice_collected_in 1 31 paid.2.tables ≡ false)
    × (is_inside (guarantee_in 50 1 31 paid.2.tables) ≡ true)
unfolding paid calculation handle_calculate_commission get_placement query statement
    list_contributors resolve_invoice_collected resolve_inside_guarantee_window calculate_all
    resolve_active_plan_version create_commission_record run_calculation_pipeline calculate_base
    record_of apply_tiers recover_draw gate_on_collection apply_guarantee_hold first_by
    handle_update_invoice get_invoice update_invoice release_paid release_collection_gate
payment_releases = (refl, refl, refl)

calculated-Distinct : Distinct record_id calculation.1.tables.commission_records
unfolding calculation handle_calculate_commission get_placement query statement list_contributors
    resolve_invoice_collected resolve_inside_guarantee_window calculate_all
    resolve_active_plan_version create_commission_record run_calculation_pipeline calculate_base
    first_by
calculated-Distinct = ground arith

handle_update_invoice-opens_gate_example :
    Zip
      (IsOpened sound admin paid.0.placement_id)
      calculation.1.tables.commission_records
      paid.2.tables.commission_records
    × ((today : ℕ) (placement_id : ℕ)
        → guarantee_in today 1 placement_id paid.2.tables
          ≡ guarantee_in today 1 placement_id calculation.1.tables)
handle_update_invoice-opens_gate_example =
    handle_update_invoice-opens_gate sound admin (λ t. true) 92 payment paid.0 paid.1 calculation.1
      paid.2 (λ s. refl) calculated-Distinct refl paid.3

released_unpaid_example : All (IsReleasedUnpaid reading sound admin paid.2.tables) calculation.0
unfolding paid
released_unpaid_example =
    released_unpaid reading sound admin 31 calculation.0 placed_world calculation.1 paid.2
      (λ t. true) 92 payment paid.0 paid.1 calculation.2 refl (λ s. refl) calculated-Distinct refl
      refl paid.3
