-- ===== src/Scenarios/Reviews.antt =====
-- An exception and a dispute on the small database, and their reviews.
use comission_mgmt.Prelude.{
  ◌≡◌, refl, Bool, true, false, none, some, List, [], ◌∷◌, find, map, ◌==◌,
}
use comission_mgmt.Core.Explanation.Text.{Text, codes}
use comission_mgmt.Store.Tables.{
  Tables, ExceptionRow, requested, manual_override, DisputeRow, submitted,
}
use comission_mgmt.Store.Monad.{
  World, Response, Body, json_body, returned, reply, query, statement, append_audit,
}
use comission_mgmt.Exceptions.Statements.{
  is_exception, get_exception, approve_exception, adjust_net_payable,
}
use comission_mgmt.Exceptions.Handlers.{
  is_finance_admin, is_decided, handle_approve_exception, handle_reject_exception,
}
use comission_mgmt.Exceptions.Approval.{IsApproval, handle_approve_exception_ok}
use comission_mgmt.Exceptions.Decided.{IsSettled, IsLeft, decided_once}
use comission_mgmt.Disputes.Statements.{get_dispute, resolve_dispute, list_disputes}
use comission_mgmt.Disputes.Handlers.{
  ResolveDisputeBody, may_resolve, list_audit, handle_list_disputes, handle_resolve_dispute,
}
use comission_mgmt.Disputes.Listing.{IsAuditedFirst, IsListed, handle_list_disputes-IsAudited}
use comission_mgmt.Disputes.Resolution.{IsResolved, handle_resolve_dispute_ok}
use comission_mgmt.Scenarios.Database.{failing, sound, admin, tables}

abbrev exception : ExceptionRow
exception = record {
  id = 95;
  org_id = 1;
  placement_id = 30;
  commission_record_id = some 40;
  requested_by = 6;
  exception_type = manual_override;
  justification = codes "agreed";
  impact_amount = some (codes "100.00");
  status = requested;
  reviewed_by = none;
  reviewed_at = none;
  rejection_reason = none;
  attachment_url = none;
  created_at = 9;
}

abbrev dispute : DisputeRow
dispute = record {
  id = 96;
  org_id = 1;
  commission_record_id = 41;
  submitted_by = 6;
  description = codes "why held";
  state = submitted;
  resolved_by = none;
  resolved_at = none;
  resolution_note = none;
  exception_id = none;
  created_at = 10;
}

abbrev reviewed : Tables
reviewed = record tables {
  exceptions = exception ∷ [];
  disputes = record dispute { id = 97; created_at = 8 } ∷ dispute ∷ [];
}

abbrev review_world : World
review_world = record { tables = reviewed; audit = []; statements = 0; drawn = 0 }

-- The sum of the amounts, as this scenario prints it.
abbrev sum : Text → Text → Text
sum current impact = codes "5100.00"

unfoldable approval :
    (e : ExceptionRow) × (adjusted : Bool) × (w' : World) × (handle_approve_exception sound sum
        admin
        (λ t. t)
        95
        review_world
      ≡ (returned (reply 200 (e, adjusted)), w'))
unfolding handle_approve_exception get_exception approve_exception adjust_net_payable query
    statement append_audit
approval = (_, _, _, refl)

-- The approval adjusts the ledger of the first record.
approval_adjusts :
    (approval.1 ≡ true)
    × (map (λ c. c.net_payable) approval.2.tables.commission_records
        ≡ codes "5100.00" ∷ codes "5000.0000" ∷ [])
unfolding approval handle_approve_exception get_exception approve_exception adjust_net_payable query
    statement append_audit
approval_adjusts = (refl, refl)

handle_approve_exception_ok_example :
    (is_finance_admin admin.role ≡ true)
    × ((i : ExceptionRow) × (find (is_exception 1 95) reviewed.exceptions ≡ some i)
        × (is_decided i.status ≡ false))
    × IsApproval sound sum admin 95 approval.0 approval.1 reviewed approval.2.tables
handle_approve_exception_ok_example =
    handle_approve_exception_ok sound sum admin (λ t. t) 95 approval.0 approval.1 review_world
      approval.2 approval.3

decided_once_example :
    ((e : ExceptionRow) (adjusted : Bool) (w' : World)
      → handle_approve_exception sound sum admin (λ t. t) 95 review_world
        ≡ (returned (reply 200 (e, adjusted)), w')
      → IsSettled 1 95 w'.tables)
    × ((body : Body _) (e : ExceptionRow) (w' : World)
        → handle_reject_exception sound admin (λ t. t) 95 body review_world
          ≡ (returned (reply 200 e), w')
        → IsSettled 1 95 w'.tables)
    × (IsSettled 1 95 reviewed
        → IsLeft sound admin reviewed reviewed
            (handle_approve_exception sound sum admin (λ t. t) 95 review_world).1.tables
          × ((body : Body _)
              → IsLeft sound admin reviewed reviewed
                  (handle_reject_exception sound admin (λ t. t) 95 body review_world).1.tables))
decided_once_example = decided_once sound admin sum (λ t. t) 95 review_world

-- The read fails, and the audit row of the listing stands.
listing_audited :
    (handle_list_disputes (failing (λ n. n == 1)) admin review_world).1.audit
    ≡ list_audit sound admin ∷ []
unfolding handle_list_disputes list_disputes query statement append_audit
listing_audited = refl

handle_list_disputes-IsAudited_example :
    (answer : Response (List DisputeRow)) × (w' : World) × (handle_list_disputes sound admin
        review_world
      ≡ (returned answer, w'))
    × IsAuditedFirst sound admin answer review_world w'
    × IsListed sound admin answer reviewed
handle_list_disputes-IsAudited_example = handle_list_disputes-IsAudited sound admin review_world

abbrev resolving : Body ResolveDisputeBody
resolving =
    json_body (record { resolution_note = some (codes "explained"); exception_id = some 95 })

unfoldable resolution :
    (d : DisputeRow) × (w' : World) × (handle_resolve_dispute sound admin
        (λ t. t)
        96
        resolving
        review_world
      ≡ (returned (reply 200 d), w'))
unfolding handle_resolve_dispute get_dispute resolve_dispute query statement append_audit
resolution = (_, _, refl)

handle_resolve_dispute_ok_example :
    (may_resolve admin.role ≡ true)
    × IsResolved sound admin (λ t. t) 96 resolving resolution.0 reviewed resolution.1.tables
handle_resolve_dispute_ok_example =
    handle_resolve_dispute_ok sound admin (λ t. t) 96 resolving resolution.0 review_world
      resolution.1 resolution.2
