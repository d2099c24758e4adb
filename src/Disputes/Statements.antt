-- ===== src/Disputes/Statements.antt =====
-- The statements of packages/db/src/disputes.ts.
use comission_mgmt.Prelude.{
  Bool, true, false, ◌&&◌, Option, none, some, List, [], ◌∷◌, ◌++◌, ◌==◌, ltb, if◌then◌else◌, any,
  find, select, update_where,
}
use comission_mgmt.Core.Explanation.Text.{Text}
use comission_mgmt.Store.Tables.{Uuid, Tables, DisputeRow, DisputeState, submitted, resolved}
use comission_mgmt.Store.Monad.{Environment, M, statement, query, fresh_uuid, ◌>>=◌}
use comission_mgmt.Exceptions.Statements.{changed, inserted}

-- `CreateDisputeInput`.
pub record CreateDisputeInput : Type 0 where
  pub org_id : Uuid
  pub commission_record_id : Uuid
  pub submitted_by : Uuid
  pub description : Text

abbrev pub is_dispute : Uuid → Uuid → DisputeRow → Bool
is_dispute org_id id d = d.id == id && d.org_id == org_id

-- `state IN ('Submitted', 'UnderReview')`.
abbrev pub is_unresolved : DisputeState → Bool
is_unresolved DisputeState.submitted = true
is_unresolved DisputeState.under_review = true
is_unresolved _ = false

abbrev pub is_open_dispute : Uuid → Uuid → DisputeRow → Bool
is_open_dispute org_id id d = is_dispute org_id id d && is_unresolved d.state

-- `ORDER BY created_at DESC`.
abbrev pub insert_newest : DisputeRow → List DisputeRow → List DisputeRow
insert_newest d [] = d ∷ []
insert_newest d (e ∷ es) =
    let rest = insert_newest d es in if ltb d.created_at e.created_at then e ∷ rest else d ∷ e ∷ es

abbrev pub newest_first : List DisputeRow → List DisputeRow
newest_first [] = []
newest_first (d ∷ ds) = insert_newest d (newest_first ds)

abbrev pub is_dispute_of : Uuid → DisputeRow → Bool
is_dispute_of org_id d = d.org_id == org_id

abbrev pub is_dispute_by : Uuid → Uuid → DisputeRow → Bool
is_dispute_by org_id user_id d = d.org_id == org_id && d.submitted_by == user_id

-- `COALESCE($3, exception_id)`.
abbrev pub coalesce : Option Uuid → Option Uuid → Option Uuid
coalesce none old = old
coalesce (some id) old = some id

-- The references to the commission record and to the exception.
abbrev pub may_resolve_with : Option Uuid → Tables → Bool
may_resolve_with none t = true
may_resolve_with (some id) t = any (λ e. e.id == id) t.exceptions

module _ (env : Environment) where
  abbrev pub new_dispute : Uuid → CreateDisputeInput → DisputeRow
  new_dispute id input = record {
    id = id;
    org_id = input.org_id;
    commission_record_id = input.commission_record_id;
    submitted_by = input.submitted_by;
    description = input.description;
    state = submitted;
    resolved_by = none;
    resolved_at = none;
    resolution_note = none;
    exception_id = none;
    created_at = env.now;
  }

  abbrev pub insert_dispute : Uuid → CreateDisputeInput → Tables → Option DisputeRow × Tables
  insert_dispute id input t =
      if any (λ c. c.id == input.commission_record_id) t.commission_records
      then (
        some (new_dispute id input),
        record t { disputes = t.disputes ++ (new_dispute id input ∷ []) },
      )
      else (none, t)

  -- `createDispute`.
  unfoldable pub create_dispute : CreateDisputeInput → M DisputeRow
  unfolding statement
  create_dispute input =
      fresh_uuid env >>= λ id. statement env (insert_dispute id input) >>= inserted

  -- `getDispute`.
  unfoldable pub get_dispute : Uuid → Uuid → M (Option DisputeRow)
  unfolding query
  get_dispute org_id id = query env (λ t. find (is_dispute org_id id) t.disputes)

  -- `listDisputes`.
  unfoldable pub list_disputes : Uuid → M (List DisputeRow)
  unfolding query
  list_disputes org_id = query env (λ t. newest_first (select (is_dispute_of org_id) t.disputes))

  -- `listDisputesByProducer`.
  unfoldable pub list_disputes_by_producer : Uuid → Uuid → M (List DisputeRow)
  unfolding query
  list_disputes_by_producer org_id user_id =
      query env (λ t. newest_first (select (is_dispute_by org_id user_id) t.disputes))

  abbrev pub resolved_row : Uuid → Text → Option Uuid → DisputeRow → DisputeRow
  resolved_row actor note exception_id d = record d {
    state = resolved;
    resolved_by = some actor;
    resolved_at = some env.now;
    resolution_note = some note;
    exception_id = coalesce exception_id d.exception_id;
  }

  -- The update, with the row that `RETURNING` gives; a violated reference throws if a row is
  -- updated.
  abbrev pub resolve_row :
      Uuid → Uuid → Uuid → Text → Option Uuid → Tables → Option (Option DisputeRow) × Tables
  resolve_row org_id id actor note exception_id t =
      if any (is_open_dispute org_id id) t.disputes
      then (if may_resolve_with exception_id t
          then (
            some (
                changed (resolved_row actor note exception_id)
                  (find (is_open_dispute org_id id) t.disputes)),
            record t {
              disputes =
                  update_where (is_open_dispute org_id id) (resolved_row actor note exception_id)
                    t.disputes;
            },
          )
          else (none, t))
      else (some none, t)

  -- `resolveDispute`.
  unfoldable pub resolve_dispute : Uuid → Uuid → Uuid → Text → Option Uuid → M (Option DisputeRow)
  unfolding statement
  resolve_dispute org_id id actor note exception_id =
      statement env (resolve_row org_id id actor note exception_id) >>= inserted
