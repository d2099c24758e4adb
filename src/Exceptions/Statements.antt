-- ===== src/Exceptions/Statements.antt =====
-- The statements of packages/db/src/exceptions.ts, and `adjustNetPayable` of
-- packages/db/src/commission-records.ts. What the column NUMERIC(15,2) makes of a text, and the
-- printed sum of two amounts, are the database's and the standard library's.
use comission_mgmt.Prelude.{
  Bool, true, false, ◌&&◌, Option, none, some, [], ◌∷◌, ◌++◌, ◌==◌, if◌then◌else◌, any, find,
  update_where,
}
use comission_mgmt.Core.Explanation.Text.{Text}
use comission_mgmt.Store.Tables.{
  Uuid, Tables, ExceptionRow, ExceptionState, requested, approved_exception, rejected,
  ExceptionType, CommissionRecordRow,
}
use comission_mgmt.Store.Monad.{
  Environment, M, statement, query, fresh_uuid, return, throw, database_error, ◌>>=◌, ◌>>◌,
}

-- `CreateExceptionInput`.
pub record CreateExceptionInput : Type 0 where
  pub org_id : Uuid
  pub placement_id : Uuid
  pub commission_record_id : Option Uuid
  pub requested_by : Uuid
  pub exception_type : ExceptionType
  pub justification : Text
  pub impact_amount : Option Text
  pub attachment_url : Option Text

abbrev pub is_exception : Uuid → Uuid → ExceptionRow → Bool
is_exception org_id id e = e.id == id && e.org_id == org_id

-- `status IN ('Requested', 'UnderReview')`.
abbrev pub is_undecided : ExceptionState → Bool
is_undecided ExceptionState.requested = true
is_undecided ExceptionState.under_review_exception = true
is_undecided _ = false

abbrev pub is_open_exception : Uuid → Uuid → ExceptionRow → Bool
is_open_exception org_id id e = is_exception org_id id e && is_undecided e.status

-- The first row that an UPDATE changes, as it is afterwards.
abbrev pub changed {ℓ} : {A : Type ℓ} → (A → A) → Option A → Option A
changed f none = none
changed f (some x) = some (f x)

-- A violated constraint throws.
abbrev pub inserted {ℓ} : {A : Type ℓ} → Option A → M A
inserted none = throw database_error
inserted (some x) = return x

abbrev pub is_record : Uuid → Uuid → CommissionRecordRow → Bool
is_record org_id id c = c.id == id && c.org_id == org_id

-- The references to the placement and to the commission record.
abbrev pub is_reference : Option Uuid → Tables → Bool
is_reference none t = true
is_reference (some id) t = any (λ c. c.id == id) t.commission_records

abbrev pub may_insert_exception : CreateExceptionInput → Tables → Bool
may_insert_exception input t =
    any (λ p. p.id == input.placement_id) t.placements && is_reference input.commission_record_id t

-- The amount as the column holds it; `none` is an error of the column.
abbrev pub column_amount : (Text → Option Text) → Option Text → Option (Option Text)
column_amount numeric none = some none
column_amount numeric (some t) = elim (numeric t) [ none ↦ none | some x ↦ some (some x) ]

module _ (env : Environment) where
  abbrev pub new_exception : Uuid → CreateExceptionInput → Option Text → ExceptionRow
  new_exception id input amount = record {
    id = id;
    org_id = input.org_id;
    placement_id = input.placement_id;
    commission_record_id = input.commission_record_id;
    requested_by = input.requested_by;
    exception_type = input.exception_type;
    justification = input.justification;
    impact_amount = amount;
    status = requested;
    reviewed_by = none;
    reviewed_at = none;
    rejection_reason = none;
    attachment_url = input.attachment_url;
    created_at = env.now;
  }

  abbrev pub insert_exception :
      Uuid → CreateExceptionInput → Option (Option Text) → Tables → Option ExceptionRow × Tables
  insert_exception id input none t = (none, t)
  insert_exception id input (some amount) t =
      if may_insert_exception input t
      then (
        some (new_exception id input amount),
        record t { exceptions = t.exceptions ++ (new_exception id input amount ∷ []) },
      )
      else (none, t)

  -- `createException`.
  unfoldable pub create_exception : (Text → Option Text) → CreateExceptionInput → M ExceptionRow
  unfolding statement
  create_exception numeric input = fresh_uuid env >>= λ id.
      statement env (insert_exception id input (column_amount numeric input.impact_amount))
      >>= inserted

  -- `getException`.
  unfoldable pub get_exception : Uuid → Uuid → M (Option ExceptionRow)
  unfolding query
  get_exception org_id id = query env (λ t. find (is_exception org_id id) t.exceptions)

  abbrev pub approved_row : Uuid → ExceptionRow → ExceptionRow
  approved_row actor e = record e {
    status = approved_exception;
    reviewed_by = some actor;
    reviewed_at = some env.now;
  }

  abbrev pub rejected_row : Uuid → Text → ExceptionRow → ExceptionRow
  rejected_row actor reason e = record e {
    status = rejected;
    reviewed_by = some actor;
    reviewed_at = some env.now;
    rejection_reason = some reason;
  }

  -- The update of the undecided row, with the row that `RETURNING` gives.
  abbrev pub decide :
      Uuid → Uuid → (ExceptionRow → ExceptionRow) → Tables → Option ExceptionRow × Tables
  decide org_id id f t = (
    changed f (find (is_open_exception org_id id) t.exceptions),
    record t { exceptions = update_where (is_open_exception org_id id) f t.exceptions },
  )

  -- `approveException`.
  unfoldable pub approve_exception : Uuid → Uuid → Uuid → M (Option ExceptionRow)
  unfolding statement
  approve_exception org_id id actor = statement env (decide org_id id (approved_row actor))

  -- `rejectException`.
  unfoldable pub reject_exception : Uuid → Uuid → Uuid → Text → M (Option ExceptionRow)
  unfolding statement
  reject_exception org_id id actor reason =
      statement env (decide org_id id (rejected_row actor reason))

  module _ (sum : Text → Text → Text) where
    abbrev pub paying : Text → CommissionRecordRow → CommissionRecordRow
    paying amount c = record c { net_payable = amount }

    abbrev pub adjusted_records : Uuid → Uuid → Text → Tables → Tables
    adjusted_records org_id id amount t = record t {
      commission_records = update_where (is_record org_id id) (paying amount) t.commission_records;
    }

    abbrev pub adjust_found : Uuid → Uuid → Text → Option CommissionRecordRow → M (Option Text)
    adjust_found org_id id impact none = return none
    adjust_found org_id id impact (some c) =
        statement env (λ t. (tt, adjusted_records org_id id (sum c.net_payable impact) t))
        >> return (some (sum c.net_payable impact))

    -- `adjustNetPayable`, of the printed adjustment: a query and an update.
    unfoldable pub adjust_net_payable : Uuid → Uuid → Text → M (Option Text)
    unfolding query statement
    adjust_net_payable org_id id impact =
        query env (λ t. find (is_record org_id id) t.commission_records)
        >>= adjust_found org_id id impact
