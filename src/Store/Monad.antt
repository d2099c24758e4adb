-- ===== src/Store/Monad.antt =====
-- Statements against the database. The environment decides which of them fail; a failed statement
-- throws and writes nothing, and a transaction that throws restores the tables.
use Prim.Native.String.{String}
use comission_mgmt.Prelude.{ℕ, suc, Bool, Option, none, some, List, ◌∷◌, if◌then◌else◌}
use comission_mgmt.Store.Tables.{Tables, AuditRow, Uuid}

-- `NOW()`, `CURRENT_DATE`, the UUIDs that the server draws, and the statements that fail, the n-th
-- of the request by `fails n`.
pub record Environment : Type 0 where
  pub now : ℕ
  pub today : ℕ
  pub uuid : ℕ → Uuid
  pub fails : ℕ → Bool

pub record World : Type 0 where
  pub tables : Tables
  pub audit : List AuditRow
  pub statements : ℕ
  pub drawn : ℕ

-- A failure of the database, a property read of null, and the errors that the code throws itself.
pub data Exception : Type 0 where
  database_error type_error concurrent_expiry concurrent_trigger : Exception

pub data Outcome {ℓ} (A : Type ℓ) : Type ℓ where
  returned : A → Outcome A
  thrown : Exception → Outcome A

abbrev pub M {ℓ} : Type ℓ → Type ℓ
M A = World → Outcome A × World

-- What follows a step, and what catches its error.
abbrev pub continue {ℓ κ} :
    {A : Type ℓ} {B : Type κ} → Outcome A × World → (A → M B) → Outcome B × World
continue (returned a, w) f = f a w
continue (thrown x, w) f = (thrown x, w)

infixl 5 ◌>>=◌ ◌>>◌
abbrev pub ◌>>=◌ {ℓ κ} : {A : Type ℓ} {B : Type κ} → M A → (A → M B) → M B
◌>>=◌ m f w = continue (m w) f

abbrev pub ◌>>◌ {ℓ} : {B : Type ℓ} → M (Unit {0}) → M B → M B
◌>>◌ m k w = continue (m w) (λ _. k)

abbrev pub return {ℓ} : {A : Type ℓ} → A → M A
return a w = (returned a, w)

abbrev pub throw {ℓ} : {A : Type ℓ} → Exception → M A
throw x w = (thrown x, w)

abbrev pub handled {ℓ} : {A : Type ℓ} → Outcome A × World → (Exception → M A) → Outcome A × World
handled (returned a, w) h = (returned a, w)
handled (thrown x, w) h = h x w

-- `try { m } catch (x) { h }`.
abbrev pub catch {ℓ} : {A : Type ℓ} → M A → (Exception → M A) → M A
catch m h w = handled (m w) h

-- `try { x = m } catch { return ... }`, where `none` is the caught error.
abbrev pub tried {ℓ} : {A : Type ℓ} → Outcome A × World → Outcome (Option A) × World
tried (returned a, w) = (returned (some a), w)
tried (thrown x, w) = (returned none, w)

abbrev pub attempt {ℓ} : {A : Type ℓ} → M A → M (Option A)
attempt m w = tried (m w)

-- `db.begin`: an error restores the tables of its start.
abbrev pub restored {ℓ} : {A : Type ℓ} → Tables → Outcome A × World → Outcome A × World
restored t (returned a, w) = (returned a, w)
restored t (thrown x, w) = (thrown x, record w { tables = t })

abbrev pub begin {ℓ} : {A : Type ℓ} → M A → M A
begin m w = restored w.tables (m w)

module _ (env : Environment) where
  -- One statement: the answer and the new tables, computed from the tables.
  unfoldable pub statement {ℓ} : {A : Type ℓ} → (Tables → A × Tables) → M A
  statement f w =
      if env.fails w.statements
      then (thrown database_error, record w { statements = suc w.statements })
      else (
        returned (f w.tables).0,
        record w { tables = (f w.tables).1; statements = suc w.statements },
      )

  -- A query writes nothing.
  unfoldable pub query {ℓ} : {A : Type ℓ} → (Tables → A) → M A
  unfolding statement
  query f = statement (λ t. (f t, t))

  -- `INSERT INTO audit_log_entries`.
  unfoldable pub append_audit : AuditRow → M (Unit {0})
  append_audit row w =
      if env.fails w.statements
      then (thrown database_error, record w { statements = suc w.statements })
      else (returned tt, record w { audit = row ∷ w.audit; statements = suc w.statements })

  -- `gen_random_uuid()`.
  abbrev pub fresh_uuid : M Uuid
  fresh_uuid w = (returned (env.uuid w.drawn), record w { drawn = suc w.drawn })

-- An answer of a handler: a body with its status, or an error with its status and message.
pub data Response {ℓ} (B : Type ℓ) : Type ℓ where
  reply : ℕ → B → Response B
  refuse : ℕ → String → Response B

abbrev pub status_of {ℓ} : {B : Type ℓ} → Response B → ℕ
status_of (reply s b) = s
status_of (refuse s m) = s

pub data Role : Type 0 where
  producer finance_admin manager executive hr external_partner : Role

-- `SessionClaims`.
pub record SessionClaims : Type 0 where
  pub user_id : Uuid
  pub org_id : Uuid
  pub role : Role

-- The JSON body of a request: not JSON, `null`, or a value.
pub data Body {ℓ} (A : Type ℓ) : Type ℓ where
  invalid_body null_body : Body A
  json_body : A → Body A
