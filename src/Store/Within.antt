-- ===== src/Store/Within.antt =====
-- Relations between the tables before and after a step that hold whatever comes of the step.
use comission_mgmt.Prelude.{suc, none, some, true, false, ◌≡◌, inl, inr, Bool-cases, Option}
use comission_mgmt.Store.Tables.{Tables, AuditRow}
use comission_mgmt.Store.Monad.{
  Environment, World, Outcome, returned, thrown, M, Exception, continue, handled, tried, statement,
  append_audit, return, attempt, catch, ◌>>=◌,
}

-- The world after a statement that failed, and after one that wrote.
abbrev pub failed : World → World
failed w = record w { statements = suc w.statements }

abbrev pub written : Tables → World → World
written t w = record w { tables = t; statements = suc w.statements }

-- A statement either fails and leaves the tables, or answers and writes.
module _ {ℓ κ} {A : Type ℓ} {B : Type κ} (env : Environment) (f : Tables → A × Tables) where
  pub attempt_statement :
      (P : Outcome B × World → Type 0) (k : Option A → M B) (w : World)
      → (env.fails w.statements ≡ true → P (k none (failed w)))
      → (env.fails w.statements ≡ false → P (k (some (f w.tables).0) (written (f w.tables).1 w)))
      → P ((attempt (statement env f) >>= k) w)
  unfolding statement
  attempt_statement P k w bad good = elim (Bool-cases (env.fails w.statements)) [
    | inl e ↦ rw e (bad e)
    | inr e ↦ rw e (good e)
  ]

abbrev pub Within {ℓ} : {A : Type ℓ} → (Tables → Tables → Type 0) → M A → Type 0
Within R m = (w : World) → R w.tables (m w).1.tables

-- A relation that a step which writes nothing keeps, and that chains.
pub record IsPreorder (R : Tables → Tables → Type 0) : Type 0 where
  pub unchanged : (t : Tables) → R t t
  pub chained : (t u v : Tables) → R t u → R u v → R t v

module _ (R : Tables → Tables → Type 0) (pre : IsPreorder R) where
  module _ {ℓ κ} {A : Type ℓ} {B : Type κ} where
    pub continue-Within :
        (t : Tables) (m : Outcome A × World) (k : A → M B)
        → R t m.1.tables
        → ((a : A) → Within R (k a))
        → R t (continue m k).1.tables
    continue-Within t (returned a, w) k h g = pre.chained t w.tables (k a w).1.tables h (g a w)
    continue-Within t (thrown x, w) k h g = h

    pub chain-Within :
        (m : M A) (k : A → M B) → Within R m → ((a : A) → Within R (k a)) → Within R (m >>= k)
    chain-Within m k h g w = continue-Within w.tables (m w) k (h w) g

  module _ {ℓ} {A : Type ℓ} where
    handled-Within :
        (t : Tables) (m : Outcome A × World) (k : Exception → M A)
        → R t m.1.tables
        → ((x : Exception) → Within R (k x))
        → R t (handled m k).1.tables
    handled-Within t (returned a, w) k h g = h
    handled-Within t (thrown x, w) k h g = pre.chained t w.tables (k x w).1.tables h (g x w)

    pub catch-Within :
        (m : M A) (k : Exception → M A)
        → Within R m
        → ((x : Exception) → Within R (k x))
        → Within R (catch m k)
    catch-Within m k h g w = handled-Within w.tables (m w) k (h w) g

    tried-Within : (t : Tables) (m : Outcome A × World) → R t m.1.tables → R t (tried m).1.tables
    tried-Within t (returned a, w) h = h
    tried-Within t (thrown x, w) h = h

    pub attempt-Within : (m : M A) → Within R m → Within R (attempt m)
    attempt-Within m h w = tried-Within w.tables (m w) (h w)

    pub return-Within : (a : A) → Within R (return a)
    return-Within a w = pre.unchanged w.tables

    pub statement-Within :
        (env : Environment) (f : Tables → A × Tables)
        → ((t : Tables) → R t (f t).1)
        → Within R (statement env f)
    unfolding statement
    statement-Within env f h w = elim (Bool-cases (env.fails w.statements)) [
      | inl e ↦ rw e (pre.unchanged w.tables)
      | inr e ↦ rw e (h w.tables)
    ]

  pub append_audit-Within : (env : Environment) (row : AuditRow) → Within R (append_audit env row)
  unfolding append_audit
  append_audit-Within env row w = elim (Bool-cases (env.fails w.statements)) [
    | inl e ↦ rw e (pre.unchanged w.tables)
    | inr e ↦ rw e (pre.unchanged w.tables)
  ]
