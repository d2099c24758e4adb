-- ===== src/Store/Steps.antt =====
-- How a step that returned, or threw, got there.
use mathlib.Core.Path.{subst}
use comission_mgmt.Prelude.{◌≡◌, refl, ◌⊎◌, inl, inr, arith, ◌∙◌}
use comission_mgmt.Store.Tables.{Tables}
use comission_mgmt.Store.Monad.{
  World, Outcome, returned, thrown, M, Exception, continue, restored, ◌>>=◌,
}

module _ {ℓ κ} {A : Type ℓ} {B : Type κ} where
  -- A chain that returned ran both its steps.
  pub continue_returned :
      (m : Outcome A × World) (k : A → M B) (b : B) (w' : World)
      → continue m k ≡ (returned b, w')
      → (a : A) × (w1 : World) × (m ≡ (returned a, w1)) × (k a w1 ≡ (returned b, w'))
  continue_returned (returned a, w1) k b w' e = (a, w1, refl, e)
  continue_returned (thrown x, w1) k b w' e = absurd (cc)

  -- A chain that threw did so in its first step, or in its second one.
  pub continue_thrown :
      (m : Outcome A × World) (k : A → M B) (x : Exception) (w' : World)
      → continue m k ≡ (thrown x, w')
      → (m ≡ (thrown x, w'))
        ⊎ ((a : A) × (w1 : World) × (m ≡ (returned a, w1)) × (k a w1 ≡ (thrown x, w')))
  continue_thrown (returned a, w1) k x w' e = inr (a, w1, refl, e)
  continue_thrown (thrown y, w1) k x w' e = inl (ground arith)

module _ {ℓ} {A : Type ℓ} where
  -- A transaction returns what its body returns.
  pub begin_returned :
      (t : Tables) (m : Outcome A × World) (a : A) (w' : World)
      → restored t m ≡ (returned a, w')
      → m ≡ (returned a, w')
  begin_returned t (returned b, w) a w' e = e
  begin_returned t (thrown x, w) a w' e = absurd (cc)

  -- A transaction that throws restores the tables.
  pub begin_thrown :
      (t : Tables) (m : Outcome A × World) (x : Exception) (w' : World)
      → restored t m ≡ (thrown x, w')
      → w'.tables ≡ t
  begin_thrown t (returned b, w) x w' e = absurd (cc)
  begin_thrown t (thrown y, w) x w' e = ground arith

  -- What holds of the results of a step holds of what it is equal to.
  pub returned_resp :
      (P : A → World → Type 0) (a b : A) (w w' : World)
      → ◌≡◌ {A = Outcome A × World} (returned a, w) (returned b, w')
      → P a w
      → P b w'
  returned_resp P a b w w' e h =
      let same : a ≡ b = ground arith in
      let world : w ≡ w' = ground arith in subst (λ x. P x w') same (subst (λ v. P a v) world h)

-- A step that writes no table, whatever comes of it.
abbrev pub Keeps {ℓ} : {A : Type ℓ} → M A → Type 0
Keeps m = (w : World) → (m w).1.tables ≡ w.tables

module _ {ℓ κ} {A : Type ℓ} {B : Type κ} where
  continue-Keeps :
      (m : Outcome A × World) (k : A → M B)
      → ((a : A) → Keeps (k a))
      → (continue m k).1.tables ≡ m.1.tables
  continue-Keeps (returned a, w) k h = h a w
  continue-Keeps (thrown x, w) k h = refl

  -- A chain of steps that write no table writes no table.
  pub chain-Keeps : (m : M A) (k : A → M B) → Keeps m → ((a : A) → Keeps (k a)) → Keeps (m >>= k)
  chain-Keeps m k f h w = continue-Keeps (m w) k h ∙ f w
