-- ===== src/Guarantee/Worker.antt =====
-- `processGuaranteeExpiredRecalc`. What other sessions commit between the first read and the
-- transaction is a function of the tables.
use comission_mgmt.Prelude.{
  ℕ, Bool, true, false, not, ◌&&◌, Option, none, some, ◌==◌, if◌then◌else◌,
}
use comission_mgmt.Core.Lifecycle.States.{GuaranteeState, expired_clean}
use comission_mgmt.Store.Tables.{Uuid, Tables, GuaranteePeriodRow, guarantee_expired_clean}
use comission_mgmt.Store.Monad.{
  Environment, World, M, Outcome, returned, thrown, concurrent_expiry, append_audit, return, throw,
  attempt, begin, ◌>>=◌, ◌>>◌,
}
use comission_mgmt.Guarantee.Statements.{
  get_guarantee_period_for_placement, expire_guarantee_period_clean,
  release_held_commission_records_for_placement, advance_placement_to_guarantee_expired,
  is_in_force,
}

-- `GuaranteeExpiredRecalcPayload`.
pub record Payload : Type 0 where
  pub guarantee_period_id : Uuid
  pub placement_id : Uuid
  pub org_id : Uuid

-- `skip_reason`.
pub data SkipReason : Type 0 where
  guarantee_period_not_found period_mismatch_or_not_active skip_concurrent_expiry : SkipReason
  already_in : GuaranteeState → SkipReason

-- `GuaranteeExpiredRecalcResult`; a state that was not found is `none`, and `skipped` holds with the
-- reason.
pub record RecalcResult : Type 0 where
  pub guarantee_period_id : Uuid
  pub placement_id : Uuid
  pub new_guarantee_state : Option GuaranteeState
  pub commission_records_released : ℕ
  pub placement_advanced : Bool
  pub skip_reason : Option SkipReason

abbrev pub skipped : Payload → Option GuaranteeState → SkipReason → RecalcResult
skipped p state why = record {
  guarantee_period_id = p.guarantee_period_id;
  placement_id = p.placement_id;
  new_guarantee_state = state;
  commission_records_released = 0;
  placement_advanced = false;
  skip_reason = some why;
}

abbrev pub was_skipped : RecalcResult → Bool
was_skipped r = elim r.skip_reason [ none ↦ false | some why ↦ true ]

-- What other sessions commit.
abbrev pub interrupted : (Tables → Tables) → M (Unit {0})
interrupted others w = (returned tt, record w { tables = others w.tables })

module _ (env : Environment) where
  abbrev pub after_expiry : Payload → Bool → M (Bool × ℕ)
  after_expiry p false = throw concurrent_expiry
  after_expiry p true =
      advance_placement_to_guarantee_expired env p.org_id p.placement_id >>= λ advanced.
      release_held_commission_records_for_placement env p.org_id p.placement_id >>= λ released.
      return (advanced, released)

  -- The transaction.
  unfoldable pub expiry_transaction : Payload → Uuid → M (Bool × ℕ)
  unfolding expire_guarantee_period_clean advance_placement_to_guarantee_expired
      release_held_commission_records_for_placement
  expiry_transaction p period_id =
      begin (expire_guarantee_period_clean env period_id >>= after_expiry p)

  -- What follows the transaction: only the error of a concurrent expiry is swallowed.
  unfoldable pub after_transaction :
      Payload → Uuid → Outcome (Bool × ℕ) × World → Outcome RecalcResult × World
  unfolding append_audit
  after_transaction p period_id (thrown concurrent_expiry, w) =
      (returned (skipped p (some expired_clean) skip_concurrent_expiry), w)
  after_transaction p period_id (thrown x, w) = (thrown x, w)
  after_transaction p period_id (returned (advanced, released), w) =
      (attempt (
            append_audit env (record {
              org_id = p.org_id;
              actor_id = 0;
              action = guarantee_expired_clean;
              entity_id = period_id;
            }))
          >>= λ done. return (record {
            guarantee_period_id = period_id;
            placement_id = p.placement_id;
            new_guarantee_state = some expired_clean;
            commission_records_released = released;
            placement_advanced = advanced;
            skip_reason = none;
          }))
        w

  abbrev pub process_period :
      (Tables → Tables) → Payload → Option GuaranteePeriodRow → M RecalcResult
  process_period others p none = return (skipped p none guarantee_period_not_found)
  process_period others p (some period) =
      if not (period.id == p.guarantee_period_id) && not (is_in_force period.status)
      then return (skipped p (some period.status) period_mismatch_or_not_active)
      else if not (is_in_force period.status)
      then return (skipped p (some period.status) (already_in period.status))
      else interrupted others >> λ w.
          after_transaction p period.id (expiry_transaction p period.id w)

  -- `processGuaranteeExpiredRecalc`.
  unfoldable pub process_guarantee_expired_recalc : (Tables → Tables) → Payload → M RecalcResult
  unfolding get_guarantee_period_for_placement expiry_transaction after_transaction
  process_guarantee_expired_recalc others p =
      get_guarantee_period_for_placement env p.org_id p.placement_id >>= process_period others p
