-- ===== src/Scenarios/Guarantees.antt =====
-- The expiry worker on the small database.
use comission_mgmt.Prelude.{◌≡◌, refl, ◌⊎◌, ◌==◌}
use comission_mgmt.Store.Tables.{Tables}
use comission_mgmt.Store.Monad.{
  World, Environment, Outcome, returned, statement, query, append_audit,
}
use comission_mgmt.Guarantee.Statements.{first_period}
use comission_mgmt.Guarantee.Worker.{
  Payload, RecalcResult, process_guarantee_expired_recalc, expiry_transaction, after_transaction,
}
use comission_mgmt.Guarantee.Expiry.{expired_tables}
use comission_mgmt.Guarantee.Atomicity.{
  process_guarantee_expired_recalc_undone, stale_task_expires, expired_result,
}
use comission_mgmt.Scenarios.Database.{failing, sound, period, tables, world}

-- No other session writes.
abbrev alone : Tables → Tables
alone t = t

abbrev task : Payload
task = record { guarantee_period_id = 20; placement_id = 30; org_id = 1 }

-- A task that names a period of another placement.
abbrev stale_task : Payload
stale_task = record { guarantee_period_id = 99; placement_id = 30; org_id = 1 }

unfoldable expiry :
    (r : RecalcResult) × (w' : World) × (process_guarantee_expired_recalc sound alone task world
      ≡ (returned r, w'))
unfolding process_guarantee_expired_recalc query statement expiry_transaction after_transaction
    append_audit first_period
expiry = (_, _, refl)

-- The statement that releases the records fails.
abbrev failing_release : Environment
failing_release = failing (λ n. n == 3)

unfoldable failed_expiry :
    (o : Outcome RecalcResult) × (w' : World) × (process_guarantee_expired_recalc failing_release
        alone task world
      ≡ (o, w'))
failed_expiry = (_, _, refl)

process_guarantee_expired_recalc_undone_example :
    (failed_expiry.1.tables ≡ tables) ⊎ (failed_expiry.1.tables ≡ tables)
unfolding failed_expiry process_guarantee_expired_recalc query statement expiry_transaction
    after_transaction append_audit first_period
process_guarantee_expired_recalc_undone_example =
    process_guarantee_expired_recalc_undone failing_release alone task failed_expiry.0 world
      failed_expiry.1 failed_expiry.2 tt

stale_task_expires_example :
    ((process_guarantee_expired_recalc sound (λ t. t) stale_task world).0
      ≡ returned (expired_result sound stale_task world 20))
    × ((process_guarantee_expired_recalc sound (λ t. t) stale_task world).1.tables
        ≡ expired_tables sound stale_task 20 tables)
unfolding first_period
stale_task_expires_example =
    stale_task_expires sound stale_task world period refl refl refl (λ n. refl)
