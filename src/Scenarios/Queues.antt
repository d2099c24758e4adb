-- ===== src/Scenarios/Queues.antt =====
-- The task queue on two tasks.
use comission_mgmt.Prelude.{
  ◌*◌, ◌+◌, true, ◌∷◌, ◌≡◌, ◌≢◌, refl, false, none, some, List, [], All, Zip,
}
use comission_mgmt.Prelude.First.{first_by}
use comission_mgmt.Tasks.Queue.{
  TaskRow, EnqueueOptions, ClaimOptions, enqueue_task, claim_next_task, recover_stale_claims,
}
use comission_mgmt.Tasks.Claims.{IsClaim, claim_next_task-IsClaim, claim_next_task_twice}
use comission_mgmt.Tasks.Steps.{
  enqueued, Reachable, empty, after, IsWellFormed, reachable-IsWellFormed,
}
use comission_mgmt.Tasks.Recovery.{is_lapsed, IsRecovery, recover_stale_claims-IsRecovery}
use comission_mgmt.Cron.Scan.{
  ScanContext, AllQueued, run_guarantee_expiry_scan, run_guarantee_expiry_scan_twice,
}
use comission_mgmt.Scenarios.Database.{period}

abbrev first_options : EnqueueOptions
first_options = record {
  idempotency_key = 70;
  agent_type = 1;
  job_type = 2;
  payload = [];
  created_by = 3;
  priority = none;
  max_attempts = none;
}

abbrev second_options : EnqueueOptions
second_options = record first_options { idempotency_key = 71; priority = some 3 }

abbrev claim : ClaimOptions
claim = record { agent_type = 1; claimed_by = 9; delegated_token = none; claim_ttl_seconds = 300 }

unfoldable two_tasks : (q : List TaskRow) × Reachable q
unfolding enqueue_task
two_tasks = (
  _,
  after (after empty (enqueued 100 10 first_options [] tt))
      (enqueued 101 20 second_options _ (refl, tt)),
)

reachable-IsWellFormed_example : IsWellFormed two_tasks.0
reachable-IsWellFormed_example = reachable-IsWellFormed two_tasks.0 two_tasks.1

claim_next_task-IsClaim_example :
    IsClaim 50 claim two_tasks.0 (claim_next_task 50 claim two_tasks.0)
claim_next_task-IsClaim_example = claim_next_task-IsClaim 50 claim two_tasks.0

unfoldable first_claim :
    (c : TaskRow) × (q1 : List TaskRow) × (claim_next_task 50 claim two_tasks.0 ≡ (some c, q1))
unfolding claim_next_task two_tasks first_by
first_claim = (_, _, refl)

unfoldable second_claim :
    (d : TaskRow) × (q2 : List TaskRow) × (claim_next_task 60 claim first_claim.1 ≡ (some d, q2))
unfolding claim_next_task two_tasks first_by first_claim
second_claim = (_, _, refl)

claim_next_task_twice_example : first_claim.0.id ≢ second_claim.0.id
claim_next_task_twice_example =
    claim_next_task_twice 50 60 claim claim two_tasks.0 first_claim.1 second_claim.1 first_claim.0
      second_claim.0 first_claim.2 second_claim.2

-- The first claim handed out the second task, which has the lower priority number.
claims_by_priority : (first_claim.0.id ≡ 101) × (second_claim.0.id ≡ 100)
unfolding first_claim second_claim two_tasks
claims_by_priority = (refl, refl)

recover_stale_claims-IsRecovery_example :
    All (λ t. is_lapsed 900_000 t ≡ false) (recover_stale_claims 900_000 first_claim.1).1
    × Zip (IsRecovery 900_000) first_claim.1 (recover_stale_claims 900_000 first_claim.1).1
recover_stale_claims-IsRecovery_example = recover_stale_claims-IsRecovery 900_000 first_claim.1

-- A key of its own for each period and day before the thousandth.
abbrev scan_context : ScanContext
scan_context = record {
  key_of = λ period_id today. period_id * 1_000 + today;
  uuid = λ n. 500 + n;
  now = 70;
  fails = λ n. false;
}

-- Another scan, whose insertions fail.
abbrev failing_context : ScanContext
failing_context = record scan_context { uuid = λ n. 600 + n; now = 80; fails = λ n. true }

run_guarantee_expiry_scan_twice_example :
    AllQueued scan_context 41
      (period ∷ record period { id = 21 } ∷ [])
      (run_guarantee_expiry_scan scan_context 41
        (some (period ∷ record period { id = 21 } ∷ []))
        two_tasks.0).1
    × ((run_guarantee_expiry_scan
          (record scan_context { now = 90 })
          41
          (some (period ∷ record period { id = 21 } ∷ []))
          (run_guarantee_expiry_scan scan_context 41
            (some (period ∷ record period { id = 21 } ∷ []))
            two_tasks.0).1).1
        ≡ (run_guarantee_expiry_scan scan_context 41
            (some (period ∷ record period { id = 21 } ∷ []))
            two_tasks.0).1)
run_guarantee_expiry_scan_twice_example =
    run_guarantee_expiry_scan_twice scan_context (record scan_context { now = 90 }) 41
      (period ∷ record period { id = 21 } ∷ []) two_tasks.0 (λ n. refl) refl

-- The first scan enqueues two tasks; a scan whose insertions fail enqueues none.
scans_counted :
    ((run_guarantee_expiry_scan scan_context 41
        (some (period ∷ record period { id = 21 } ∷ []))
        []).0
      ≡ 2)
    × ((run_guarantee_expiry_scan failing_context 41 (some (period ∷ [])) []).0 ≡ 0)
unfolding run_guarantee_expiry_scan
scans_counted = (refl, refl)
