-- ===== src/Tasks/Queue.antt =====
-- The statements of packages/db/task-queue.ts, on the rows of `task_queue`. A text that is only
-- compared (an agent type, a job type, an idempotency key, an actor, a token) stands as a number,
-- a payload as the list of its keys, a timestamp as its milliseconds.
use comission_mgmt.Prelude.{
  ℕ, suc, ◌+◌, ◌*◌, ◌^◌, Bool, true, false, not, ◌&&◌, ◌||◌, Option, none, some, List, [], ◌∷◌,
  ◌++◌, ◌==◌, ltb, leb, if◌then◌else◌, all, find, select, update_where, map,
}
use comission_mgmt.Prelude.First.{first_by}
use comission_mgmt.Store.Tables.{Uuid}

-- `BUSINESS_DATA_KEYS`, and any other key.
pub data PayloadKey : Type 0 where
  salary base_salary fee amount commission_amount rate split_rate percentage : PayloadKey
  split_percentage clawback_amount draw_amount invoice_amount payment_amount balance : PayloadKey
  other_key : ℕ → PayloadKey

abbrev pub is_business_key : PayloadKey → Bool
is_business_key (other_key k) = false
is_business_key _ = true

-- `validatePayload`: `false` is the thrown error.
abbrev pub validate_payload : List PayloadKey → Bool
validate_payload = all (λ k. not (is_business_key k))

-- `TaskQueueStatus`.
pub data TaskQueueStatus : Type 0 where
  pending claimed running submitting completed failed dead : TaskQueueStatus

-- `TaskQueueRow`; the result is its content.
pub record TaskRow : Type 0 where
  pub id : Uuid
  pub idempotency_key : ℕ
  pub agent_type : ℕ
  pub job_type : ℕ
  pub status : TaskQueueStatus
  pub payload : List PayloadKey
  pub created_by : ℕ
  pub claimed_by : Option ℕ
  pub claimed_at : Option ℕ
  pub claim_expires_at : Option ℕ
  pub delegated_token : Option ℕ
  pub result : Option ℕ
  pub error_message : Option ℕ
  pub attempt : ℕ
  pub max_attempts : ℕ
  pub next_retry_at : Option ℕ
  pub priority : ℕ
  pub created_at : ℕ
  pub updated_at : ℕ

-- `EnqueueOptions`; an absent priority is 5, an absent limit 3.
pub record EnqueueOptions : Type 0 where
  pub idempotency_key : ℕ
  pub agent_type : ℕ
  pub job_type : ℕ
  pub payload : List PayloadKey
  pub created_by : ℕ
  pub priority : Option ℕ
  pub max_attempts : Option ℕ

-- `ClaimOptions`.
pub record ClaimOptions : Type 0 where
  pub agent_type : ℕ
  pub claimed_by : ℕ
  pub delegated_token : Option ℕ
  pub claim_ttl_seconds : ℕ

abbrev pub default_to : Option ℕ → ℕ → ℕ
default_to none d = d
default_to (some n) d = n

abbrev pub is_pending : TaskQueueStatus → Bool
is_pending TaskQueueStatus.pending = true
is_pending _ = false

abbrev pub is_claimed_task : TaskQueueStatus → Bool
is_claimed_task TaskQueueStatus.claimed = true
is_claimed_task _ = false

abbrev pub has_key : ℕ → TaskRow → Bool
has_key key t = t.idempotency_key == key

abbrev pub new_task : Uuid → ℕ → EnqueueOptions → TaskRow
new_task id now o = record {
  id = id;
  idempotency_key = o.idempotency_key;
  agent_type = o.agent_type;
  job_type = o.job_type;
  status = pending;
  payload = o.payload;
  created_by = o.created_by;
  claimed_by = none;
  claimed_at = none;
  claim_expires_at = none;
  delegated_token = none;
  result = none;
  error_message = none;
  attempt = 0;
  max_attempts = default_to o.max_attempts 3;
  next_retry_at = none;
  priority = default_to o.priority 5;
  created_at = now;
  updated_at = now;
}

abbrev pub enqueue_found : TaskRow → Option TaskRow → List TaskRow → TaskRow × List TaskRow
enqueue_found new none q = (new, q ++ (new ∷ []))
enqueue_found new (some old) q = (old, q)

-- `enqueueTask`: a row of the key is answered as it is (`SET updated_at = task_queue.updated_at`).
unfoldable pub enqueue_task : Uuid → ℕ → EnqueueOptions → List TaskRow → TaskRow × List TaskRow
enqueue_task id now o q = enqueue_found (new_task id now o) (find (has_key o.idempotency_key) q) q

-- `next_retry_at IS NULL OR next_retry_at <= NOW()`.
abbrev pub is_due : ℕ → Option ℕ → Bool
is_due now none = true
is_due now (some at) = leb at now

abbrev pub is_claimable_task : ℕ → ℕ → TaskRow → Bool
is_claimable_task now agent t =
    t.agent_type == agent && is_pending t.status && is_due now t.next_retry_at

-- `ORDER BY priority ASC, created_at ASC`.
abbrev pub is_ahead : TaskRow → TaskRow → Bool
is_ahead s t =
    ltb s.priority t.priority || (s.priority == t.priority && ltb s.created_at t.created_at)

abbrev pub claim_task : ℕ → ClaimOptions → TaskRow → TaskRow
claim_task now o t = record t {
  status = claimed;
  claimed_by = some o.claimed_by;
  claimed_at = some now;
  claim_expires_at = some (now + o.claim_ttl_seconds * 1_000);
  delegated_token = o.delegated_token;
  attempt = suc t.attempt;
  updated_at = now;
}

abbrev pub claim_found :
    ℕ → ClaimOptions → Option TaskRow → List TaskRow → Option TaskRow × List TaskRow
claim_found now o none q = (none, q)
claim_found now o (some t) q =
    (some (claim_task now o t), update_where (λ u. u.id == t.id) (claim_task now o) q)

-- `claimNextTask`. The row lock makes one claim follow another.
unfoldable pub claim_next_task : ℕ → ClaimOptions → List TaskRow → Option TaskRow × List TaskRow
unfolding first_by
claim_next_task now o q =
    claim_found now o (first_by is_ahead (select (is_claimable_task now o.agent_type) q)) q

-- `updateTaskStatus`, without the answered row.
unfoldable pub update_task_status :
    ℕ → Uuid → TaskQueueStatus → Option ℕ → Option ℕ → List TaskRow → List TaskRow
update_task_status now id status error_message next_retry_at =
    update_where (λ t. t.id == id)
      (λ t. record t {
        status = status;
        error_message = error_message;
        next_retry_at = next_retry_at;
        updated_at = now;
      })

-- `submitTaskResult`, without the answered row.
unfoldable pub submit_task_result : ℕ → Uuid → ℕ → List TaskRow → List TaskRow
submit_task_result now id result =
    update_where (λ t. t.id == id)
      (λ t. record t { status = completed; result = some result; updated_at = now })

abbrev pub is_past : ℕ → Option ℕ → Bool
is_past now none = false
is_past now (some at) = ltb at now

abbrev pub is_stale : ℕ → TaskRow → Bool
is_stale now t = is_claimed_task t.status && is_past now t.claim_expires_at

abbrev pub is_exhausted : TaskRow → Bool
is_exhausted t = leb t.max_attempts t.attempt

abbrev pub recover_row : ℕ → TaskRow → TaskRow
recover_row now t = record t {
  status = if is_exhausted t then dead else pending;
  claimed_by = none;
  claimed_at = none;
  claim_expires_at = none;
  delegated_token = none;
  next_retry_at = if is_exhausted t then none else some (now + 2 ^ t.attempt * 1_000);
  updated_at = now;
}

-- `recoverStaleClaims`: the rows that were updated, and the queue.
unfoldable pub recover_stale_claims : ℕ → List TaskRow → List TaskRow × List TaskRow
recover_stale_claims now q = (
  map (recover_row now) (select (is_stale now) q),
  update_where (is_stale now) (recover_row now) q,
)
