-- ===== src/Tasks/Enqueue.antt =====
-- `enqueueTask` and the idempotency key.
use comission_mgmt.Prelude.{ℕ, ◌≡◌, refl, true, none, some, Option, List, arith, find}
use comission_mgmt.Prelude.Distinct.{find-append}
use comission_mgmt.Store.Tables.{Uuid}
use comission_mgmt.Tasks.Queue.{
  TaskRow, EnqueueOptions, has_key, new_task, enqueue_found, enqueue_task,
}

-- The key of an enqueued task is found in the queue afterwards.
pub enqueue_found_lem :
    (new : TaskRow) (key : ℕ) (found : Option TaskRow) (q : List TaskRow)
    → find (has_key key) q ≡ found
    → has_key key new ≡ true
    → find (has_key key) (enqueue_found new found q).1 ≡ some (enqueue_found new found q).0
enqueue_found_lem new key none q e h = find-append (has_key key) q new e h
enqueue_found_lem new key (some old) q e h = e

-- Enqueueing is idempotent: a second task of the same key, whatever its other options and whenever
-- it comes, is answered with the row of the first, and the queue stays as it is.
enqueue_task_twice :
    (id id' : Uuid) (now now' : ℕ) (o o' : EnqueueOptions) (q : List TaskRow)
    → o'.idempotency_key ≡ o.idempotency_key
    → enqueue_task id' now' o' (enqueue_task id now o q).1 ≡ enqueue_task id now o q
unfolding enqueue_task
enqueue_task_twice id id' now now' o o' q same =
    let first = enqueue_task id now o q in
    let found : find (has_key o.idempotency_key) first.1 ≡ some first.0 =
      enqueue_found_lem (new_task id now o) o.idempotency_key _ q refl (ground arith) in
    rw (same, found) refl
