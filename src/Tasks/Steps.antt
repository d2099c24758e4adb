-- ===== src/Tasks/Steps.antt =====
-- The queue as a step relation: what every queue has that these operations can make of an empty one.
use mathlib.Core.Path.{subst}
use mathlib.Core.Bool.{true≢false}
use comission_mgmt.Prelude.{
  ℕ, ◌≡◌, refl, sym, ◌∙◌, ◌⊎◌, inl, inr, Bool, true, false, not, ◌&&◌, ◌||◌, none, some, Option,
  List, [], ◌∷◌, ◌==◌, ltb, leb, arith, All, Any, All-map, All-of, All-update_where_kept, Any-map,
  update_where, find, if◌then◌else◌,
}
use comission_mgmt.Prelude.Distinct.{
  Distinct, Distinct-append, Distinct-update_where, Distinct-only, All-append, find-none,
}
use comission_mgmt.Store.Tables.{Uuid}
use comission_mgmt.Tasks.Queue.{
  TaskRow, TaskQueueStatus, update_task_status, EnqueueOptions, ClaimOptions, is_pending,
  is_claimable_task, has_key, new_task, enqueue_found, enqueue_task, claim_task, claim_next_task,
  submit_task_result, recover_stale_claims, recover_row, is_stale,
}
use comission_mgmt.Tasks.Claims.{IsClaim, claim_next_task-IsClaim}

-- A task is enqueued with a fresh id; it is claimed, submitted, recovered, or given another status
-- than pending.
pub data Step : List TaskRow → List TaskRow → Type 0 where
  enqueued :
      (id : Uuid) (now : ℕ) (o : EnqueueOptions) (q : List TaskRow)
      → All (λ t. t.id == id ≡ false) q
      → Step q (enqueue_task id now o q).1
  claimed_next :
      (now : ℕ) (o : ClaimOptions) (q : List TaskRow) → Step q (claim_next_task now o q).1
  submitted :
      (now : ℕ) (id : Uuid) (result : ℕ) (q : List TaskRow)
      → Step q (submit_task_result now id result q)
  updated :
      (now : ℕ) (id : Uuid) (status : TaskQueueStatus) (error retry : Option ℕ) (q : List TaskRow)
      → is_pending status ≡ false
      → Step q (update_task_status now id status error retry q)
  recovered : (now : ℕ) (q : List TaskRow) → Step q (recover_stale_claims now q).1

pub data Reachable : List TaskRow → Type 0 where
  empty : Reachable []
  after : {q q' : List TaskRow} → Reachable q → Step q q' → Reachable q'

-- A limit of zero allows one attempt, since a claim does not look at the limit.
abbrev pub limit_of : TaskRow → ℕ
limit_of t = if t.max_attempts == 0 then 1 else t.max_attempts

-- A task has no more attempts than its limit, and fewer if it is pending.
abbrev pub is_bounded : TaskRow → Bool
is_bounded t =
    leb t.attempt (limit_of t) && (not (is_pending t.status) || ltb t.attempt (limit_of t))

-- Ids and idempotency keys are unique, and the attempts are bounded.
abbrev pub IsWellFormed : List TaskRow → Type 0
IsWellFormed q =
    Distinct (λ t. t.id) q × Distinct (λ t. t.idempotency_key) q × All (λ t. is_bounded t ≡ true) q

update-IsWellFormed :
    (p : TaskRow → Bool) (f : TaskRow → TaskRow)
    → ((t : TaskRow) → (f t).id ≡ t.id)
    → ((t : TaskRow) → (f t).idempotency_key ≡ t.idempotency_key)
    → (q : List TaskRow) → IsWellFormed q
    → All (λ t. p t ≡ true → is_bounded t ≡ true → is_bounded (f t) ≡ true) q
    → IsWellFormed (update_where p f q)
update-IsWellFormed p f ids keys q (d, k, b) h = (
  Distinct-update_where (λ t. t.id) p f ids q d,
  Distinct-update_where (λ t. t.idempotency_key) p f keys q k,
  All-update_where_kept (λ t. is_bounded t ≡ true) p f q b h,
)

enqueue_found-IsWellFormed :
    (id : Uuid) (now : ℕ) (o : EnqueueOptions) (q : List TaskRow) (found : Option TaskRow)
    → find (has_key o.idempotency_key) q ≡ found
    → All (λ t. t.id == id ≡ false) q
    → IsWellFormed q
    → IsWellFormed (enqueue_found (new_task id now o) found q).1
enqueue_found-IsWellFormed id now o q none e fresh (d, k, b) = (
  Distinct-append (λ t. t.id) q (new_task id now o) d fresh,
  Distinct-append (λ t. t.idempotency_key) q (new_task id now o) k
      (find-none (has_key o.idempotency_key) q e),
  All-append (λ t. is_bounded t ≡ true) q (new_task id now o) b (ground arith),
)
enqueue_found-IsWellFormed id now o q (some old) e fresh h = h

claimable_member :
    (now agent : ℕ) (t : TaskRow) (q : List TaskRow)
    → Any (λ u. (u ≡ t) × (is_claimable_task now agent u ≡ true)) q
    → is_claimable_task now agent t ≡ true
claimable_member now agent t [] h = elim h [ ]
claimable_member now agent t (u ∷ q) (inl h) =
    subst (λ x. is_claimable_task now agent x ≡ true) h.0 h.1
claimable_member now agent t (u ∷ q) (inr h) = claimable_member now agent t q h

pending_bounded :
    (now : ℕ) (o : ClaimOptions) (t : TaskRow)
    → is_claimable_task now o.agent_type t ≡ true
    → is_bounded t ≡ true
    → is_bounded (claim_task now o t) ≡ true
pending_bounded now o t h b = ground arith

-- The row that the claim updates is the claimable one.
claimed_bounded :
    (now : ℕ) (o : ClaimOptions) (t u : TaskRow)
    → is_claimable_task now o.agent_type t ≡ true
    → (u.id == t.id ≡ false) ⊎ (u ≡ t)
    → u.id == t.id ≡ true
    → is_bounded u ≡ true
    → is_bounded (claim_task now o u) ≡ true
claimed_bounded now o t u h (inl other) same b = absurd (true≢false (sym same ∙ other))
claimed_bounded now o t u h (inr e) same b =
    pending_bounded now o u (subst (λ x. is_claimable_task now o.agent_type x ≡ true) (sym e) h) b

claim-IsWellFormed :
    (now : ℕ) (o : ClaimOptions) (q q' : List TaskRow) (c : Option TaskRow)
    → IsClaim now o q (c, q')
    → IsWellFormed q
    → IsWellFormed q'
claim-IsWellFormed now o q q' none (all, e) h = subst IsWellFormed (sym e) h
claim-IsWellFormed now o q q' (some c) (t, here, first, ec, eq) h =
    let claimable = claimable_member now o.agent_type t q here in
    let only : All (λ u. (u.id == t.id ≡ false) ⊎ (u ≡ t)) q =
      Distinct-only (λ u. u.id) t q h.0 (Any-map _ (λ u. u ≡ t) (λ u k. k.0) q here) in
    subst IsWellFormed (sym eq) (
      update-IsWellFormed (λ u. u.id == t.id) (claim_task now o) (λ u. refl) (λ u. refl) q h
        (All-map (λ u. (u.id == t.id ≡ false) ⊎ (u ≡ t)) _
          (λ u one. claimed_bounded now o t u claimable one) q only))

recovered_bounded :
    (now : ℕ) (t : TaskRow) → is_bounded t ≡ true → is_bounded (recover_row now t) ≡ true
recovered_bounded now t b = ground arith

Step-IsWellFormed : {q q' : List TaskRow} → Step q q' → IsWellFormed q → IsWellFormed q'
unfolding enqueue_task submit_task_result update_task_status recover_stale_claims
Step-IsWellFormed (enqueued id now o q fresh) h =
    enqueue_found-IsWellFormed id now o q _ refl fresh h
Step-IsWellFormed (claimed_next now o q) h =
    let c = claim_next_task now o q in
    claim-IsWellFormed now o q c.1 c.0 (claim_next_task-IsClaim now o q) h
Step-IsWellFormed (submitted now id result q) h =
    update-IsWellFormed (λ t. t.id == id) _ (λ t. refl) (λ t. refl) q h
      (All-of _ (λ t same b. ground arith) q)
Step-IsWellFormed (updated now id status error retry q other) h =
    update-IsWellFormed (λ t. t.id == id) _ (λ t. refl) (λ t. refl) q h
      (All-of _ (λ t same b. ground arith) q)
Step-IsWellFormed (recovered now q) h =
    update-IsWellFormed (is_stale now) (recover_row now) (λ t. refl) (λ t. refl) q h
      (All-of _ (λ t stale b. recovered_bounded now t b) q)

-- In every queue that enqueueing, claiming, submitting, recovering and updates to a status other than
-- pending make of an empty one, if the ids that the database draws are fresh: ids and idempotency
-- keys are unique, no task has more attempts than its limit, and a pending task has fewer, where a
-- limit of zero counts as one.
pub reachable-IsWellFormed : (q : List TaskRow) → Reachable q → IsWellFormed q
reachable-IsWellFormed q empty = (tt, tt, tt)
reachable-IsWellFormed q (after r s) = Step-IsWellFormed s (reachable-IsWellFormed _ r)
