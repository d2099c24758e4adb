-- ===== src/Tasks/Claims.antt =====
-- `claimNextTask`: which task it hands out, and that no task is handed out twice.
use mathlib.Core.Path.{subst}
use comission_mgmt.Prelude.{
  ℕ, ◌≡◌, ◌≢◌, refl, sym, ap, ◌∙◌, inl, inr, true, false, ◌&&◌, none, some, Option, List, [], ◌∷◌,
  ◌==◌, arith, All, Any, All-update_where, Any-with_All, select, update_where,
}
use comission_mgmt.Prelude.First.{IsWeakOrder, first_by, first_by-select, first_by-none}
use comission_mgmt.Tasks.Queue.{
  TaskRow, ClaimOptions, is_pending, is_claimable_task, is_ahead, claim_task, claim_found,
  claim_next_task,
}

is_ahead-IsWeakOrder : IsWeakOrder is_ahead
is_ahead-IsWeakOrder = record {
  before_self = λ p. ground arith;
  before_through = λ p best r h k. ground arith;
  before_trans = λ p best r h k. ground arith;
}

-- The task that a claim hands out, if it does: a claimable task of the queue that no claimable one
-- is ahead of, marked as claimed and with one more attempt; the other tasks stay as they are. If it
-- hands out none, no task was claimable, and all stay as they are.
abbrev pub IsClaim : ℕ → ClaimOptions → List TaskRow → Option TaskRow × List TaskRow → Type 0
IsClaim now o q (none, q') = All (λ t. is_claimable_task now o.agent_type t ≡ false) q × (q' ≡ q)
IsClaim now o q (some c, q') =
    (t : TaskRow) × Any (λ u. (u ≡ t) × (is_claimable_task now o.agent_type u ≡ true)) q
    × All (λ u. is_claimable_task now o.agent_type u && is_ahead u t ≡ false) q
    × (c ≡ claim_task now o t)
    × (q' ≡ update_where (λ u. u.id == t.id) (claim_task now o) q)

claim_found-IsClaim :
    (now : ℕ) (o : ClaimOptions) (q : List TaskRow) (found : Option TaskRow)
    → first_by is_ahead (select (is_claimable_task now o.agent_type) q) ≡ found
    → IsClaim now o q (claim_found now o found q)
claim_found-IsClaim now o q none e =
    (first_by-none is_ahead is_ahead-IsWeakOrder (is_claimable_task now o.agent_type) q e, refl)
claim_found-IsClaim now o q (some t) e =
    let (here, first) =
      first_by-select is_ahead is_ahead-IsWeakOrder (is_claimable_task now o.agent_type) t q e in
    (t, here, first, refl, refl)

-- A claim hands out the claimable task of the lowest priority number, the oldest of that priority,
-- and none only if no task is claimable.
pub claim_next_task-IsClaim :
    (now : ℕ) (o : ClaimOptions) (q : List TaskRow) → IsClaim now o q (claim_next_task now o q)
unfolding claim_next_task
claim_next_task-IsClaim now o q = claim_found-IsClaim now o q _ refl

-- After a claim no task with the id of the claimed one is pending.
claimed_away :
    (now : ℕ) (o : ClaimOptions) (q : List TaskRow) (t : TaskRow)
    → All
        (λ u. (u.id == t.id) && is_pending u.status ≡ false)
        (update_where (λ u. u.id == t.id) (claim_task now o) q)
claimed_away now o q t =
    All-update_where _ (λ u. u.id == t.id) (claim_task now o) (λ u e. ground arith)
      (λ u e. ground arith) q

none_of : {A : Type 0} (xs : List A) → Any (λ x. ⊥) xs → ⊥
none_of [] h = h
none_of (x ∷ xs) (inl h) = h
none_of (x ∷ xs) (inr h) = none_of xs h

clash :
    (now agent n : ℕ) (u s : TaskRow)
    → u.id ≡ s.id
    → n ≡ s.id
    → (u.id == n) && is_pending u.status ≡ false
    → is_claimable_task now agent u ≡ true
    → ⊥
clash now agent n u s e f away claimable = ground arith

claims_differ :
    (now now' : ℕ) (o o' : ClaimOptions) (q q1 q2 : List TaskRow) (c d : TaskRow)
    → IsClaim now o q (some c, q1)
    → IsClaim now' o' q1 (some d, q2)
    → c.id ≢ d.id
claims_differ now now' o o' q q1 q2 c d (t, here, first, ec, eq) (s, here', first', ed, eq') same =
    let id : t.id ≡ s.id =
      sym (ap (λ (x : TaskRow). x.id) ec) ∙ same ∙ ap (λ (x : TaskRow). x.id) ed in
    let away : All (λ u. (u.id == t.id) && is_pending u.status ≡ false) q1 =
      subst (All (λ u. (u.id == t.id) && is_pending u.status ≡ false)) (sym eq)
        (claimed_away now o q t) in
    none_of q1 (
      Any-with_All (λ u. (u.id == t.id) && is_pending u.status ≡ false)
        (λ u. (u ≡ s) × (is_claimable_task now' o'.agent_type u ≡ true)) (λ u. ⊥)
        (λ u h (e, k). clash now' o'.agent_type t.id u s (ap (λ (x : TaskRow). x.id) e) id h k) q1
        away here')

-- Two claims that follow one another hand out two tasks: the second one is never the task of the
-- first, whatever agent types they ask for.
pub claim_next_task_twice :
    (now now' : ℕ) (o o' : ClaimOptions) (q q1 q2 : List TaskRow) (c d : TaskRow)
    → claim_next_task now o q ≡ (some c, q1)
    → claim_next_task now' o' q1 ≡ (some d, q2)
    → c.id ≢ d.id
claim_next_task_twice now now' o o' q q1 q2 c d e f =
    claims_differ now now' o o' q q1 q2 c d
      (subst (IsClaim now o q) e (claim_next_task-IsClaim now o q))
      (subst (IsClaim now' o' q1) f (claim_next_task-IsClaim now' o' q1))
