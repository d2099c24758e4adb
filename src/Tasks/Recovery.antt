-- ===== src/Tasks/Recovery.antt =====
-- `recoverStaleClaims`: retries with backoff, and the tasks whose attempts are used up.
use comission_mgmt.Prelude.{
  ℕ, ◌+◌, ◌*◌, ◌^◌, ◌≡◌, refl, ◌⊎◌, inl, inr, Bool, true, false, ◌&&◌, Option, none, some, ltb, leb,
  List, arith, All, All-update_where, Zip, Zip-update_where_if, Bool-cases,
}
use comission_mgmt.Tasks.Queue.{
  TaskRow, TaskQueueStatus, dead, pending, is_stale, is_exhausted, recover_row,
  recover_stale_claims,
}

abbrev is_claim : TaskQueueStatus → Bool
is_claim TaskQueueStatus.claimed = true
is_claim _ = false

abbrev is_over : ℕ → Option ℕ → Bool
is_over now none = false
is_over now (some at) = ltb at now

-- A claim whose time is over.
abbrev pub is_lapsed : ℕ → TaskRow → Bool
is_lapsed now t = is_claim t.status && is_over now t.claim_expires_at

-- What becomes of a task. If it is no claim whose time is over, it stays. Otherwise the claim is
-- taken from it, and it is dead if its attempts are used up, and else pending again and due after
-- two to the power of its attempts seconds.
abbrev pub IsRecovery : ℕ → TaskRow → TaskRow → Type 0
IsRecovery now t u =
    ((is_lapsed now t ≡ false) × (u ≡ t))
    ⊎ ((is_lapsed now t ≡ true)
        × (leb t.max_attempts t.attempt ≡ true)
        × (u ≡ record t {
          status = dead;
          claimed_by = none;
          claimed_at = none;
          claim_expires_at = none;
          delegated_token = none;
          next_retry_at = none;
          updated_at = now;
        }))
    ⊎ ((is_lapsed now t ≡ true)
        × (leb t.max_attempts t.attempt ≡ false)
        × (u ≡ record t {
          status = pending;
          claimed_by = none;
          claimed_at = none;
          claim_expires_at = none;
          delegated_token = none;
          next_retry_at = some (now + 2 ^ t.attempt * 1_000);
          updated_at = now;
        }))

recover_row-IsRecovery :
    (now : ℕ) (t : TaskRow) → is_stale now t ≡ true → IsRecovery now t (recover_row now t)
recover_row-IsRecovery now t e = elim (Bool-cases (is_exhausted t)) [
  | inl h ↦ rw h (inr (inl (e, refl, refl)))
  | inr h ↦ rw h (inr (inr (e, refl, refl)))
]

-- A recovery leaves no claim whose time is over. Exactly those tasks of the queue that are such
-- claims die, if their attempts are used up, or are retried; the others stay.
pub recover_stale_claims-IsRecovery :
    (now : ℕ) (q : List TaskRow)
    → All (λ t. is_lapsed now t ≡ false) (recover_stale_claims now q).1
      × Zip (IsRecovery now) q (recover_stale_claims now q).1
unfolding recover_stale_claims
recover_stale_claims-IsRecovery now q = (
  All-update_where _ (is_stale now) (recover_row now) (λ t e. ground arith) (λ t e. e) q,
  Zip-update_where_if (IsRecovery now) (is_stale now) (recover_row now) (recover_row-IsRecovery now)
      (λ t e. inl (e, refl)) q,
)
