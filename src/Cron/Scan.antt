-- ===== src/Cron/Scan.antt =====
-- `runGuaranteeExpiryScan` of apps/server/src/cron/guarantee-expiry.ts, with `enqueueCronTask` of
-- apps/server/src/cron/scheduler.ts. The idempotency key, a text made of the job's name, the period
-- and the day, is a number that a function makes of the period and the day.
use mathlib.Core.Option.{some-ne-none}
use mathlib.Core.Path.{subst}
use comission_mgmt.Prelude.{
  ℕ, suc, ◌≡◌, refl, sym, ◌∙◌, inl, inr, Bool, false, Option, none, some, List, [], ◌∷◌, ◌++◌,
  if◌then◌else◌, arith, All, find, Bool-cases, ◌≢◌,
}
use comission_mgmt.Tasks.Enqueue.{enqueue_found_lem}
use comission_mgmt.Store.Tables.{Uuid, GuaranteePeriodRow}
use comission_mgmt.Tasks.Queue.{
  TaskRow, EnqueueOptions, PayloadKey, other_key, has_key, new_task, enqueue_found, enqueue_task,
}

-- What a scan needs of its surroundings: the keys, the identifiers that the database draws, the
-- clock, and the insertions that fail, the n-th of the scan by `fails n`.
pub record ScanContext : Type 0 where
  pub key_of : Uuid → ℕ → ℕ
  pub uuid : ℕ → Uuid
  pub now : ℕ
  pub fails : ℕ → Bool

-- The numbers that stand for the agent type, the job type and the job's name.
abbrev pub cron_agent : ℕ
cron_agent = 0

abbrev pub guarantee_expired_recalc : ℕ
guarantee_expired_recalc = 1

-- The three references of the payload.
abbrev pub period_payload : List PayloadKey
period_payload = other_key 0 ∷ other_key 1 ∷ other_key 2 ∷ []

module _ (x : ScanContext) where
  abbrev pub scan_options : Uuid → ℕ → EnqueueOptions
  scan_options period_id today = record {
    idempotency_key = x.key_of period_id today;
    agent_type = cron_agent;
    job_type = guarantee_expired_recalc;
    payload = period_payload;
    created_by = cron_agent;
    priority = some 3;
    max_attempts = none;
  }

  -- The loop over the periods: the number of tasks enqueued, and the queue.
  unfoldable pub enqueue_all : ℕ → ℕ → ℕ → List GuaranteePeriodRow → List TaskRow → ℕ × List TaskRow
  unfolding enqueue_task
  enqueue_all today n count [] q = (count, q)
  enqueue_all today n count (p ∷ ps) q =
      enqueue_all today (suc n) (if x.fails n then count else suc count) ps
        (if x.fails n then q else (enqueue_task (x.uuid n) x.now (scan_options p.id today) q).1)

  -- `runGuaranteeExpiryScan`; the query that failed is `none`.
  unfoldable pub run_guarantee_expiry_scan :
      ℕ → Option (List GuaranteePeriodRow) → List TaskRow → ℕ × List TaskRow
  unfolding enqueue_all
  run_guarantee_expiry_scan today none q = (0, q)
  run_guarantee_expiry_scan today (some ps) q = enqueue_all today 0 0 ps q

-- A key that some task has.
abbrev pub IsQueued : ℕ → List TaskRow → Type 0
IsQueued key q = find (has_key key) q ≢ none

find-grown :
    (f : TaskRow → Bool) (new : TaskRow) (q : List TaskRow)
    → find f q ≢ none
    → find f (q ++ (new ∷ [])) ≢ none
find-grown f new [] h = absurd (h refl)
find-grown f new (t ∷ q) h = elim (Bool-cases (f t)) [
  | inl e ↦ rw e (λ k. some-ne-none _ k)
  | inr e ↦ rw e (find-grown f new q (rw e at h))
]

enqueue_found-IsQueued :
    (key : ℕ) (new : TaskRow) (found : Option TaskRow) (q : List TaskRow)
    → IsQueued key q
    → IsQueued key (enqueue_found new found q).1
enqueue_found-IsQueued key new none q h = find-grown (has_key key) new q h
enqueue_found-IsQueued key new (some old) q h = h

-- Every period of the list has its task.
abbrev pub AllQueued : ScanContext → ℕ → List GuaranteePeriodRow → List TaskRow → Type 0
AllQueued x today ps q = All (λ p. IsQueued (x.key_of p.id today) q) ps

module _ (x : ScanContext) (today : ℕ) where
  -- A key that is queued stays queued.
  enqueue_all-IsQueued :
      (key n count : ℕ) (ps : List GuaranteePeriodRow) (q : List TaskRow)
      → IsQueued key q
      → IsQueued key (enqueue_all x today n count ps q).1
  unfolding enqueue_all enqueue_task
  enqueue_all-IsQueued key n count [] q h = h
  enqueue_all-IsQueued key n count (p ∷ ps) q h = elim (Bool-cases (x.fails n)) [
    | inl e ↦ rw (e, enqueue_all) (enqueue_all-IsQueued key (suc n) count ps q h)
    | inr e ↦
        rw (e, enqueue_all)
          (enqueue_all-IsQueued key (suc n) (suc count) ps _
            (enqueue_found-IsQueued key _ (find (has_key (x.key_of p.id today)) q) q h))
  ]

  enqueue_task-IsQueued :
      (id now : ℕ) (o : EnqueueOptions) (q : List TaskRow)
      → IsQueued o.idempotency_key (enqueue_task id now o q).1
  unfolding enqueue_task
  enqueue_task-IsQueued id now o q e =
      some-ne-none _
        (sym (enqueue_found_lem (new_task id now o) o.idempotency_key _ q refl (ground arith)) ∙ e)

  -- A scan in which no insertion fails queues every period.
  enqueue_all-AllQueued :
      ((n : ℕ) → x.fails n ≡ false)
      → (n count : ℕ) (ps : List GuaranteePeriodRow) (q : List TaskRow)
      → AllQueued x today ps (enqueue_all x today n count ps q).1
  unfolding enqueue_all
  enqueue_all-AllQueued sound n count [] q = tt
  enqueue_all-AllQueued sound n count (p ∷ ps) q =
      let q1 = (enqueue_task (x.uuid n) x.now (scan_options x p.id today) q).1 in
      let step : enqueue_all x today n count (p ∷ ps) q
          ≡ enqueue_all x today (suc n) (suc count) ps q1 =
        rw (sound n, enqueue_all) refl in
      subst (λ r. AllQueued x today (p ∷ ps) r.1) (sym step)
        (
          enqueue_all-IsQueued (x.key_of p.id today) (suc n) (suc count) ps q1
              (enqueue_task-IsQueued (x.uuid n) x.now (scan_options x p.id today) q),
          enqueue_all-AllQueued sound (suc n) (suc count) ps q1,
        )

  enqueue_found-queued :
      (new : TaskRow) (found : Option TaskRow) (q : List TaskRow)
      → found ≢ none
      → (enqueue_found new found q).1 ≡ q
  enqueue_found-queued new none q h = absurd (h refl)
  enqueue_found-queued new (some old) q h = refl

  -- A scan over periods that are all queued leaves the queue.
  enqueue_all-queued :
      (n count : ℕ) (ps : List GuaranteePeriodRow) (q : List TaskRow)
      → AllQueued x today ps q
      → (enqueue_all x today n count ps q).1 ≡ q
  unfolding enqueue_all enqueue_task
  enqueue_all-queued n count [] q h = refl
  enqueue_all-queued n count (p ∷ ps) q h = elim (Bool-cases (x.fails n)) [
    | inl e ↦ rw (e, enqueue_all) (enqueue_all-queued (suc n) count ps q h.1)
    | inr e ↦
        rw
          (
            e,
            enqueue_all,
            enqueue_found-queued (new_task (x.uuid n) x.now (scan_options x p.id today)) _ q h.0,
          )
          (enqueue_all-queued (suc n) (suc count) ps q h.1)
  ]

-- Two scans of one day over the same periods: when no insertion of the first fails, its tasks are
-- all in the queue afterwards, one for each period's key, and the second, whatever its clock, its
-- identifiers and its failures, leaves the queue as it is.
pub run_guarantee_expiry_scan_twice :
    (x x' : ScanContext) (today : ℕ) (ps : List GuaranteePeriodRow) (q : List TaskRow)
    → ((n : ℕ) → x.fails n ≡ false)
    → x'.key_of ≡ x.key_of
    → AllQueued x today ps (run_guarantee_expiry_scan x today (some ps) q).1
      × ((run_guarantee_expiry_scan x' today
            (some ps)
            (run_guarantee_expiry_scan x today (some ps) q).1).1
          ≡ (run_guarantee_expiry_scan x today (some ps) q).1)
unfolding run_guarantee_expiry_scan
run_guarantee_expiry_scan_twice x x' today ps q sound same =
    let queued = enqueue_all-AllQueued x today sound 0 0 ps q in
    let queued' : AllQueued x' today ps (enqueue_all x today 0 0 ps q).1 =
      subst (λ k. All (λ p. IsQueued (k p.id today) (enqueue_all x today 0 0 ps q).1) ps) (sym same)
        queued in
    (queued, enqueue_all-queued x' today 0 0 ps _ queued')
