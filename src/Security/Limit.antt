-- ===== src/Security/Limit.antt =====
-- The limit, over any sequence of requests and cleanups.
use mathlib.Core.Path.{subst}
use comission_mgmt.Prelude.{
  ℕ, ◌+◌, ◌≤◌, ◌<◌, ◌≡◌, refl, sym, ap, ◌∙◌, inl, inr, Bool, true, false, ◌&&◌, List, [], ◌∷◌, ◌++◌,
  ◌==◌, ltb, if◌then◌else◌, length, arith, Bool-cases, length-append, ltb→lt,
}
use comission_mgmt.Prelude.Distinct.{Distinct}
use comission_mgmt.Security.RateLimiter.{
  RateLimiter, timestamps_of, set, is_live, live, check, consume, clean, cleanup, request,
}
use comission_mgmt.Security.Window.{
  select-append, length-select, live-live, timestamps_of-set, timestamps_of-set_other, set-Distinct,
  clean-Distinct, live-clean,
}

-- A limiter without entries.
abbrev pub fresh : ℕ → ℕ → RateLimiter
fresh w n = record { window_ms = w; max_requests = n; store = [] }

-- The times at which the key was let through, after one more request.
abbrev pub logged : ℕ → ℕ → ℕ → RateLimiter → List ℕ → List ℕ
logged k now key l log = if key == k && (request false now key l).0 then log ++ (now ∷ []) else log

-- What a limiter that is not disabled goes through while the clock does not run backwards, with the
-- times at which it let requests of the key through.
pub data Run (w n k : ℕ) : ℕ → RateLimiter → List ℕ → Type 0 where
  started : Run w n k 0 (fresh w n) []
  requested :
      {now : ℕ} {l : RateLimiter} {log : List ℕ} (now' key : ℕ)
      → now ≤ now'
      → Run w n k now l log
      → Run w n k now' (request false now' key l).1 (logged k now' key l log)
  cleaned :
      {now : ℕ} {l : RateLimiter} {log : List ℕ} (now' : ℕ)
      → now ≤ now'
      → Run w n k now l log
      → Run w n k now' (cleanup now' l) log

abbrev IsKept : ℕ → ℕ → ℕ → ℕ → RateLimiter → List ℕ → Type 0
IsKept w n k now l log =
    (l.window_ms ≡ w)
    × (l.max_requests ≡ n)
    × Distinct (λ e. e.0) l.store
    × (live w now log ≡ live w now (timestamps_of k l.store))
    × (length (live w now log) ≤ n)

-- Time passes.
later :
    (w n k now now' : ℕ) (l : RateLimiter) (log : List ℕ)
    → now ≤ now'
    → IsKept w n k now l log
    → IsKept w n k now' l log
later w n k now now' l log h (a, b, d, same, few) =
    let moved : live w now' log ≡ live w now' (timestamps_of k l.store) =
      sym (live-live w now now' log h)
      ∙ ap (live w now') same
      ∙ live-live w now now' (timestamps_of k l.store) h in
    let short = length-select (is_live w now') (live w now log) in
    (
      a,
      b,
      d,
      moved,
      subst (λ x. length x ≤ n) (live-live w now now' log h) (omega (arith, short, few)),
    )

cleanup_kept :
    (w n k now : ℕ) (l : RateLimiter) (log : List ℕ)
    → IsKept w n k now l log
    → IsKept w n k now (cleanup now l) log
unfolding cleanup
cleanup_kept w n k now l log (a, b, d, same, few) = (
  a,
  b,
  clean-Distinct l.window_ms now l.store d,
  same
      ∙ sym (
          subst
            (λ v.
              live w now (timestamps_of k (clean v now l.store))
              ≡ live w now (timestamps_of k l.store))
            (sym a) (live-clean k w now l.store d)),
  few,
)

abbrev is_allowed : ℕ → ℕ → RateLimiter → Bool
is_allowed now key l =
    ltb (length (live l.window_ms now (timestamps_of key l.store))) l.max_requests

request_allowed :
    (now key : ℕ) (l : RateLimiter)
    → is_allowed now key l ≡ true
    → request false now key l ≡ (true, consume false now key l)
unfolding request check
request_allowed now key l e = rw e refl

request_refused :
    (now key : ℕ) (l : RateLimiter)
    → is_allowed now key l ≡ false
    → request false now key l ≡ (false, l)
unfolding request check
request_refused now key l e = rw e refl

few_of : (x a b n : ℕ) → x ≡ a + b → a < n → b ≤ 1 → x ≤ n
few_of x a b n e h k = omega (arith, e, h, k)

-- A request of the key that is let through.
counted :
    (w n k now : ℕ) (l : RateLimiter) (log : List ℕ)
    → is_allowed now k l ≡ true
    → IsKept w n k now l log
    → IsKept w n k now (consume false now k l) (log ++ (now ∷ []))
unfolding consume
counted w n k now l log e (a, b, d, same, few) =
    let ts = timestamps_of k l.store in
    let both : live w now (log ++ (now ∷ [])) ≡ live w now ts ++ live w now (now ∷ []) =
      select-append (is_live w now) log (now ∷ []) ∙ ap (λ xs. xs ++ live w now (now ∷ [])) same in
    let stored : live w now (live w now ts ++ (now ∷ [])) ≡ live w now ts ++ live w now (now ∷ []) =
      select-append (is_live w now) (live w now ts) (now ∷ [])
      ∙ ap (λ xs. xs ++ live w now (now ∷ [])) (live-live w now now ts (omega arith)) in
    let kept : live w now (timestamps_of k (set k (live w now ts ++ (now ∷ [])) l.store))
        ≡ live w now ts ++ live w now (now ∷ []) =
      ap (live w now) (timestamps_of-set k (live w now ts ++ (now ∷ [])) l.store) ∙ stored in
    let room : length (live w now ts) < n = ltb→lt _ _ (rw (a, b) at e) in
    let one = length-select (is_live w now) (now ∷ []) in
    (
      a,
      b,
      set-Distinct k _ l.store d,
      both
          ∙ sym (
              subst
                (λ v.
                  live w now (timestamps_of k (set k (live v now ts ++ (now ∷ [])) l.store))
                  ≡ live w now ts ++ live w now (now ∷ []))
                (sym a) kept),
      few_of (length (live w now (log ++ (now ∷ [])))) (length (live w now ts))
          (length (live w now (now ∷ []))) n
          (ap length both ∙ length-append (live w now ts) (live w now (now ∷ []))) room one,
    )

-- A request of another key that is let through.
uncounted :
    (w n k now key : ℕ) (l : RateLimiter) (log : List ℕ)
    → key == k ≡ false
    → IsKept w n k now l log
    → IsKept w n k now (consume false now key l) log
unfolding consume
uncounted w n k now key l log other (a, b, d, same, few) = (
  a,
  b,
  set-Distinct key _ l.store d,
  same ∙ ap (live w now) (sym (timestamps_of-set_other k key _ l.store other)),
  few,
)

request_kept :
    (w n k now key : ℕ) (l : RateLimiter) (log : List ℕ)
    → IsKept w n k now l log
    → IsKept w n k now (request false now key l).1 (logged k now key l log)
request_kept w n k now key l log h = elim (Bool-cases (is_allowed now key l)) [
  | inr no_room ↦ elim (Bool-cases (key == k)) [
    | inl same ↦ rw (request_refused now key l no_room, same) h
    | inr other ↦ rw (request_refused now key l no_room, other) h
  ]
  | inl room ↦ elim (Bool-cases (key == k)) [
    | inl same ↦ counted_as w n k now key l log same room h
    | inr other ↦ rw (request_allowed now key l room, other) (uncounted w n k now key l log other h)
  ]
]
  where
    counted_as :
        (w n k now key : ℕ) (l : RateLimiter) (log : List ℕ)
        → key == k ≡ true
        → is_allowed now key l ≡ true
        → IsKept w n k now l log
        → IsKept w n k now (request false now key l).1 (logged k now key l log)
    counted_as w n k now key l log same room h =
        let e : k ≡ key = ground arith in
        let base = counted w n key now l log room (subst (λ i. IsKept w n i now l log) e h) in
        rw (request_allowed now key l room, same)
          (subst (λ i. IsKept w n i now (consume false now key l) (log ++ (now ∷ []))) (sym e) base)

run_kept :
    {w n k now : ℕ} {l : RateLimiter} {log : List ℕ} → Run w n k now l log → IsKept w n k now l log
run_kept started = (refl, refl, tt, refl, omega arith)
run_kept {w} {n} {k} (requested {now} {l} {log} now' key h r) =
    request_kept w n k now' key l log (later w n k now now' l log h (run_kept r))
run_kept {w} {n} {k} (cleaned {now} {l} {log} now' h r) =
    cleanup_kept w n k now' l log (later w n k now now' l log h (run_kept r))

-- Unless the limits are disabled by RATE_LIMIT_DISABLED: whatever requests of whatever keys and
-- whatever cleanups come, while the clock does not run backwards, at no time have more requests of a
-- key been let through in the window up to then than the limit.
pub requests_limited :
    (w n k now : ℕ) (l : RateLimiter) (log : List ℕ)
    → Run w n k now l log
    → length (live w now log) ≤ n
requests_limited w n k now l log r = let (a, b, d, same, few) = run_kept r in few
