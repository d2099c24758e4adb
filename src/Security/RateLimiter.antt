-- ===== src/Security/RateLimiter.antt =====
-- `RateLimiter` of apps/server/src/security/rate-limiter.ts. The map is an association list in the
-- order of insertion, a key is a number, and the clock is an argument.
use comission_mgmt.Prelude.{
  ℕ, ◌+◌, ◌-◌, ◌/◌, Bool, true, false, List, [], ◌∷◌, ◌++◌, ◌==◌, ltb, if◌then◌else◌, length,
  select,
}

-- `RateLimitResult`.
pub record RateLimitResult : Type 0 where
  pub allowed : Bool
  pub limit : ℕ
  pub remaining : ℕ
  pub reset_at : ℕ

pub record RateLimiter : Type 0 where
  pub window_ms : ℕ
  pub max_requests : ℕ
  pub store : List (ℕ × List ℕ)

-- `store.get(key) ?? []`.
abbrev pub timestamps_of : ℕ → List (ℕ × List ℕ) → List ℕ
timestamps_of key [] = []
timestamps_of key (e ∷ es) = if e.0 == key then e.1 else timestamps_of key es

-- `store.set(key, timestamps)`.
abbrev pub set : ℕ → List ℕ → List (ℕ × List ℕ) → List (ℕ × List ℕ)
set key ts [] = (key, ts) ∷ []
set key ts (e ∷ es) = if e.0 == key then (e.0, ts) ∷ es else e ∷ set key ts es

-- `ts > now - windowMs`.
abbrev pub is_live : ℕ → ℕ → ℕ → Bool
is_live window now ts = ltb now (ts + window)

abbrev pub live : ℕ → ℕ → List ℕ → List ℕ
live window now = select (is_live window now)

-- `timestamps[0] ?? now`.
abbrev pub oldest_or : List ℕ → ℕ → ℕ
oldest_or [] now = now
oldest_or (t ∷ ts) now = t

-- `check`; `disabled` is the environment variable RATE_LIMIT_DISABLED.
unfoldable pub check : Bool → ℕ → ℕ → RateLimiter → RateLimitResult
check true now key l = record {
  allowed = true;
  limit = l.max_requests;
  remaining = l.max_requests;
  reset_at = 0;
}
check false now key l =
    let timestamps = live l.window_ms now (timestamps_of key l.store) in
    let allowed = ltb (length timestamps) l.max_requests in
    record {
      allowed = allowed;
      limit = l.max_requests;
      remaining = l.max_requests - length timestamps - (if allowed then 1 else 0);
      reset_at = (oldest_or timestamps now + l.window_ms + 999) / 1_000;
    }

-- `consume`.
unfoldable pub consume : Bool → ℕ → ℕ → RateLimiter → RateLimiter
consume true now key l = l
consume false now key l = record l {
  store = set key (live l.window_ms now (timestamps_of key l.store) ++ (now ∷ [])) l.store;
}

abbrev pub is_empty : List ℕ → Bool
is_empty [] = true
is_empty (t ∷ ts) = false

-- The loop of `cleanup`.
abbrev pub clean : ℕ → ℕ → List (ℕ × List ℕ) → List (ℕ × List ℕ)
clean window now [] = []
clean window now (e ∷ es) =
    let rest = clean window now es in
    if is_empty (live window now e.1) then rest else (e.0, live window now e.1) ∷ rest

-- `cleanup`.
unfoldable pub cleanup : ℕ → RateLimiter → RateLimiter
cleanup now l = record l { store = clean l.window_ms now l.store }

-- `reset`.
unfoldable pub reset : RateLimiter → RateLimiter
reset l = record l { store = [] }

-- What the routes do: a request that `check` allows is counted by `consume`, another one is refused.
unfoldable pub request : Bool → ℕ → ℕ → RateLimiter → Bool × RateLimiter
unfolding check consume
request disabled now key l =
    let result = check disabled now key l in
    if result.allowed then (true, consume disabled now key l) else (false, l)
