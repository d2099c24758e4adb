-- ===== src/Scenarios/Guards.antt =====
-- The rate limiter and the permission matrix at work.
use comission_mgmt.Prelude.{◌≡◌, ◌≤◌, ◌↔◌, true, [], ◌∷◌, ◌++◌, length, arith}
use comission_mgmt.Core.Explanation.Text.{codes}
use comission_mgmt.Store.Monad.{manager, finance_admin}
use comission_mgmt.Security.RateLimiter.{RateLimiter, live, check, consume, request}
use comission_mgmt.Security.Limit.{Run, started, requested, requests_limited}
use comission_mgmt.Security.Permissions.{post}
use comission_mgmt.Security.Access.{is_permitted, commission_runs_finance_admin_only}

-- Three requests of one key against a limit of two a second: the third one is refused.
unfoldable three_requests : (l : RateLimiter) × Run 1_000 2 7 30 l (10 ∷ 20 ∷ [])
unfolding request check consume
three_requests = (
  _,
  requested 30 7 (omega arith)
      (requested 20 7 (omega arith) (requested 10 7 (omega arith) started)),
)

requests_limited_example : length (live 1_000 30 (10 ∷ 20 ∷ [])) ≤ 2
requests_limited_example =
    requests_limited 1_000 2 7 30 three_requests.0 (10 ∷ 20 ∷ []) three_requests.1

commission_runs_finance_admin_only_example :
    (is_permitted manager post (codes "/commission-runs" ++ codes "/12/finalize") ≡ true)
    ↔ (manager ≡ finance_admin)
commission_runs_finance_admin_only_example =
    commission_runs_finance_admin_only manager (codes "/12/finalize")
