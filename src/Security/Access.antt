-- ===== src/Security/Access.antt =====
-- `isPermitted`, and what the matrix grants.
use comission_mgmt.Prelude.{◌≡◌, ◌↔◌, refl, Bool, true, ◌++◌, any, arith}
use comission_mgmt.Core.Explanation.Text.{Text, codes}
use comission_mgmt.Store.Monad.{Role, finance_admin}
use comission_mgmt.Security.Permissions.{HttpMethod, post, permits}
use comission_mgmt.Security.Matrix.{role_permissions}

-- `isPermitted`; `ROLE_PERMISSIONS` has every role.
unfoldable pub is_permitted : Role → HttpMethod → Text → Bool
is_permitted role method path = any (permits method path) (role_permissions role)

-- Only a finance admin may post to a path that begins with `/commission-runs`, and to every such
-- path.
pub commission_runs_finance_admin_only :
    (role : Role) (rest : Text)
    → (is_permitted role post (codes "/commission-runs" ++ rest) ≡ true) ↔ (role ≡ finance_admin)
unfolding is_permitted
commission_runs_finance_admin_only finance_admin rest = (λ h. refl, λ h. refl)
commission_runs_finance_admin_only role rest = (λ h. absurd (cc), λ h. absurd (ground arith))
