-- ===== src/Security/Matrix.antt =====
-- `ROLE_PERMISSIONS` of packages/core/auth.ts.
use comission_mgmt.Prelude.{none, some, List, [], ◌∷◌}
use comission_mgmt.Store.Monad.{Role}
use comission_mgmt.Security.Permissions.{get, post, patch, delete, Permission, permit}

abbrev pub finance_admin_permissions : List Permission
finance_admin_permissions = permit none "/" ∷ []

abbrev pub producer_permissions : List Permission
producer_permissions =
    permit (some get) "/placements"
    ∷ permit (some post) "/placements"
    ∷ permit (some patch) "/placements"
    ∷ permit (some get) "/contributors"
    ∷ permit (some post) "/contributors"
    ∷ permit (some get) "/commission-records"
    ∷ permit (some get) "/commission-plans"
    ∷ permit (some get) "/plan-assignments"
    ∷ permit (some get) "/plans"
    ∷ permit (some post) "/plans"
    ∷ permit (some get) "/invoices"
    ∷ permit (some get) "/me"
    ∷ permit (some post) "/me/disputes"
    ∷ permit (some post) "/disputes"
    ∷ permit (some get) "/disputes"
    ∷ permit (some get) "/producer/simulations"
    ∷ permit (some post) "/producer/simulations"
    ∷ permit (some post) "/auth/logout"
    ∷ permit (some get) "/healthz"
    ∷ permit (some get) "/readyz"
    ∷ []

abbrev pub manager_permissions : List Permission
manager_permissions =
    permit (some get) "/placements"
    ∷ permit (some post) "/placements"
    ∷ permit (some patch) "/placements"
    ∷ permit (some get) "/contributors"
    ∷ permit (some post) "/contributors"
    ∷ permit (some patch) "/contributors"
    ∷ permit (some delete) "/contributors"
    ∷ permit (some get) "/commission-records"
    ∷ permit (some patch) "/commission-records"
    ∷ permit (some get) "/commission-plans"
    ∷ permit (some get) "/plan-assignments"
    ∷ permit (some get) "/invoices"
    ∷ permit (some get) "/exceptions"
    ∷ permit (some patch) "/exceptions"
    ∷ permit (some get) "/me"
    ∷ permit (some get) "/me/team"
    ∷ permit (some post) "/disputes"
    ∷ permit (some get) "/disputes"
    ∷ permit (some post) "/auth/logout"
    ∷ permit (some get) "/healthz"
    ∷ permit (some get) "/readyz"
    ∷ []

abbrev pub executive_permissions : List Permission
executive_permissions =
    permit (some get) "/" ∷ permit (some post) "/auth/logout" ∷ permit (some post) "/disputes" ∷ []

abbrev pub hr_permissions : List Permission
hr_permissions =
    permit (some get) "/commission-plans"
    ∷ permit (some post) "/commission-plans"
    ∷ permit (some patch) "/commission-plans"
    ∷ permit (some get) "/plan-versions"
    ∷ permit (some post) "/plan-versions"
    ∷ permit (some get) "/plan-assignments"
    ∷ permit (some post) "/plan-assignments"
    ∷ permit (some delete) "/plan-assignments"
    ∷ permit (some get) "/plans"
    ∷ permit (some post) "/plans"
    ∷ permit (some patch) "/plans"
    ∷ permit (some delete) "/plans"
    ∷ permit (some get) "/placements"
    ∷ permit (some get) "/contributors"
    ∷ permit (some get) "/commission-records"
    ∷ permit (some get) "/draw-balances"
    ∷ permit (some get) "/producers"
    ∷ permit (some get) "/me"
    ∷ permit (some post) "/auth/logout"
    ∷ permit (some get) "/healthz"
    ∷ permit (some get) "/readyz"
    ∷ []

abbrev pub external_partner_permissions : List Permission
external_partner_permissions =
    permit (some get) "/placements"
    ∷ permit (some get) "/partner/placements"
    ∷ permit (some get) "/invoices"
    ∷ permit (some get) "/me"
    ∷ permit (some post) "/auth/logout"
    ∷ permit (some get) "/healthz"
    ∷ permit (some get) "/readyz"
    ∷ []

abbrev pub role_permissions : Role → List Permission
role_permissions Role.finance_admin = finance_admin_permissions
role_permissions Role.producer = producer_permissions
role_permissions Role.manager = manager_permissions
role_permissions Role.executive = executive_permissions
role_permissions Role.hr = hr_permissions
role_permissions Role.external_partner = external_partner_permissions
