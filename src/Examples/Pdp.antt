-- ===== src/Examples/Pdp.antt =====
-- A teller with an org-wide role, a role of another branch and a revoked one.
use auth.Base.{
  List, Option, String, str_eq, Uuid, [], any, false, if◌then◌else◌, none, refl, some, true, ◌&&◌,
  ◌==◌, ◌||◌, ◌∷◌, ◌≡◌,
}
use auth.Authz.Domain.{AuthContext, Permission, Result, UserRole, ok}
use auth.Authz.Decision.{AuthorizationResult, abac_allowed, fail_closed}
use auth.Authz.Checker.{Checker, AuthParams, has_permission, authorize}
use auth.Authz.Checker.Layers.{allows, in_scope, gate_allows, abac_allows, authorize-allows}
use auth.Authz.Pdp.{
  RolePerms, add_codes, applies, collect_perms, new_time_gated_checker, resolve_auth_context,
}
use auth.Authz.Pdp.Effective.{grants}
use auth.Authz.Pdp.Decides.{gate_open}
use auth.Authz.Pdp.Endpoints.{
  PdpCheckRequest, check_permission_rpc, handle_check, handle_check_data_access,
}
use auth.Authz.Pdp.Answers.{handle_check-decides, is_allowed}
use auth.Examples.Window.{caller}

abbrev org_wide : UserRole
org_wide = record {
  id = 1;
  user_id = 1;
  role_id = 10;
  branch_id = none;
  org_id = 1;
  granted_by = 9;
  granted_at = 0;
  revoked_at = none;
  revoked_by = none;
}

abbrev assigned_roles : List (Option UserRole)
assigned_roles =
    some org_wide
    ∷ none
    ∷ some (record org_wide { role_id = 11; branch_id = some 2 })
    ∷ some (record org_wide { role_id = 11; revoked_at = some 5 })
    ∷ some org_wide
    ∷ []

abbrev reading : Permission
reading = record {
  id = 1;
  code = "account:read";
  name = "read";
  description = "";
  resource_type = "account";
  created_at = 0;
}

abbrev role_perms : RolePerms
role_perms role =
    if role == 10
    then ok (some reading ∷ none ∷ [])
    else ok (some (record reading { code = "*" }) ∷ [])

abbrev user_roles : Uuid → Result (List (Option UserRole))
user_roles u = ok assigned_roles

resolved : resolve_auth_context user_roles role_perms 1 1 1 ≡ ok caller
unfolding resolve_auth_context collect_perms applies add_codes
resolved = refl

abbrev show : Uuid → String
show u = "1"

-- The hours gate covers the permission and is closed.
abbrev closed_gate : Option (AuthContext → AuthorizationResult)
closed_gate = some (λ ctx. record { allowed = false; reason = fail_closed; field_masks = [] })

abbrev parse : String → Option Uuid
parse id = if str_eq id "1" then some 1 else none

abbrev request : PdpCheckRequest
request = record {
  user_id = "1";
  org_id = "1";
  branch_id = "1";
  permission = "account:read";
  resource_type = "account";
  resource_id = "1";
}

handle_check-decides_example :
    (is_allowed (handle_check parse user_roles role_perms (some request) tt) ≡ (
      any (grants role_perms 1 1 "account:read") assigned_roles
      || any (grants role_perms 1 1 "*") assigned_roles))
    × (is_allowed (check_permission_rpc parse user_roles role_perms request tt) ≡ (
        any (grants role_perms 1 1 "account:read") assigned_roles
        || any (grants role_perms 1 1 "*") assigned_roles))
    × (is_allowed (
          handle_check_data_access parse user_roles role_perms
            (new_time_gated_checker show closed_gate ("account:read" ∷ []))
            (some request)
            tt)
        ≡ ((any (grants role_perms 1 1 "account:read") assigned_roles
              || any (grants role_perms 1 1 "*") assigned_roles)
            && gate_open closed_gate ("account:read" ∷ []) caller "account:read"))
handle_check-decides_example =
    handle_check-decides parse user_roles role_perms request refl refl refl refl resolved show
      closed_gate ("account:read" ∷ []) {roles = assigned_roles} refl refl

abbrev params : AuthParams
params = record {
  page_permission = "account:read";
  data_permission = "account:read";
  target_branch_id = 1;
  skip_page_check = false;
}

abbrev checker : Checker
checker = record {
  gate = none;
  time_gated = [];
  abac = λ ctx p. ok (record { allowed = true; reason = abac_allowed; field_masks = [] });
}

authorize-allows_example : allows (authorize checker (some caller) params) ≡ (
    (params.skip_page_check || has_permission caller params.page_permission)
    && has_permission caller params.data_permission
    && gate_allows checker caller params.data_permission
    && abac_allows checker caller params.data_permission
    && in_scope caller params.target_branch_id)
authorize-allows_example = authorize-allows checker caller params
