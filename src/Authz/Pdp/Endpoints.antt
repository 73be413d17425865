-- ===== src/Authz/Pdp/Endpoints.antt =====
-- The endpoints at which other services ask for a decision: internal/api/rest/internal_authz.go, and
-- internal/api/grpc/authcheck/server.go, which answers over gRPC. `parse` is `uuid.Parse`; a body that is
-- no JSON is `none`.
use auth.Base.{
  Effect, List, Option, String, Uuid, fail, found_or, ok, refuse_if, return, some, str_eq, ◌>>=◌,
  ◌>>◌,
}
use auth.Authz.Domain as Domain
use auth.Authz.Domain.{UserRole, err}
use auth.Authz.Decision.{AuthorizationResult}
use auth.Authz.Checker.{Checker, check_data_access, check_permission}
use auth.Authz.Pdp.{RolePerms, resolve_auth_context}

pub record PdpCheckRequest : Type 0 where
  pub user_id : String
  pub org_id : String
  pub branch_id : String
  pub permission : String
  pub resource_type : String
  pub resource_id : String

-- The answers that are no decision.
pub data PdpRefusal : Type 0 where
  invalid_request invalid_user_id invalid_org_id invalid_branch_id invalid_resource_id : PdpRefusal
  permission_required internal_error : PdpRefusal

pub record Identity : Type 0 where
  pub user : Uuid
  pub org : Uuid
  pub branch : Uuid

-- A handler keeps no state.
abbrev pub Ask : Type 0 → Type 0
Ask A = Effect PdpRefusal (Unit {0}) A

abbrev pub or_internal : {A : Type 0} → Domain.Result A → Ask A
or_internal (Domain.ok a) s = (ok a, s)
or_internal (Domain.err e) s = (fail internal_error, s)

module _ (parse : String → Option Uuid) where
  unfoldable pub parse_identity : PdpCheckRequest → Ask Identity
  parse_identity req = do
    user ← found_or invalid_user_id (parse req.user_id)
    org ← found_or invalid_org_id (parse req.org_id)
    branch ← found_or invalid_branch_id (parse req.branch_id)
    refuse_if (str_eq req.permission "") permission_required
    return (record { user = user; org = org; branch = branch })

  module _ (ur : Uuid → Domain.Result (List (Option UserRole))) (rp : RolePerms) where
    unfoldable pub handle_check : Option PdpCheckRequest → Ask AuthorizationResult
    unfolding parse_identity
    handle_check body = do
      req ← found_or invalid_request body
      id ← parse_identity req
      ctx ← or_internal (resolve_auth_context ur rp id.user id.org id.branch)
      return (check_permission (some ctx) req.permission)

    unfoldable pub handle_check_data_access :
        Checker → Option PdpCheckRequest → Ask AuthorizationResult
    unfolding parse_identity
    handle_check_data_access c body = do
      req ← found_or invalid_request body
      id ← parse_identity req
      resource ← found_or invalid_resource_id (parse req.resource_id)
      ctx ← or_internal (resolve_auth_context ur rp id.user id.org id.branch)
      or_internal (check_data_access c (some ctx) req.permission)

    -- `CheckPermission` of the gRPC server.
    unfoldable pub check_permission_rpc : PdpCheckRequest → Ask AuthorizationResult
    unfolding parse_identity
    check_permission_rpc req = do
      id ← parse_identity req
      ctx ← or_internal (resolve_auth_context ur rp id.user id.org id.branch)
      return (check_permission (some ctx) req.permission)
