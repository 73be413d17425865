-- ===== src/Authz/Pdp/Answers.antt =====
-- What the endpoints of internal/api/rest/internal_authz.go and internal/api/grpc/authcheck/server.go
-- decide.
use auth.Base.{
  Bool, List, Option, Result, String, Uuid, any, ap, fail, false, ok, refl, some, str_eq, ◌&&◌,
  ◌||◌, ◌∙◌, ◌≡◌,
}
use auth.Authz.Domain as Domain
use auth.Authz.Domain.{AuthContext, UserRole, err}
use auth.Authz.Decision.{AuthorizationResult}
use auth.Authz.Checker.{Checker, check_data_access, check_permission}
use auth.Authz.Checker.Layers.{allows, check_permission-allowed}
use auth.Authz.Pdp.{RolePerms, new_time_gated_checker, resolve_auth_context}
use auth.Authz.Pdp.Effective.{grants}
use auth.Authz.Pdp.Decides.{
  gate_open, has_permission-elem, pdp_decision, resolve_auth_context-grants,
}
use auth.Authz.Pdp.Endpoints.{
  PdpCheckRequest, PdpRefusal, check_permission_rpc, handle_check, handle_check_data_access,
  or_internal, parse_identity,
}

-- The answer allows.
abbrev pub is_allowed : Result PdpRefusal AuthorizationResult × Unit {0} → Bool
is_allowed (ok r, s) = r.allowed
is_allowed (fail x, s) = false

or_internal-allows :
    (o : Domain.Result AuthorizationResult) → is_allowed (or_internal o tt) ≡ allows o
or_internal-allows (Domain.ok r) = refl
or_internal-allows (Domain.err e) = refl

module _ (parse : String → Option Uuid) (ur : Uuid → Domain.Result (List (Option UserRole)))
    (rp : RolePerms) (req : PdpCheckRequest) {user org branch : Uuid} {ctx : AuthContext}
    (of_user : parse req.user_id ≡ some user) (of_org : parse req.org_id ≡ some org)
    (of_branch : parse req.branch_id ≡ some branch) (named : str_eq req.permission "" ≡ false)
    (resolved : resolve_auth_context ur rp user org branch ≡ Domain.ok ctx) where
  handle_check_lem :
      handle_check parse ur rp (some req) tt ≡ (ok (check_permission (some ctx) req.permission), tt)
  unfolding handle_check parse_identity
  handle_check_lem = rw (of_user, of_org, of_branch, named, resolved) refl

  check_permission_rpc_lem :
      check_permission_rpc parse ur rp req tt
      ≡ (ok (check_permission (some ctx) req.permission), tt)
  unfolding check_permission_rpc parse_identity
  check_permission_rpc_lem = rw (of_user, of_org, of_branch, named, resolved) refl

  handle_check_data_access_lem :
      (c : Checker) {resource : Uuid}
      → parse req.resource_id ≡ some resource
      → handle_check_data_access parse ur rp c (some req) tt
        ≡ or_internal (check_data_access c (some ctx) req.permission) tt
  unfolding handle_check_data_access parse_identity
  handle_check_data_access_lem c of_resource =
      rw (of_user, of_org, of_branch, named, of_resource, resolved) refl

  -- For a request whose ids parse, which names a permission, and whose user's roles resolve: the check of a
  -- permission allows, over REST as over gRPC, exactly if a role grants the permission or "*", at whatever
  -- hour; the check of data access allows exactly if, besides, the time gate lets the permission pass.
  pub handle_check-decides :
      (uuid_string : Uuid → String) (gate : Option (AuthContext → AuthorizationResult))
      (gated : List String) {resource : Uuid} {roles : List (Option UserRole)}
      → parse req.resource_id ≡ some resource
      → ur user ≡ Domain.ok roles
      → let granted =
          any (grants rp org branch req.permission) roles || any (grants rp org branch "*") roles in
        (is_allowed (handle_check parse ur rp (some req) tt) ≡ granted)
        × (is_allowed (check_permission_rpc parse ur rp req tt) ≡ granted)
        × (is_allowed (
              handle_check_data_access parse ur rp
                (new_time_gated_checker uuid_string gate gated)
                (some req)
                tt)
            ≡ (granted && gate_open gate gated ctx req.permission))
  handle_check-decides uuid_string gate gated of_resource listed =
      let (_, codes_of) = resolve_auth_context-grants ur rp user org branch listed resolved in
      let granted =
        check_permission-allowed ctx req.permission
        ∙ has_permission-elem ctx req.permission
        ∙ rw (codes_of req.permission, codes_of "*") refl in
      let decided =
        pdp_decision uuid_string gate gated ur rp user org branch req.permission listed resolved in
      (
        ap is_allowed handle_check_lem ∙ granted,
        ap is_allowed check_permission_rpc_lem ∙ granted,
        ap is_allowed (
              handle_check_data_access_lem (new_time_gated_checker uuid_string gate gated)
                of_resource)
            ∙ or_internal-allows (
                check_data_access (new_time_gated_checker uuid_string gate gated) (some ctx)
                  req.permission)
            ∙ decided,
      )
