-- ===== src/Authz/Checker.antt =====
-- internal/service/authz/checker.go: the permission checker and the four-layer authorization. The
-- enforcer and the role store that it holds are never called. What it does call is a parameter:
-- the time gate, as `TimeWindowEvaluator.Evaluate`, and the ABAC evaluator.
pub mod Layers
use auth.Base.{
  Bool, List, Option, String, Uuid, [], any, elem, false, if◌then◌else◌, length, map, none, some,
  str_eq, true, ◌&&◌, ◌*◌, ◌==◌, ◌||◌, ◌∷◌,
}
use auth.Authz.Domain.{
  AuthContext, Result, branch_scope_all, branch_scope_assigned, branch_scope_own, ok, ◌>>=◌, ◌>>◌,
}
use auth.Authz.Decision.{
  AuthorizationResult, all_layers_passed, empty_auth_context, permission_denied, permission_granted,
  scope_all, scope_assigned, scope_not_assigned, scope_own, scope_unknown, verdict,
}

-- `timeWindow` is nil where `gate` is `none`; `timeGated` is the list of the map's true keys.
pub record Checker : Type 0 where
  pub gate : Option (AuthContext → AuthorizationResult)
  pub time_gated : List String
  pub abac : AuthContext → String → Result AuthorizationResult

-- `isTimeGated`, with the evaluator that the caller goes on to use.
unfoldable pub active_gate : Checker → String → Option (AuthContext → AuthorizationResult)
active_gate c permission = if elem permission c.time_gated then c.gate else none

-- `hasPermission`
unfoldable pub has_permission : AuthContext → String → Bool
has_permission ctx permission = any (λ p. str_eq p permission || str_eq p "*") ctx.permissions

-- `len(authCtx.Roles) == 0 && len(authCtx.Permissions) == 0`, then the permissions of the store, of which
-- `getUserPermissionsFromStore` returns none.
unfoldable pub load_permissions : AuthContext → AuthContext
load_permissions ctx =
    if length ctx.roles == 0 && length ctx.permissions == 0
    then record ctx { permissions = [] }
    else ctx

-- A nil context is `none`.
unfoldable pub check_permission : Option AuthContext → String → AuthorizationResult
unfolding load_permissions has_permission verdict
check_permission none permission = verdict false empty_auth_context
check_permission (some ctx) permission =
    if has_permission (load_permissions ctx) permission
    then verdict true permission_granted
    else verdict false (permission_denied permission)

-- `needsABACCheck`
unfoldable pub needs_abac_check : String → Bool
needs_abac_check permission =
    any (λ s. str_eq s permission)
      ("transaction:read" ∷ "account:read" ∷ "customer:read" ∷ "report:generate" ∷ [])

-- The ABAC layer, or the result so far.
abac_layer : Checker → AuthContext → String → AuthorizationResult → Result AuthorizationResult
abac_layer c ctx permission result =
    if needs_abac_check permission then c.abac ctx permission else ok result

time_layer :
    Option (AuthContext → AuthorizationResult)
    → AuthContext
    → Result AuthorizationResult
    → Result AuthorizationResult
time_layer none ctx next = next
time_layer (some evaluate) ctx next = if (evaluate ctx).allowed then next else ok (evaluate ctx)

-- `CheckDataAccess`
unfoldable pub check_data_access :
    Checker → Option AuthContext → String → Result AuthorizationResult
unfolding time_layer abac_layer active_gate
check_data_access c none permission = ok (check_permission none permission)
check_data_access c (some ctx) permission =
    let result = check_permission (some ctx) permission in
    if result.allowed
    then time_layer (active_gate c permission) ctx (abac_layer c ctx permission result)
    else ok result

-- `CheckBranchScope`
unfoldable pub check_branch_scope : AuthContext → Uuid → AuthorizationResult
unfolding verdict
check_branch_scope ctx target =
    if str_eq ctx.branch_scope branch_scope_all
    then verdict true scope_all
    else if str_eq ctx.branch_scope branch_scope_assigned
    then (if ctx.branch_id == target
        then verdict true scope_assigned
        else verdict false scope_not_assigned)
    else if str_eq ctx.branch_scope branch_scope_own
    then verdict (ctx.branch_id == target) scope_own
    else verdict false scope_unknown

-- `hasFieldPermission`
unfoldable pub has_field_permission : AuthContext → String → String → Bool
unfolding has_permission
has_field_permission ctx permission field =
    if length ctx.field_masks == 0
    then true
    else if any (λ m. str_eq m.field field) ctx.field_masks
    then false
    else has_permission ctx permission

-- `CheckFieldAccess`: the pairs written to the map, in order.
unfoldable pub check_field_access : AuthContext → String → List String → List (String × Bool)
unfolding has_field_permission
check_field_access ctx permission fields =
    map (λ f. (f, has_field_permission ctx permission f)) fields

pub record AuthParams : Type 0 where
  pub page_permission : String
  pub data_permission : String
  pub target_branch_id : Uuid
  pub skip_page_check : Bool

branch_layer : AuthContext → Uuid → AuthorizationResult → AuthorizationResult
branch_layer ctx target passed =
    let branch = check_branch_scope ctx target in
    if branch.allowed
    then record { allowed = true; reason = all_layers_passed; field_masks = passed.field_masks }
    else branch

data_layer : Checker → Option AuthContext → AuthParams → Result AuthorizationResult
unfolding branch_layer
data_layer c none params = check_data_access c none params.data_permission
data_layer c (some ctx) params = do
  passed ← check_data_access c (some ctx) params.data_permission
  ok (if passed.allowed then branch_layer ctx params.target_branch_id passed else passed)

-- `FourLayerAuth.Authorize`
unfoldable pub authorize : Checker → Option AuthContext → AuthParams → Result AuthorizationResult
unfolding data_layer
authorize c ctx params =
    let page = check_permission ctx params.page_permission in
    if params.skip_page_check || page.allowed then data_layer c ctx params else ok page
