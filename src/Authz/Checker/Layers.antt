-- ===== src/Authz/Checker/Layers.antt =====
-- `FourLayerAuth.Authorize` of internal/service/authz/checker.go: all layers, on every branch.
use auth.Base.{
  Bool, Bool-cases, List, String, Uuid, [], any, ap, arith, elem, eq_iff, false, inl, inr, length,
  none, not, refl, some, str_eq, sym, true, ℕ, ◌&&◌, ◌==◌, ◌||◌, ◌∷◌, ◌≡◌,
}
use auth.Authz.Domain.{AuthContext, Result, err, ok}
use auth.Authz.Decision.{AuthorizationResult}
use auth.Authz.Checker.{
  AuthParams, Checker, authorize, check_branch_scope, check_data_access, check_permission,
  has_permission, load_permissions, needs_abac_check,
}

-- The call returns a result, and the result allows.
abbrev pub allows : Result AuthorizationResult → Bool
allows (ok r) = r.allowed
allows (err e) = false

-- The scope is "all", or it is "assigned" or "own" and the branch is the caller's.
abbrev pub in_scope : AuthContext → Uuid → Bool
in_scope ctx target =
    str_eq ctx.branch_scope "all"
    || ((str_eq ctx.branch_scope "assigned" || str_eq ctx.branch_scope "own")
        && ctx.branch_id == target)

-- The time gate is off, does not cover the permission, or allows.
abbrev pub gate_allows : Checker → AuthContext → String → Bool
gate_allows c ctx permission = elim c.gate [
  | none ↦ true
  | some evaluate ↦ not (elem permission c.time_gated) || (evaluate ctx).allowed
]

-- The permission is not one of the sensitive ones, or the evaluator allows it.
abbrev pub abac_allows : Checker → AuthContext → String → Bool
abac_allows c ctx permission = not (needs_abac_check permission) || allows (c.abac ctx permission)

no_permissions : (n : ℕ) (ps : List String) → (n == 0 && length ps == 0) ≡ true → ps ≡ []
no_permissions n [] h = refl
no_permissions n (p ∷ ps) h = ground arith

load_permissions-permissions :
    (ctx : AuthContext) → (load_permissions ctx).permissions ≡ ctx.permissions
unfolding load_permissions
load_permissions-permissions ctx =
    elim (Bool-cases (length ctx.roles == 0 && length ctx.permissions == 0)) [
      | inl e ↦ rw e (sym (no_permissions (length ctx.roles) ctx.permissions e))
      | inr e ↦ rw e
    ]

has_permission-load_permissions :
    (ctx : AuthContext) (permission : String)
    → has_permission (load_permissions ctx) permission ≡ has_permission ctx permission
unfolding has_permission
has_permission-load_permissions ctx permission =
    ap (any (λ p. str_eq p permission || str_eq p "*")) (load_permissions-permissions ctx)

pub check_permission-allowed :
    (ctx : AuthContext) (permission : String)
    → (check_permission (some ctx) permission).allowed ≡ has_permission ctx permission
unfolding check_permission
check_permission-allowed ctx permission =
    ground (arith, has_permission-load_permissions ctx permission)

check_branch_scope-allowed :
    (ctx : AuthContext) (target : Uuid)
    → (check_branch_scope ctx target).allowed ≡ in_scope ctx target
unfolding check_branch_scope
check_branch_scope-allowed ctx target = ground (arith, eq_iff "all" "own")

pub check_data_access-allows :
    (c : Checker) (ctx : AuthContext) (permission : String)
    → allows (check_data_access c (some ctx) permission) ≡ (
        has_permission ctx permission
        && gate_allows c ctx permission
        && abac_allows c ctx permission)
unfolding check_data_access
check_data_access-allows c ctx permission = ground (arith, check_permission-allowed ctx permission)

-- Access is allowed exactly when every layer allows: the page permission or its being skipped, the data
-- permission, the time gate, the ABAC policies of a sensitive permission, and the branch scope.
pub authorize-allows :
    (c : Checker) (ctx : AuthContext) (params : AuthParams)
    → allows (authorize c (some ctx) params) ≡ (
        (params.skip_page_check || has_permission ctx params.page_permission)
        && has_permission ctx params.data_permission
        && gate_allows c ctx params.data_permission
        && abac_allows c ctx params.data_permission
        && in_scope ctx params.target_branch_id)
unfolding authorize
authorize-allows c ctx params = ground (
  arith,
  check_permission-allowed ctx params.page_permission,
  check_data_access-allows c ctx params.data_permission,
  check_branch_scope-allowed ctx params.target_branch_id,
)

-- A request with no context is never allowed, the page check skipped or not.
pub authorize-nil : (c : Checker) (params : AuthParams) → allows (authorize c none params) ≡ false
unfolding authorize check_data_access check_permission
authorize-nil c params = ground arith
