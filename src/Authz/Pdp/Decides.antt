-- ===== src/Authz/Pdp/Decides.antt =====
-- The decision of internal/service/authz/pdp.go from a user's roles to the answer.
use auth.Base.{
  Bool, List, Option, String, Uuid, [], any, arith, elem, inl, inr, none, not, refl, some, str_eq,
  true, ◌&&◌, ◌||◌, ◌∙◌, ◌∷◌, ◌≡◌,
}
use auth.Authz.Domain.{AuthContext, Result, Result-cases, UserRole, ok}
use auth.Authz.Decision.{AuthorizationResult}
use auth.Authz.Checker.{has_permission, check_data_access}
use auth.Authz.Checker.Layers.{allows, check_data_access-allows}
use auth.Authz.Pdp.{RolePerms, collect_perms, new_time_gated_checker, resolve_auth_context}
use auth.Authz.Abac.{collect, conclude, evaluate}
use auth.Authz.Pdp.Effective.{Distinct, collect_perms-Distinct, elem-collect_perms, grants}

-- The permissions that `ResolveAuthContext` returns are, each once, exactly the non-empty codes that a role
-- of the user grants: an active role of the org, org-wide or of this branch.
pub resolve_auth_context-grants :
    (ur : Uuid → Result (List (Option UserRole))) (rp : RolePerms) (user org branch : Uuid)
    {roles : List (Option UserRole)} {ctx : AuthContext}
    → ur user ≡ ok roles
    → resolve_auth_context ur rp user org branch ≡ ok ctx
    → Distinct ctx.permissions
      × ((code : String) → elem code ctx.permissions ≡ any (grants rp org branch code) roles)
unfolding resolve_auth_context
resolve_auth_context-grants ur rp user org branch {roles} {ctx} listed resolved =
    elim (Result-cases (collect_perms rp org branch [] roles)) [
      | inl (perms, e) ↦
          let same : ctx.permissions ≡ perms = ground arith in
          rw same (
            collect_perms-Distinct rp org branch roles [] tt e,
            λ code. elem-collect_perms rp org branch code roles [] e,
          )
      | inr (x, e) ↦ absurd (ground arith)
    ]

any-or {ℓ} :
    {A : Type ℓ} (p q : A → Bool) (xs : List A) → any (λ x. p x || q x) xs ≡ (any p xs || any q xs)
any-or p q [] = refl
any-or p q (x ∷ xs) = ground (arith, any-or p q xs)

pub has_permission-elem :
    (ctx : AuthContext) (permission : String)
    → has_permission ctx permission ≡ (elem permission ctx.permissions || elem "*" ctx.permissions)
unfolding has_permission
has_permission-elem ctx permission =
    any-or (λ p. str_eq p permission) (λ p. str_eq p "*") ctx.permissions

no_policies :
    (uuid_string : Uuid → String) (ctx : AuthContext) (permission : String)
    → allows (evaluate uuid_string (ok []) ctx permission) ≡ true
unfolding evaluate collect conclude
no_policies uuid_string ctx permission = refl

-- The gate is off, does not cover the permission, or allows.
abbrev pub gate_open :
    Option (AuthContext → AuthorizationResult) → List String → AuthContext → String → Bool
gate_open none gated ctx permission = true
gate_open (some e) gated ctx permission = not (elem permission gated) || (e ctx).allowed

-- End to end: the decision point allows a resolved user exactly when a role grants the permission or "*",
-- and the time gate lets it pass.
pub pdp_decision :
    (uuid_string : Uuid → String) (gate : Option (AuthContext → AuthorizationResult))
    (gated : List String) (ur : Uuid → Result (List (Option UserRole))) (rp : RolePerms)
    (user org branch : Uuid) (permission : String) {roles : List (Option UserRole)}
    {ctx : AuthContext}
    → ur user ≡ ok roles
    → resolve_auth_context ur rp user org branch ≡ ok ctx
    → allows
        (check_data_access (new_time_gated_checker uuid_string gate gated) (some ctx) permission)
      ≡ ((any (grants rp org branch permission) roles || any (grants rp org branch "*") roles)
          && gate_open gate gated ctx permission)
unfolding new_time_gated_checker has_permission
pdp_decision uuid_string gate gated ur rp user org branch permission {roles} {ctx} listed resolved =
    let (_, codes_of) = resolve_auth_context-grants ur rp user org branch listed resolved in
    check_data_access-allows (new_time_gated_checker uuid_string gate gated) ctx permission
    ∙ rw (has_permission-elem ctx permission, codes_of permission, codes_of "*")
        (ground (arith, no_policies uuid_string ctx permission))
