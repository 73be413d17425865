-- ===== src/Authz/Pdp.antt =====
-- internal/service/authz/pdp.go: the caller's effective permissions. The two getters are interfaces
-- and so parameters; a nil pointer in their lists is `none`.
pub mod Effective
pub mod Decides
pub mod Endpoints
pub mod Answers
use auth.Base.{
  Bool, List, Option, String, Uuid, [], elem, if◌then◌else◌, none, some, str_eq, true, ◌&&◌, ◌++◌,
  ◌==◌, ◌||◌, ◌∷◌,
}
use auth.Authz.Decision.{AuthorizationResult}
use auth.Authz.Checker.{Checker}
use auth.Authz.Abac.{evaluate}
use auth.Authz.Domain.{
  AuthContext, Permission, Result, UserRole, branch_scope_assigned, is_active, ok, ◌>>=◌, ◌>>◌,
}

abbrev pub RolePerms : Type 0
RolePerms = Uuid → Result (List (Option Permission))

-- `urole.BranchID != nil && *urole.BranchID != branchID`, negated.
unfoldable pub covers_branch : Uuid → Option Uuid → Bool
covers_branch branch none = true
covers_branch branch (some b) = b == branch

-- The role is not skipped.
unfoldable pub applies : Uuid → Uuid → UserRole → Bool
unfolding is_active covers_branch
applies org branch ur = ur.org_id == org && is_active ur && covers_branch branch ur.branch_id

-- `seen[p.Code] = true; perms = append(perms, p.Code)`: the keys of `seen` are the texts of `perms`.
unfoldable pub add_code : List String → String → List String
add_code perms code = if str_eq code "" || elem code perms then perms else perms ++ code ∷ []

-- The inner loop, over the permissions of one role.
unfoldable pub add_codes : List String → List (Option Permission) → List String
unfolding add_code
add_codes perms [] = perms
add_codes perms (none ∷ ps) = add_codes perms ps
add_codes perms (some p ∷ ps) = add_codes (add_code perms p.code) ps

-- The outer loop, over the user's roles.
unfoldable pub collect_perms :
    RolePerms → Uuid → Uuid → List String → List (Option UserRole) → Result (List String)
collect_perms rp org branch perms [] = ok perms
collect_perms rp org branch perms (none ∷ rest) = collect_perms rp org branch perms rest
collect_perms rp org branch perms (some ur ∷ rest) =
    let skipped = collect_perms rp org branch perms rest in
    let taken = rp ur.role_id >>= λ ps. collect_perms rp org branch (add_codes perms ps) rest in
    if applies org branch ur then taken else skipped

-- `ResolveAuthContext`
unfoldable pub resolve_auth_context :
    (Uuid → Result (List (Option UserRole))) → RolePerms → Uuid → Uuid → Uuid → Result AuthContext
resolve_auth_context ur rp user org branch = do
  roles ← ur user
  perms ← collect_perms rp org branch [] roles
  ok (record {
    user_id = user;
    org_id = org;
    branch_id = branch;
    roles = [];
    permissions = perms;
    branch_scope = branch_scope_assigned;
    field_masks = [];
    attributes = none;
  })

-- `NewTimeGatedChecker`: the policy store has no policies.
unfoldable pub new_time_gated_checker :
    (Uuid → String) → Option (AuthContext → AuthorizationResult) → List String → Checker
new_time_gated_checker uuid_string gate gated = record {
  gate = gate;
  time_gated = gated;
  abac = λ ctx permission. evaluate uuid_string (ok []) ctx permission;
}
