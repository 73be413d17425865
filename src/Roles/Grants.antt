-- ===== src/Roles/Grants.antt =====
-- The roles of users (`UserRoleRepository` of internal/store/postgres/repository.go).
use auth.Base.{
  Bool, List, Option, String, Uuid, [], any, fail, false, filter, if◌then◌else◌, map, none, ok,
  some, true, ℕ, ◌&&◌, ◌++◌, ◌==◌, ◌||◌, ◌∷◌,
}
use auth.Account.Data.{first_row, is_live}
use auth.Branch.Data.{duplicate_key, has_branch, no_reference}
use auth.Branch.Assignments.{has_user}
use auth.Authz.Domain.{Role, UserRole}
use auth.Roles.Tables.{Db, RoleTables, has_role}

-- The unique indexes: one row for a user, a role and a branch, and one for a user and a role without a
-- branch. They cover revoked rows.
abbrev pub same_branch : Option Uuid → Option Uuid → Bool
same_branch none none = true
same_branch (some a) (some b) = a == b
same_branch a b = false

abbrev pub same_grant : UserRole → UserRole → Bool
same_grant a b =
    a.id == b.id
    || a.user_id == b.user_id && a.role_id == b.role_id && same_branch a.branch_id b.branch_id

abbrev pub known_branch : Option Uuid → RoleTables → Bool
known_branch none t = true
known_branch (some b) t = has_branch b t.branches

unfoldable pub create_user_role : UserRole → Db (Unit {0})
create_user_role ur t =
    if any (same_grant ur) t.user_roles
    then (fail duplicate_key, t)
    else if has_user ur.user_id t.users
        && has_role ur.role_id t.roles
        && known_branch ur.branch_id t
    then (
      ok tt,
      record t {
        user_roles = t.user_roles ++ (record ur { revoked_at = none; revoked_by = none }) ∷ [];
      },
    )
    else (fail no_reference, t)

unfoldable pub get_user_role : Uuid → RoleTables → Option UserRole
get_user_role id t = first_row (λ g. g.id == id) t.user_roles

unfoldable pub get_by_user : Uuid → RoleTables → List UserRole
get_by_user user t = filter (λ g. g.user_id == user && is_live g.revoked_at) t.user_roles

unfoldable pub get_by_branch : Uuid → RoleTables → List UserRole
get_by_branch branch t =
    filter (λ g. same_branch g.branch_id (some branch) && is_live g.revoked_at) t.user_roles

abbrev pub revoke_where : ℕ → Uuid → (UserRole → Bool) → Db (Unit {0})
revoke_where now by p t = (
  ok tt,
  record t {
    user_roles =
        map
          (λ g.
            if p g && is_live g.revoked_at
            then record g { revoked_at = some now; revoked_by = some by }
            else g)
          t.user_roles;
  },
)

unfoldable pub revoke_user_role : ℕ → Uuid → Uuid → Uuid → Db (Unit {0})
revoke_user_role now id org by = revoke_where now by (λ g. g.id == id && g.org_id == org)

unfoldable pub revoke_by_user_and_role : ℕ → Uuid → Uuid → Uuid → Uuid → Db (Unit {0})
revoke_by_user_and_role now user role org by =
    revoke_where now by (λ g. g.user_id == user && g.role_id == role && g.org_id == org)

abbrev codes_of : List Role → Uuid → List String
codes_of roles id = map (λ r. r.code) (filter (λ r. r.id == id) roles)

abbrev codes_of_grants : List Role → List UserRole → List String
codes_of_grants roles [] = []
codes_of_grants roles (g ∷ gs) = codes_of roles g.role_id ++ codes_of_grants roles gs

unfoldable pub get_role_codes_by_user : Uuid → RoleTables → List String
get_role_codes_by_user user t =
    codes_of_grants t.roles (filter (λ g. g.user_id == user && is_live g.revoked_at) t.user_roles)
