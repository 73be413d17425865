-- ===== src/Roles/Tables.antt =====
-- The tables of roles, permissions and grants (internal/store/postgres/repository.go), for a database that
-- answers. The unique indexes and the foreign keys are those of the migrations. A list is in the order of
-- the rows, where the query sorts it.
use auth.Base.{
  Bool, Effect, List, Option, String, Uuid, [], any, fail, filter, if◌then◌else◌, map, not, ok,
  str_eq, ◌&&◌, ◌++◌, ◌==◌, ◌||◌, ◌∷◌,
}
use auth.Account.Data.{User, first_row}
use auth.Branch.Data.{Branch, DbError, duplicate_key, no_reference}
use auth.Authz.Domain.{Permission, Role, UserRole}

pub record RoleTables : Type 0 where
  pub users : List User
  pub branches : List Branch
  pub roles : List Role
  pub permissions : List Permission
  -- A role and a permission of it.
  pub role_permissions : List (Uuid × Uuid)
  pub user_roles : List UserRole

abbrev pub Db : Type 0 → Type 0
Db A = Effect DbError RoleTables A

abbrev pub has_role : Uuid → List Role → Bool
has_role id = any (λ r. r.id == id)

abbrev pub is_pair : Uuid → Uuid → Uuid × Uuid → Bool
is_pair role permission p = p.0 == role && p.1 == permission

-- `WHERE id = $1 AND org_id = $2`
abbrev pub is_role : Uuid → Uuid → Role → Bool
is_role id org r = r.id == id && r.org_id == org

unfoldable pub create_role : Role → Db (Unit {0})
create_role role t =
    if any (λ r. r.id == role.id || r.org_id == role.org_id && str_eq r.code role.code) t.roles
    then (fail duplicate_key, t)
    else (ok tt, record t { roles = t.roles ++ (record role { permissions = [] }) ∷ [] })

unfoldable pub get_role : Uuid → Uuid → RoleTables → Option Role
get_role id org t = first_row (is_role id org) t.roles

unfoldable pub get_role_by_code : Uuid → String → RoleTables → Option Role
get_role_by_code org code t = first_row (λ r. r.org_id == org && str_eq r.code code) t.roles

unfoldable pub list_roles_by_org : Uuid → RoleTables → List Role
list_roles_by_org org t = filter (λ r. r.org_id == org) t.roles

unfoldable pub write_role : Role → Db (Unit {0})
write_role role t = (
  ok tt,
  record t {
    roles =
        map
          (λ r.
            if is_role role.id role.org_id r
            then record r {
              name = role.name;
              description = role.description;
              updated_at = role.updated_at;
            }
            else r)
          t.roles;
  },
)

-- A role that is granted, even by a row that is revoked, or has a permission is referred to.
abbrev pub is_used : Uuid → RoleTables → Bool
is_used role t =
    any (λ p. p.0 == role) t.role_permissions || any (λ g. g.role_id == role) t.user_roles

unfoldable pub delete_role : Uuid → Uuid → Db (Unit {0})
delete_role id org t =
    if any (is_role id org) t.roles && is_used id t
    then (fail no_reference, t)
    else (ok tt, record t { roles = filter (λ r. not (is_role id org r)) t.roles })

-- `ON CONFLICT (role_id, permission_id) DO NOTHING`
unfoldable pub assign_permission : Uuid → Uuid → Db (Unit {0})
assign_permission role permission t =
    if any (is_pair role permission) t.role_permissions
    then (ok tt, t)
    else if has_role role t.roles && any (λ p. p.id == permission) t.permissions
    then (ok tt, record t { role_permissions = t.role_permissions ++ (role, permission) ∷ [] })
    else (fail no_reference, t)

unfoldable pub revoke_permission : Uuid → Uuid → Db (Unit {0})
revoke_permission role permission t = (
  ok tt,
  record t { role_permissions = filter (λ p. not (is_pair role permission p)) t.role_permissions },
)

unfoldable pub delete_by_role : Uuid → Db (Unit {0})
delete_by_role role t =
    (ok tt, record t { role_permissions = filter (λ p. not (p.0 == role)) t.role_permissions })

-- The join of the permissions with the pairs.
unfoldable pub get_by_role : Uuid → RoleTables → List Permission
get_by_role role t = filter (λ p. any (is_pair role p.id) t.role_permissions) t.permissions
