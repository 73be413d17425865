-- ===== src/Examples/Roles.antt =====
-- Grants of roles and permissions at concrete inputs.
use auth.Base.{Uuid, [], fail, false, none, refl, some, ◌+◌, ◌∷◌, ◌≡◌}
use auth.Branch.Data.{DbError}
use auth.Workflow.Branches.{has_id}
use auth.Authz.Domain.{Permission, Role}
use auth.Roles.Tables.{RoleTables, assign_permission}
use auth.Roles.Grants.{get_by_user}
use auth.Roles.Callbacks.{assign_permissions, current_roles, new_user_role, set_roles}
use auth.Roles.Replaced.{assign_permissions-replaces, has_permission_of, other_pairs}
use auth.Roles.Regrant.{set_roles-fails}
use auth.Examples.Account.{user}

abbrev teller : Role
teller = record {
  id = 10;
  org_id = 1;
  code = "teller";
  name = "Teller";
  description = "";
  is_default = false;
  permissions = [];
  created_at = 0;
  updated_at = 0;
}

abbrev permission : Uuid → Permission
permission id = record {
  id = id;
  code = "";
  name = "";
  description = "";
  resource_type = "account";
  created_at = 0;
}

-- User 7 was a teller, and is one no more.
abbrev role_tables : RoleTables
role_tables = record {
  users = user ∷ [];
  branches = [];
  roles = teller ∷ [];
  permissions = permission 20 ∷ permission 21 ∷ [];
  role_permissions = (10, 20) ∷ [];
  user_roles = record (new_user_role 0 1 7 10 1 none 9) { revoked_at = some 5 } ∷ [];
}

assign_permissions-replaces_example :
    (has_permission_of 10 20 (assign_permissions 10 (21 ∷ []) role_tables).1 ≡ has_id 20 (21 ∷ []))
    × (other_pairs 10 (assign_permissions 10 (21 ∷ []) role_tables).1.role_permissions
        ≡ other_pairs 10 role_tables.role_permissions)
unfolding assign_permissions auth.Roles.Tables.assign_permission
assign_permissions-replaces_example = assign_permissions-replaces 10 20 (21 ∷ []) role_tables refl

set_roles-fails_example :
    (x : DbError) × ((set_roles 50 (λ id. id + 100) 1 9 7 (10 ∷ []) role_tables).0 ≡ fail x)
unfolding get_by_user current_roles
set_roles-fails_example =
    set_roles-fails 7 10 50 (λ id. id + 100) 1 9 (10 ∷ []) role_tables refl refl refl
