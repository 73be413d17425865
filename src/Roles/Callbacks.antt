-- ===== src/Roles/Callbacks.antt =====
-- The callbacks that change roles: internal/api/rest/wfcallback/role.go and `handleWfSetRoles` of user.go,
-- with the services of internal/api/rest/admin_routes.go that they call. What they read for the audit log,
-- and the log, are left out. An id that is drawn is an argument.
use auth.Base.{
  Bool, Effect, List, Option, Result, String, Uuid, [], fail, false, found_or, if◌then◌else◌, none,
  not, ok, return, some, true, ℕ, ◌&&◌, ◌>>=◌, ◌>>◌, ◌∷◌,
}
use auth.Account.Data.{is_live}
use auth.Branch.Data.{DbError, no_rows}
use auth.Workflow.Envelope.{
  Fields, Refusal, bind_wf_envelope, data_bool, data_maps, data_str, data_str_ptr, ids_in,
  internal_error, param_id,
}
use auth.Workflow.Branches.{add_desired, has_id}
use auth.Authz.Domain.{Role, UserRole}
use auth.Roles.Tables.{
  Db, RoleTables, assign_permission, create_role, delete_by_role, delete_role, get_role, write_role,
}
use auth.Roles.Grants.{create_user_role, get_by_user, revoke_by_user_and_role, same_branch}

-- What a statement reads.
abbrev pub tables : Db RoleTables
tables t = (ok t, t)

-- `wfFail`: each statement before the one that fails stays applied.
abbrev pub or_internal :
    {A : Type 0} → Result DbError A × RoleTables → Result Refusal A × RoleTables
or_internal (ok a, t) = (ok a, t)
or_internal (fail x, t) = (fail internal_error, t)

abbrev pub stored : {A : Type 0} → Db A → Effect Refusal RoleTables A
stored call t = or_internal (call t)

abbrev pub or_old : String → Option String → String
or_old old none = old
or_old old (some new) = new

unfoldable pub patched : ℕ → Option String → Option String → Role → Role
patched now name description role = record role {
  name = or_old role.name name;
  description = or_old role.description description;
  updated_at = now;
}

-- `adminRoleSvc.UpdateRole`
unfoldable pub update_role : ℕ → Uuid → Uuid → Option String → Option String → Db Role
unfolding get_role write_role patched
update_role now id org name description = do
  t ← tables
  role ← found_or no_rows (get_role id org t)
  write_role (patched now name description role)
  return (patched now name description role)

unfoldable pub assign_each : Uuid → List Uuid → Db (Unit {0})
assign_each role [] = return tt
assign_each role (id ∷ ids) = assign_permission role id >> assign_each role ids

-- `adminRoleSvc.AssignPermissions`
unfoldable pub assign_permissions : Uuid → List Uuid → Db (Unit {0})
unfolding delete_by_role assign_each
assign_permissions role ids = delete_by_role role >> assign_each role ids

abbrev pub new_user_role : ℕ → Uuid → Uuid → Uuid → Uuid → Option Uuid → Uuid → UserRole
new_user_role now id user role org branch by = record {
  id = id;
  user_id = user;
  role_id = role;
  branch_id = branch;
  org_id = org;
  granted_by = by;
  granted_at = now;
  revoked_at = none;
  revoked_by = none;
}

-- `adminUserRoleSvc.AssignRole`
unfoldable pub assign_role : ℕ → Uuid → Uuid → Uuid → Uuid → Option Uuid → Uuid → Db (Unit {0})
unfolding create_user_role
assign_role now id user role org branch by =
    create_user_role (new_user_role now id user role org branch by)

-- The rows that `handleWfSetRoles` counts as current: those that are active and for the whole
-- organisation.
abbrev pub is_org_wide : UserRole → Bool
is_org_wide g = is_live g.revoked_at && same_branch g.branch_id none

unfoldable pub current_roles : List UserRole → List Uuid
current_roles [] = []
current_roles (g ∷ gs) =
    let rest = current_roles gs in
    if is_org_wide g && not (has_id g.role_id rest) then g.role_id ∷ rest else rest

unfoldable pub revoke_absent : ℕ → Uuid → Uuid → Uuid → List Uuid → List Uuid → Db (Unit {0})
unfolding revoke_by_user_and_role
revoke_absent now user org by desired [] = return tt
revoke_absent now user org by desired (role ∷ rest) =
    (if has_id role desired then return tt else revoke_by_user_and_role now user role org by)
    >> revoke_absent now user org by desired rest

-- `if !currentSet[rid] { … }`
unfoldable pub assign_unless : Bool → ℕ → Uuid → Uuid → Uuid → Uuid → Uuid → Db (Unit {0})
unfolding assign_role
assign_unless true now id user role org by t = (ok tt, t)
assign_unless false now id user role org by t = assign_role now id user role org none by t

unfoldable pub assign_missing :
    ℕ → (Uuid → Uuid) → Uuid → Uuid → Uuid → List Uuid → List Uuid → Db (Unit {0})
unfolding assign_unless
assign_missing now drawn user org by current [] = return tt
assign_missing now drawn user org by current (role ∷ rest) =
    assign_unless (has_id role current) now (drawn role) user role org by
    >> assign_missing now drawn user org by current rest

-- Each of the two loops is over a map, whose order Go leaves open.
unfoldable pub set_roles : ℕ → (Uuid → Uuid) → Uuid → Uuid → Uuid → List Uuid → Db (Unit {0})
unfolding get_by_user current_roles revoke_absent assign_missing
set_roles now drawn org by user desired = do
  t ← tables
  revoke_absent now user org by desired (current_roles (get_by_user user t))
  assign_missing now drawn user org by (current_roles (get_by_user user t)) desired

module _ (parse : String → Option Uuid) where
  -- `permissionIDsFromData`
  unfoldable pub permission_ids_from_data : Fields → List Uuid
  unfolding ids_in data_maps
  permission_ids_from_data m = ids_in parse "permission_id" (data_maps m "permissions")

  unfoldable pub new_role : ℕ → Uuid → Uuid → Fields → Role
  unfolding data_str data_bool
  new_role now id org m = record {
    id = id;
    org_id = org;
    code = data_str m "code";
    name = data_str m "name";
    description = data_str m "description";
    is_default = data_bool m "is_default";
    permissions = [];
    created_at = now;
    updated_at = now;
  }

  abbrev pub some_permissions : Uuid → List Uuid → Db (Unit {0})
  some_permissions role [] = return tt
  some_permissions role (id ∷ ids) = assign_permissions role (id ∷ ids)

  unfoldable pub handle_wf_create : ℕ → Uuid → Option Fields → Effect Refusal RoleTables Uuid
  unfolding bind_wf_envelope new_role create_role permission_ids_from_data assign_permissions
  handle_wf_create now id body = do
    env ← bind_wf_envelope parse body
    stored (create_role (new_role now id env.org_id env.body))
    stored (some_permissions id (permission_ids_from_data env.body))
    return id

  unfoldable pub handle_wf_update : ℕ → String → Option Fields → Effect Refusal RoleTables Uuid
  unfolding param_id bind_wf_envelope data_str_ptr update_role
  handle_wf_update now param body = do
    id ← param_id parse param
    env ← bind_wf_envelope parse body
    role ← stored (
        update_role now id env.org_id (data_str_ptr env.body "name")
          (data_str_ptr env.body "description"))
    return id

  unfoldable pub handle_wf_delete : String → Option Fields → Effect Refusal RoleTables Uuid
  unfolding param_id bind_wf_envelope delete_role
  handle_wf_delete param body = do
    id ← param_id parse param
    env ← bind_wf_envelope parse body
    stored (delete_role id env.org_id)
    return id

  unfoldable pub handle_wf_set_permissions : String → Option Fields → Effect Refusal RoleTables Uuid
  unfolding param_id bind_wf_envelope permission_ids_from_data assign_permissions
  handle_wf_set_permissions param body = do
    id ← param_id parse param
    env ← bind_wf_envelope parse body
    stored (assign_permissions id (permission_ids_from_data env.body))
    return id

  unfoldable pub handle_wf_set_roles :
      ℕ → (Uuid → Uuid) → String → Option Fields → Effect Refusal RoleTables Uuid
  unfolding param_id bind_wf_envelope ids_in data_maps add_desired set_roles
  handle_wf_set_roles now drawn param body = do
    user ← param_id parse param
    env ← bind_wf_envelope parse body
    stored (
        set_roles now drawn env.org_id env.actor_id user
          (add_desired [] (ids_in parse "role_id" (data_maps env.body "roles"))))
    return user
