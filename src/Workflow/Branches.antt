-- ===== src/Workflow/Branches.antt =====
-- `handleWfSetBranches` of internal/api/rest/wfcallback/user.go: the branches of a user are replaced in
-- one transaction. The audit log is written on the side.
use auth.Base.{
  Bool, Effect, List, Option, Result, String, Uuid, [], any, fail, false, found_or, if◌then◌else◌,
  map, none, ok, return, some, true, ℕ, ◌&&◌, ◌++◌, ◌==◌, ◌>>=◌, ◌>>◌, ◌∷◌,
}
use auth.Account.Data.{is_live}
use auth.Branch.Data.{DbError, UserBranchAssignment, has_branch, no_reference}
use auth.Branch.Assignments.{Directory, has_user, is_row}
use auth.Workflow.Envelope.{
  Fields, Refusal, bind_wf_envelope, data_maps, data_str, ids_in, internal_error, param_id,
  primary_branch_id_required,
}

-- The rows that a statement writes, one by one.
abbrev pub on_rows : (UserBranchAssignment → UserBranchAssignment) → Directory → Directory
on_rows write d = record d { assignments = map write d.assignments }

abbrev pub is_current : Uuid → UserBranchAssignment → Bool
is_current user a = a.user_id == user && is_live a.revoked_at

unfoldable pub clear_primary : Uuid → UserBranchAssignment → UserBranchAssignment
clear_primary user a = if is_current user a then record a { is_primary = false } else a

unfoldable pub active_ids : Uuid → List UserBranchAssignment → List Uuid
active_ids user [] = []
active_ids user (a ∷ rest) =
    let more = active_ids user rest in if is_current user a then a.branch_id ∷ more else more

unfoldable pub revoke_row : ℕ → Uuid → Uuid → Uuid → UserBranchAssignment → UserBranchAssignment
revoke_row now by user branch a =
    if is_current user a && a.branch_id == branch
    then record a { revoked_at = some now; revoked_by = some by }
    else a

abbrev pub has_id : Uuid → List Uuid → Bool
has_id id = any (λ x. x == id)

-- `for _, bid := range activeIDs { if _, exists := desired[bid]; !exists { … } }`
unfoldable pub revoke_others :
    ℕ → Uuid → Uuid → List Uuid → List Uuid → List UserBranchAssignment → List UserBranchAssignment
unfolding revoke_row
revoke_others now by user desired [] rows = rows
revoke_others now by user desired (id ∷ ids) rows =
    revoke_others now by user desired ids
      (if has_id id desired then rows else map (revoke_row now by user id) rows)

-- `ON CONFLICT (user_id, branch_id) DO UPDATE`
unfoldable pub reassign_row : ℕ → Uuid → Uuid → Uuid → UserBranchAssignment → UserBranchAssignment
reassign_row now by user branch a =
    if is_row user branch a
    then record a {
      is_primary = false;
      revoked_at = none;
      revoked_by = none;
      assigned_by = by;
      assigned_at = now;
    }
    else a

unfoldable pub new_assignment : ℕ → Uuid → Uuid → Uuid → Uuid → Uuid → UserBranchAssignment
new_assignment now id org by user branch = record {
  id = id;
  user_id = user;
  branch_id = branch;
  branch_code = "";
  branch_name = "";
  org_id = org;
  role = "";
  is_primary = false;
  assigned_by = by;
  assigned_at = now;
  revoked_at = none;
  revoked_by = none;
}

-- `id` is a `uuid.New()`.
unfoldable pub upsert_assignment :
    ℕ → Uuid → Uuid → Uuid → Uuid → Uuid → Effect DbError Directory (Unit {0})
unfolding reassign_row
upsert_assignment now id org by user branch d =
    if any (is_row user branch) d.assignments
    then (ok tt, on_rows (reassign_row now by user branch) d)
    else if has_user user d.users && has_branch branch d.branches
    then (
      ok tt,
      record d { assignments = d.assignments ++ (new_assignment now id org by user branch) ∷ [] },
    )
    else (fail no_reference, d)

-- `for bid := range desired`, each with the id that is drawn for it.
unfoldable pub upsert_all :
    ℕ → (Uuid → Uuid) → Uuid → Uuid → Uuid → List Uuid → Effect DbError Directory (Unit {0})
upsert_all now drawn org by user [] = return tt
upsert_all now drawn org by user (id ∷ ids) =
    upsert_assignment now (drawn id) org by user id >> upsert_all now drawn org by user ids

unfoldable pub set_primary : Uuid → Uuid → UserBranchAssignment → UserBranchAssignment
set_primary user branch a =
    if is_current user a && a.branch_id == branch then record a { is_primary = true } else a

-- `desired[bid] = false` for an id that is not there yet.
unfoldable pub add_desired : List Uuid → List Uuid → List Uuid
add_desired desired [] = desired
add_desired desired (id ∷ ids) =
    add_desired (if has_id id desired then desired else desired ++ id ∷ []) ids

abbrev pub rolled_back :
    {A : Type 0} → Directory → Result DbError A × Directory → Result Refusal A × Directory
rolled_back before (ok a, d) = (ok a, d)
rolled_back before (fail x, d) = (fail internal_error, before)

-- The transaction.
unfoldable pub set_branches :
    ℕ → (Uuid → Uuid) → Uuid → Uuid → Uuid → Uuid → List Uuid → Effect Refusal Directory (Unit {0})
unfolding clear_primary active_ids revoke_others upsert_all set_primary
set_branches now drawn org by user primary desired d =
    let cleared = map (clear_primary user) d.assignments in
    let left = revoke_others now by user desired (active_ids user cleared) cleared in
    let (o, d') = upsert_all now drawn org by user desired (record d { assignments = left }) in
    rolled_back d (o, on_rows (set_primary user primary) d')

unfoldable pub handle_wf_set_branches :
    (String → Option Uuid)
    → ℕ
    → (Uuid → Uuid)
    → String
    → Option Fields
    → Effect Refusal Directory Uuid
unfolding param_id bind_wf_envelope data_str ids_in data_maps add_desired set_branches
handle_wf_set_branches parse now drawn param body = do
  user ← param_id parse param
  env ← bind_wf_envelope parse body
  primary ← found_or primary_branch_id_required (parse (data_str env.body "primary_branch_id"))
  set_branches now drawn env.org_id env.actor_id user primary
      (add_desired (primary ∷ []) (ids_in parse "branch_id" (data_maps env.body "branches")))
  return user
