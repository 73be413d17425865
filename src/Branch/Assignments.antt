-- ===== src/Branch/Assignments.antt =====
-- The assignments of users to branches (internal/store/postgres/branch.go and repository.go), for a
-- database that answers.
use auth.Base.{
  Bool, Effect, List, Option, Uuid, [], any, fail, filter, if◌then◌else◌, map, nil_uuid, none, not,
  ok, some, ℕ, ◌&&◌, ◌++◌, ◌==◌, ◌∷◌,
}
use auth.Account.Data.{User, first_row, is_live}
use auth.Branch.Data.{Branch, DbError, UserBranchAssignment, has_branch, no_reference}

-- The tables that an assignment refers to, and its own.
pub record Directory : Type 0 where
  pub users : List User
  pub branches : List Branch
  pub assignments : List UserBranchAssignment

abbrev pub is_row : Uuid → Uuid → UserBranchAssignment → Bool
is_row user branch a = a.user_id == user && a.branch_id == branch

abbrev pub has_user : Uuid → List User → Bool
has_user id = any (λ u. u.id == id)

-- `ON CONFLICT (user_id, branch_id) DO NOTHING`; the foreign keys are those of the migration.
unfoldable pub create_assignment : UserBranchAssignment → Effect DbError Directory (Unit {0})
create_assignment a d =
    if any (is_row a.user_id a.branch_id) d.assignments
    then (ok tt, d)
    else if has_user a.user_id d.users && has_branch a.branch_id d.branches
    then (ok tt, record d { assignments = d.assignments ++ a ∷ [] })
    else (fail no_reference, d)

unfoldable pub delete_assignment : Uuid → Effect DbError Directory (Unit {0})
delete_assignment id d =
    (ok tt, record d { assignments = filter (λ a. not (a.id == id)) d.assignments })

-- `revoked_by` is NULL for the nil UUID.
unfoldable pub revoke_assignment : ℕ → Uuid → Uuid → Effect DbError Directory (Unit {0})
revoke_assignment now id by d = (
  ok tt,
  record d {
    assignments =
        map
          (λ a.
            if a.id == id && is_live a.revoked_at
            then record a {
              revoked_at = some now;
              revoked_by = if by == nil_uuid then none else some by;
            }
            else a)
          d.assignments;
  },
)

-- The columns that the queries select; the others are zero.
abbrev pub selected : UserBranchAssignment → Branch → UserBranchAssignment
selected a b = record {
  id = a.id;
  user_id = a.user_id;
  branch_id = a.branch_id;
  branch_code = b.branch_code;
  branch_name = b.name;
  org_id = nil_uuid;
  role = "";
  is_primary = a.is_primary;
  assigned_by = nil_uuid;
  assigned_at = 0;
  revoked_at = none;
  revoked_by = none;
}

-- `JOIN branches b ON b.id = uba.branch_id`
abbrev pub with_branch : UserBranchAssignment → Option Branch → Option UserBranchAssignment
with_branch a none = none
with_branch a (some b) = some (selected a b)

abbrev pub joined : List Branch → Option UserBranchAssignment → Option UserBranchAssignment
joined branches none = none
joined branches (some a) = with_branch a (first_row (λ b. b.id == a.branch_id) branches)

abbrev pub is_open : List Branch → UserBranchAssignment → Bool
is_open branches a = any (λ b. b.id == a.branch_id && b.active) branches

unfoldable pub get_primary_by_user_id : Uuid → Directory → Option UserBranchAssignment
get_primary_by_user_id user d =
    joined d.branches
      (first_row (λ a. a.user_id == user && a.is_primary && is_open d.branches a) d.assignments)

unfoldable pub get_by_user_and_branch : Uuid → Uuid → Directory → Option UserBranchAssignment
get_by_user_and_branch user branch d =
    joined d.branches (first_row (λ a. is_row user branch a && is_open d.branches a) d.assignments)
