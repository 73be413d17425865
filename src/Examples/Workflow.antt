-- ===== src/Examples/Workflow.antt =====
-- The callbacks of workflow7 at concrete inputs.
use auth.Base.{Result, [], false, refl, some, true, ℕ, ◌+◌, ◌==◌, ◌∷◌, ◌≡◌}
use auth.Branch.Data.{Branch, UserBranchAssignment}
use auth.Branch.Assignments.{Directory, get_by_user_and_branch}
use auth.Workflow.Envelope.{Refusal}
use auth.Workflow.Branches.{has_id, new_assignment, set_branches, upsert_assignment}
use auth.Workflow.Assigned.{is_assigned_to, is_primary_of, others}
use auth.Workflow.Replaced.{set_branches-replaces}
use auth.Workflow.Lingering.{get_by_user_and_branch-set_branches}
use auth.Examples.Account.{user}

abbrev branch : ℕ → Branch
branch id = record {
  id = id;
  org_id = 1;
  branch_code = "";
  name = "";
  active = true;
  updated_at = 0;
}

abbrev assignment : ℕ → ℕ → UserBranchAssignment
assignment id branch = record (new_assignment 0 id 1 9 7 branch) { is_primary = branch == 10 }

-- User 7 has branches 10, the primary one, and 11; branch 12 is to take the place of both.
abbrev directory : Directory
directory = record {
  users = user ∷ [];
  branches = branch 10 ∷ branch 11 ∷ branch 12 ∷ [];
  assignments = assignment 1 10 ∷ assignment 2 11 ∷ [];
}

abbrev replaced : Result Refusal (Unit {0}) × Directory
replaced = set_branches 50 (λ id. id + 100) 1 9 7 12 (12 ∷ []) directory

set_branches-replaces_example :
    (is_assigned_to 7 12 replaced.1.assignments ≡ has_id 12 (12 ∷ []))
    × (is_primary_of 7 12 replaced.1.assignments ≡ (12 == 12))
    × (others 7 replaced.1.assignments ≡ others 7 directory.assignments)
unfolding set_branches auth.Workflow.Branches.upsert_assignment new_assignment
set_branches-replaces_example =
    set_branches-replaces 50 (λ id. id + 100) 1 9 7 12 (12 ∷ []) 12 directory refl refl

get_by_user_and_branch-set_branches_example :
    (is_assigned_to 7 10 replaced.1.assignments ≡ false)
    × ((a : UserBranchAssignment) × (get_by_user_and_branch 7 10 replaced.1 ≡ some a))
unfolding set_branches auth.Workflow.Branches.upsert_assignment new_assignment
get_by_user_and_branch-set_branches_example =
    get_by_user_and_branch-set_branches 50 (λ id. id + 100) 1 9 7 12 (12 ∷ []) 10 directory refl
      refl refl refl refl
