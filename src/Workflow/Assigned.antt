-- ===== src/Workflow/Assigned.antt =====
-- What `handleWfSetBranches` (internal/api/rest/wfcallback/user.go) leaves of a user's branches.
use auth.Base.{
  Bool, Bool-cases, List, Uuid, [], any, arith, false, filter, if◌then◌else◌, inl, inr, map, not,
  refl, ◌&&◌, ◌==◌, ◌||◌, ◌∷◌, ◌≡◌,
}
use auth.Branch.Data.{UserBranchAssignment}
use auth.Branch.Assignments.{is_row}
use auth.Workflow.Branches.{
  active_ids, clear_primary, has_id, is_current, reassign_row, revoke_others, revoke_row,
}

-- The user has the branch, and has it as the primary one.
abbrev pub is_assigned_to : Uuid → Uuid → List UserBranchAssignment → Bool
is_assigned_to user branch rows = any (λ a. is_current user a && a.branch_id == branch) rows

abbrev pub is_primary_of : Uuid → Uuid → List UserBranchAssignment → Bool
is_primary_of user branch rows =
    any (λ a. is_current user a && a.branch_id == branch && a.is_primary) rows

-- The rows of other users.
abbrev pub others : Uuid → List UserBranchAssignment → List UserBranchAssignment
others user rows = filter (λ a. not (a.user_id == user)) rows

module _ (user b : Uuid) where
  pub clear_primary-any :
      (rows : List UserBranchAssignment)
      → (is_assigned_to user b (map (clear_primary user) rows) ≡ is_assigned_to user b rows)
        × (is_primary_of user b (map (clear_primary user) rows) ≡ false)
        × (others user (map (clear_primary user) rows) ≡ others user rows)
  unfolding clear_primary
  clear_primary-any [] = (refl, refl, refl)
  clear_primary-any (a ∷ rows) = ground (arith, clear_primary-any rows)

  pub active_ids-any :
      (rows : List UserBranchAssignment)
      → has_id b (active_ids user rows) ≡ is_assigned_to user b rows
  unfolding active_ids
  active_ids-any [] = refl
  active_ids-any (a ∷ rows) = ground (arith, active_ids-any rows)

  module _ (now by : Uuid) where
    revoke_row-any :
        (id : Uuid) (rows : List UserBranchAssignment)
        → (is_assigned_to user b (map (revoke_row now by user id) rows)
            ≡ (is_assigned_to user b rows && not (b == id)))
          × (others user (map (revoke_row now by user id) rows) ≡ others user rows)
    unfolding revoke_row
    revoke_row-any id [] = (refl, refl)
    revoke_row-any id (a ∷ rows) = ground (arith, revoke_row-any id rows)

    pub reassign_row-any :
        (id : Uuid) (rows : List UserBranchAssignment)
        → (is_assigned_to user b (map (reassign_row now by user id) rows)
            ≡ (b == id && any (is_row user id) rows || is_assigned_to user b rows))
          × (others user (map (reassign_row now by user id) rows) ≡ others user rows)
    unfolding reassign_row
    reassign_row-any id [] = (ground arith, refl)
    reassign_row-any id (a ∷ rows) = ground (arith, reassign_row-any id rows)

    revoke_row-primary :
        (id : Uuid) (rows : List UserBranchAssignment)
        → is_primary_of user b rows ≡ false
        → is_primary_of user b (map (revoke_row now by user id) rows) ≡ false
    unfolding revoke_row
    revoke_row-primary id [] plain = refl
    revoke_row-primary id (a ∷ rows) plain =
        let rest : is_primary_of user b rows ≡ false = ground (arith, plain) in
        ground (arith, plain, revoke_row-primary id rows rest)

    pub reassign_row-primary :
        (id : Uuid) (rows : List UserBranchAssignment)
        → is_primary_of user b rows ≡ false
        → is_primary_of user b (map (reassign_row now by user id) rows) ≡ false
    unfolding reassign_row
    reassign_row-primary id [] plain = refl
    reassign_row-primary id (a ∷ rows) plain =
        let rest : is_primary_of user b rows ≡ false = ground (arith, plain) in
        ground (arith, plain, reassign_row-primary id rows rest)

    pub revoke_others-any :
        (desired ids : List Uuid) (rows : List UserBranchAssignment)
        → (is_assigned_to user b (revoke_others now by user desired ids rows)
            ≡ (is_assigned_to user b rows && not (has_id b ids && not (has_id b desired))))
          × (others user (revoke_others now by user desired ids rows) ≡ others user rows)
    unfolding revoke_others
    revoke_others-any desired [] rows = (ground arith, refl)
    revoke_others-any desired (id ∷ ids) rows = ground (
      arith,
      revoke_row-any id rows,
      revoke_others-any desired ids
          (if has_id id desired then rows else map (revoke_row now by user id) rows),
    )

    pub revoke_others-primary :
        (desired ids : List Uuid) (rows : List UserBranchAssignment)
        → is_primary_of user b rows ≡ false
        → is_primary_of user b (revoke_others now by user desired ids rows) ≡ false
    unfolding revoke_others
    revoke_others-primary desired [] rows plain = plain
    revoke_others-primary desired (id ∷ ids) rows plain = elim (Bool-cases (has_id id desired)) [
      | inl wanted ↦ rw wanted (revoke_others-primary desired ids rows plain)
      | inr unwanted ↦
          rw unwanted (revoke_others-primary desired ids _ (revoke_row-primary id rows plain))
    ]
