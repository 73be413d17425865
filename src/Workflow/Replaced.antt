-- ===== src/Workflow/Replaced.antt =====
-- `handleWfSetBranches` of internal/api/rest/wfcallback/user.go replaces the whole set of branches.
use auth.Base.{
  Bool, Bool-cases, List, Result-cases, Uuid, [], any, any-append, ap, arith, false, filter, inl,
  inr, map, not, ok, refl, true, ℕ, ◌&&◌, ◌++◌, ◌==◌, ◌||◌, ◌∙◌, ◌∷◌, ◌≡◌,
}
use auth.Branch.Data.{UserBranchAssignment, has_branch}
use auth.Branch.Assignments.{Directory, has_user, is_row}
use auth.Workflow.Branches.{
  active_ids, clear_primary, has_id, is_current, new_assignment, revoke_others, set_branches,
  set_primary, upsert_all, upsert_assignment,
}
use auth.Workflow.Assigned.{
  active_ids-any, clear_primary-any, is_assigned_to, is_primary_of, others, reassign_row-any,
  reassign_row-primary, revoke_others-any, revoke_others-primary,
}

filter-append :
    {A : Type 0} (p : A → Bool) (xs ys : List A) → filter p (xs ++ ys) ≡ filter p xs ++ filter p ys
filter-append p [] ys = refl
filter-append p (x ∷ xs) ys = ground (arith, filter-append p xs ys)

append-nil : {A : Type 0} (xs : List A) → xs ++ [] ≡ xs
append-nil [] = refl
append-nil (x ∷ xs) = ap (λ r. x ∷ r) (append-nil xs)

module _ (user b : Uuid) where
  fresh :
      (now id org by branch : Uuid) (before : Bool)
      → (before
          || any
              (λ a. is_current user a && a.branch_id == b)
              (new_assignment now id org by user branch ∷ []))
        ≡ (b == branch || before)
  unfolding new_assignment
  fresh now id org by branch before = ground arith

  none_other :
      (now id org by branch : Uuid) (rows : List UserBranchAssignment)
      → others user rows ++ others user (new_assignment now id org by user branch ∷ [])
        ≡ others user rows
  unfolding new_assignment
  none_other now id org by branch rows = ground (arith, append-nil (others user rows))

  plain_row :
      (now id org by branch : Uuid) (before : Bool)
      → before ≡ false
      → (before
          || any
              (λ a. is_current user a && a.branch_id == b && a.is_primary)
              (new_assignment now id org by user branch ∷ []))
        ≡ false
  unfolding new_assignment
  plain_row now id org by branch before none_before = ground (arith, none_before)

  -- What an upsert that succeeds makes of the rows.
  upsert_assignment-any :
      (now id org by branch : Uuid) (d : Directory)
      → (upsert_assignment now id org by user branch d).0 ≡ ok tt
      → let rows = (upsert_assignment now id org by user branch d).1.assignments in
        (is_assigned_to user b rows ≡ (b == branch || is_assigned_to user b d.assignments))
        × (others user rows ≡ others user d.assignments)
  unfolding upsert_assignment
  upsert_assignment-any now id org by branch d done =
      elim (Bool-cases (any (is_row user branch) d.assignments)) [
        | inl stored ↦
            rw stored (ground (arith, stored, reassign_row-any user b now by branch d.assignments))
        | inr new ↦
            let row = new_assignment now id org by user branch in
            let referred : (has_user user d.users && has_branch branch d.branches) ≡ true =
              ground (arith, done, new) in
            rw (new, referred)
              (
                any-append (λ a. is_current user a && a.branch_id == b) d.assignments (row ∷ [])
                    ∙ fresh now id org by branch (is_assigned_to user b d.assignments),
                filter-append (λ a. not (a.user_id == user)) d.assignments (row ∷ [])
                    ∙ none_other now id org by branch d.assignments,
              )
      ]

  upsert_assignment-primary :
      (now id org by branch : Uuid) (d : Directory)
      → (upsert_assignment now id org by user branch d).0 ≡ ok tt
      → is_primary_of user b d.assignments ≡ false
      → is_primary_of user b (upsert_assignment now id org by user branch d).1.assignments ≡ false
  unfolding upsert_assignment
  upsert_assignment-primary now id org by branch d done plain =
      elim (Bool-cases (any (is_row user branch) d.assignments)) [
        | inl stored ↦ rw stored (reassign_row-primary user b now by branch d.assignments plain)
        | inr new ↦
            let row = new_assignment now id org by user branch in
            let referred : (has_user user d.users && has_branch branch d.branches) ≡ true =
              ground (arith, done, new) in
            rw (new, referred)
              (any-append (λ a. is_current user a && a.branch_id == b && a.is_primary) d.assignments
                  (row ∷ [])
                ∙ plain_row now id org by branch (is_primary_of user b d.assignments) plain)
      ]

  set_primary-any :
      (primary : Uuid) (rows : List UserBranchAssignment)
      → is_primary_of user b rows ≡ false
      → (is_assigned_to user b (map (set_primary user primary) rows) ≡ is_assigned_to user b rows)
        × (is_primary_of user b (map (set_primary user primary) rows)
            ≡ (b == primary && is_assigned_to user b rows))
        × (others user (map (set_primary user primary) rows) ≡ others user rows)
  unfolding set_primary
  set_primary-any primary [] plain = (refl, ground arith, refl)
  set_primary-any primary (a ∷ rows) plain =
      let rest : is_primary_of user b rows ≡ false = ground (arith, plain) in
      ground (arith, plain, set_primary-any primary rows rest)

  upsert_all-any :
      (now : ℕ) (drawn : Uuid → Uuid) (org by : Uuid) (ids : List Uuid) (d : Directory)
      → (upsert_all now drawn org by user ids d).0 ≡ ok tt
      → is_primary_of user b d.assignments ≡ false
      → let rows = (upsert_all now drawn org by user ids d).1.assignments in
        (is_assigned_to user b rows ≡ (has_id b ids || is_assigned_to user b d.assignments))
        × (is_primary_of user b rows ≡ false)
        × (others user rows ≡ others user d.assignments)
  unfolding upsert_all
  upsert_all-any now drawn org by [] d done plain = (refl, plain, refl)
  upsert_all-any now drawn org by (id ∷ ids) d done plain =
      let one = upsert_assignment now (drawn id) org by user id d in
      elim (Result-cases one.0) [
        | inr (x, lost) ↦ absurd (ground (arith, done, lost))
        | inl (a, first) ↦
            let here = upsert_assignment-any now (drawn id) org by id d first in
            let still = upsert_assignment-primary now (drawn id) org by id d first plain in
            let rest : (upsert_all now drawn org by user ids one.1).0 ≡ ok tt =
              ground (arith, done, first) in
            let there = upsert_all-any now drawn org by ids one.1 rest still in
            rw first (ground (arith, there.0, here.0), there.1, there.2 ∙ here.1)
      ]

-- If workflow7's change of a user's branches is applied, the user has a branch if and only if it is
-- among the desired ones, has the primary one and no other as the primary one, and the rows of every
-- other user are as before.
pub set_branches-replaces :
    (now : ℕ) (drawn : Uuid → Uuid) (org by user primary : Uuid) (desired : List Uuid) (b : Uuid)
    (d : Directory)
    → (set_branches now drawn org by user primary desired d).0 ≡ ok tt
    → has_id primary desired ≡ true
    → let rows = (set_branches now drawn org by user primary desired d).1.assignments in
      (is_assigned_to user b rows ≡ has_id b desired)
      × (is_primary_of user b rows ≡ (b == primary))
      × (others user rows ≡ others user d.assignments)
unfolding set_branches
set_branches-replaces now drawn org by user primary desired b d done among =
    let start = clear_primary-any user b d.assignments in
    let cleared = map (clear_primary user) d.assignments in
    let active = active_ids-any user b cleared in
    let left = revoke_others now by user desired (active_ids user cleared) cleared in
    let kept = revoke_others-any user b now by desired (active_ids user cleared) cleared in
    let plain =
      revoke_others-primary user b now by desired (active_ids user cleared) cleared start.1 in
    let all_of = upsert_all now drawn org by user desired (record d { assignments = left }) in
    elim (Result-cases all_of.0) [
      | inr (x, lost) ↦ absurd (ground (arith, done, lost))
      | inl (a, stored) ↦
          let upserted =
            upsert_all-any user b now drawn org by desired (record d { assignments = left }) stored
              plain in
          let last = set_primary-any user b primary all_of.1.assignments upserted.1 in
          rw stored (
            ground (arith, last.0, upserted.0, kept.0, active),
            ground (arith, last.1, upserted.0, kept.0, active, among),
            last.2 ∙ upserted.2 ∙ kept.1 ∙ start.2,
          )
    ]
