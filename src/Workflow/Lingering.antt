-- ===== src/Workflow/Lingering.antt =====
-- A branch that `handleWfSetBranches` (internal/api/rest/wfcallback/user.go) takes from a user is still
-- one that `handleSwitchBranch` (internal/api/rest/branch.go) lets the user switch to.

use auth.Base.{
  Bool, Bool-cases, List, Result-cases, Uuid, [], any, any-append, ap, arith, false, inl, inr, map,
  ok, refl, some, true, ℕ, ◌&&◌, ◌==◌, ◌∙◌, ◌∷◌, ◌≡◌,
}
use auth.Account.Data.{first_row}
use auth.Branch.Data.{Branch, UserBranchAssignment}
use auth.Branch.Assignments.{
  Directory, get_by_user_and_branch, is_open, is_row, joined, selected, with_branch,
}
use auth.Workflow.Branches.{
  active_ids, clear_primary, has_id, new_assignment, reassign_row, revoke_others, revoke_row,
  set_branches, set_primary, upsert_all, upsert_assignment,
}
use auth.Workflow.Assigned.{is_assigned_to}
use auth.Workflow.Replaced.{set_branches-replaces}

module _ (user b : Uuid) where
  abbrev has_row : List UserBranchAssignment → Bool
  has_row rows = any (is_row user b) rows

  any-map_row :
      (f : UserBranchAssignment → UserBranchAssignment) (rows : List UserBranchAssignment)
      → ((a : UserBranchAssignment) → is_row user b (f a) ≡ is_row user b a)
      → has_row (map f rows) ≡ has_row rows
  any-map_row f [] same = refl
  any-map_row f (a ∷ rows) same = ground (arith, same a, any-map_row f rows same)

  revoke_others-has_row :
      (now by : Uuid) (desired ids : List Uuid) (rows : List UserBranchAssignment)
      → has_row (revoke_others now by user desired ids rows) ≡ has_row rows
  unfolding revoke_others revoke_row
  revoke_others-has_row now by desired [] rows = refl
  revoke_others-has_row now by desired (id ∷ ids) rows = elim (Bool-cases (has_id id desired)) [
    | inl wanted ↦ rw wanted (revoke_others-has_row now by desired ids rows)
    | inr unwanted ↦ rw unwanted (
        revoke_others-has_row now by desired ids _
        ∙ any-map_row (revoke_row now by user id) rows (λ a. ground arith))
  ]

  upsert_assignment-has_row :
      (now id org by branch : Uuid) (d : Directory)
      → has_row d.assignments ≡ true
      → (has_row (upsert_assignment now id org by user branch d).1.assignments ≡ true)
        × ((upsert_assignment now id org by user branch d).1.branches ≡ d.branches)
  unfolding upsert_assignment reassign_row
  upsert_assignment-has_row now id org by branch d held = ground (
    arith,
    held,
    any-append (is_row user b) d.assignments (new_assignment now id org by user branch ∷ []),
    any-map_row (reassign_row now by user branch) d.assignments (λ a. ground arith),
  )

  upsert_all-has_row :
      (now : ℕ) (drawn : Uuid → Uuid) (org by : Uuid) (ids : List Uuid) (d : Directory)
      → has_row d.assignments ≡ true
      → (has_row (upsert_all now drawn org by user ids d).1.assignments ≡ true)
        × ((upsert_all now drawn org by user ids d).1.branches ≡ d.branches)
  unfolding upsert_all
  upsert_all-has_row now drawn org by [] d held = (held, refl)
  upsert_all-has_row now drawn org by (id ∷ ids) d held =
      let one = upsert_assignment now (drawn id) org by user id d in
      let here = upsert_assignment-has_row now (drawn id) org by id d held in
      elim (Result-cases one.0) [
        | inr (x, lost) ↦ rw lost here
        | inl (a, first) ↦
            let there = upsert_all-has_row now drawn org by ids one.1 here.0 in
            rw first (there.0, there.1 ∙ here.1)
      ]

  set_branches-has_row :
      (now : ℕ) (drawn : Uuid → Uuid) (org by primary : Uuid) (desired : List Uuid) (d : Directory)
      → (set_branches now drawn org by user primary desired d).0 ≡ ok tt
      → has_row d.assignments ≡ true
      → let d' = (set_branches now drawn org by user primary desired d).1 in
        (has_row d'.assignments ≡ true) × (d'.branches ≡ d.branches)
  unfolding set_branches set_primary clear_primary
  set_branches-has_row now drawn org by primary desired d done held =
      let cleared = map (clear_primary user) d.assignments in
      let left = revoke_others now by user desired (active_ids user cleared) cleared in
      let before =
        revoke_others-has_row now by desired (active_ids user cleared) cleared
        ∙ any-map_row (clear_primary user) d.assignments (λ a. ground arith)
        ∙ held in
      let all_of = upsert_all now drawn org by user desired (record d { assignments = left }) in
      let after =
        upsert_all-has_row now drawn org by desired (record d { assignments = left }) before in
      elim (Result-cases all_of.0) [
        | inr (x, lost) ↦ absurd (ground (arith, done, lost))
        | inl (a, stored) ↦ rw stored (
          any-map_row (set_primary user primary) all_of.1.assignments (λ a. ground arith) ∙ after.0,
          after.1,
        )
      ]

  is_open-any :
      (branches : List Branch) (rows : List UserBranchAssignment)
      → has_row rows ≡ true
      → any (λ x. x.id == b && x.active) branches ≡ true
      → any (λ a. is_row user b a && is_open branches a) rows ≡ true
  is_open-any branches [] held opened = absurd (ground (arith, held))
  is_open-any branches (a ∷ rows) held opened = elim (Bool-cases (is_row user b a)) [
    | inl here ↦
        let same : a.branch_id ≡ b = ground (arith, here) in rw (here, same) (rw opened refl)
    | inr there ↦
        let later : has_row rows ≡ true = ground (arith, held, there) in
        rw (there, is_open-any branches rows later opened) refl
  ]

first_row-any :
    {A : Type 0} (p : A → Bool) (xs : List A)
    → any p xs ≡ true
    → (a : A) × (first_row p xs ≡ some a) × (p a ≡ true)
first_row-any p [] held = absurd (ground (arith, held))
first_row-any p (x ∷ xs) held = elim (Bool-cases (p x)) [
  | inl here ↦ (x, rw here refl, here)
  | inr there ↦
      let later : any p xs ≡ true = ground (arith, held, there) in
      let (a, found, fits) = first_row-any p xs later in (a, rw there found, fits)
]

any-weaken :
    {A : Type 0} (p q : A → Bool) (xs : List A) → any (λ x. p x && q x) xs ≡ true → any p xs ≡ true
any-weaken p q [] held = held
any-weaken p q (x ∷ xs) held = elim (Bool-cases (p x)) [
  | inl here ↦ rw here refl
  | inr there ↦
      let later : any (λ y. p y && q y) xs ≡ true = ground (arith, held, there) in
      rw (there, any-weaken p q xs later) refl
]

joined-some :
    (branches : List Branch) (a : UserBranchAssignment)
    → any (λ x. x.id == a.branch_id && x.active) branches ≡ true
    → (y : UserBranchAssignment) × (joined branches (some a) ≡ some y)
joined-some branches a opened =
    let known = any-weaken (λ x. x.id == a.branch_id) (λ x. x.active) branches opened in
    let (x, found, _) = first_row-any (λ x. x.id == a.branch_id) branches known in
    (selected a x, ap (with_branch a) found)

get_by_user_and_branch-some :
    (user b : Uuid) (branches : List Branch) (d : Directory)
    → d.branches ≡ branches
    → any (is_row user b) d.assignments ≡ true
    → any (λ x. x.id == b && x.active) branches ≡ true
    → (a : UserBranchAssignment) × (get_by_user_and_branch user b d ≡ some a)
unfolding get_by_user_and_branch
get_by_user_and_branch-some user b branches d same held opened =
    let (a, found, fits) =
      first_row-any (λ a. is_row user b a && is_open branches a) d.assignments
        (is_open-any user b branches d.assignments held opened) in
    let (y, seen) = joined-some branches a (ground (arith, fits)) in (y, rw (same, found) seen)

-- A branch that is open, that the user had a row for and that is not among the desired ones is no
-- longer assigned to the user once the change is applied, and the query by which a session is switched
-- still finds the row.
pub get_by_user_and_branch-set_branches :
    (now : ℕ) (drawn : Uuid → Uuid) (org by user primary : Uuid) (desired : List Uuid) (b : Uuid)
    (d : Directory)
    → (set_branches now drawn org by user primary desired d).0 ≡ ok tt
    → has_id primary desired ≡ true
    → has_id b desired ≡ false
    → any (is_row user b) d.assignments ≡ true
    → any (λ x. x.id == b && x.active) d.branches ≡ true
    → let d' = (set_branches now drawn org by user primary desired d).1 in
      (is_assigned_to user b d'.assignments ≡ false)
      × ((a : UserBranchAssignment) × (get_by_user_and_branch user b d' ≡ some a))
get_by_user_and_branch-set_branches now drawn org by user primary desired b d done among left held
      opened =
    let replaced = set_branches-replaces now drawn org by user primary desired b d done among in
    let (row, same) = set_branches-has_row user b now drawn org by primary desired d done held in
    (
      replaced.0 ∙ left,
      get_by_user_and_branch-some user b d.branches
          (set_branches now drawn org by user primary desired d).1 same row opened,
    )
