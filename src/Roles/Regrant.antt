-- ===== src/Roles/Regrant.antt =====
-- A role that was taken from a user, and is granted again by `handleWfSetRoles`
-- (internal/api/rest/wfcallback/user.go).
use auth.Base.{
  Bool, Bool-cases, List, Option, Result, Uuid, [], any, any-append, arith, continue, fail, false,
  if◌then◌else◌, inl, inr, map, none, ok, refl, some, true, ℕ, ◌&&◌, ◌==◌, ◌∙◌, ◌∷◌, ◌≡◌,
}
use auth.Account.Data.{is_live}
use auth.Branch.Data.{DbError, duplicate_key}
use auth.Workflow.Branches.{has_id}
use auth.Authz.Domain.{UserRole}
use auth.Roles.Tables.{Db, RoleTables}
use auth.Roles.Grants.{
  create_user_role, get_by_user, revoke_by_user_and_role, same_branch, same_grant,
}
use auth.Roles.Callbacks.{
  assign_missing, assign_role, assign_unless, current_roles, new_user_role, revoke_absent,
  set_roles,
}

continue-fails :
    {A B : Type 0} (next : A → Db B) (o : Result DbError A × RoleTables)
    → ((a : A) → o.0 ≡ ok a → (x : DbError) × ((next a o.1).0 ≡ fail x))
    → (x : DbError) × ((continue next o).0 ≡ fail x)
continue-fails next (ok a, t) fails = fails a refl
continue-fails next (fail x, t) fails = (x, refl)

module _ (user role : Uuid) where
  -- Some row of the user has the role for the whole organisation, active or not.
  abbrev pub has_grant : List UserRole → Bool
  has_grant rows =
      any (λ g. g.user_id == user && g.role_id == role && same_branch g.branch_id none) rows

  revoke_where-has_grant :
      (now by : Uuid) (p : UserRole → Bool) (rows : List UserRole)
      → has_grant (
          map
            (λ g.
              if p g && is_live g.revoked_at
              then record g { revoked_at = some now; revoked_by = some by }
              else g)
            rows)
        ≡ has_grant rows
  revoke_where-has_grant now by p [] = refl
  revoke_where-has_grant now by p (g ∷ rows) = ground (arith, revoke_where-has_grant now by p rows)

  revoke_absent-has_grant :
      (now org by : Uuid) (desired ids : List Uuid) (t : RoleTables)
      → let o = revoke_absent now user org by desired ids t in
        (o.0 ≡ ok tt) × (has_grant o.1.user_roles ≡ has_grant t.user_roles)
  unfolding revoke_absent revoke_by_user_and_role
  revoke_absent-has_grant now org by desired [] t = (refl, refl)
  revoke_absent-has_grant now org by desired (id ∷ ids) t = elim (Bool-cases (has_id id desired)) [
    | inl wanted ↦ rw wanted (revoke_absent-has_grant now org by desired ids t)
    | inr unwanted ↦
        let rest =
          revoke_absent-has_grant now org by desired ids
            (revoke_by_user_and_role now user id org by t).1 in
        rw unwanted (
          rest.0,
          rest.1
              ∙ revoke_where-has_grant now by
                  (λ g. g.user_id == user && g.role_id == id && g.org_id == org) t.user_roles,
        )
  ]

  create_user_role-has_grant :
      (ur : UserRole) (t : RoleTables)
      → has_grant t.user_roles ≡ true
      → has_grant (create_user_role ur t).1.user_roles ≡ true
  unfolding create_user_role
  create_user_role-has_grant ur t held = ground (
    arith,
    held,
    any-append (λ g. g.user_id == user && g.role_id == role && same_branch g.branch_id none)
        t.user_roles ((record ur { revoked_at = none; revoked_by = none }) ∷ []),
  )

  same_branch_comm : (b : Option Uuid) → same_branch b none ≡ true → same_branch none b ≡ true
  same_branch_comm none same = refl
  same_branch_comm (some b) same = absurd (ground (arith, same))

  same_grant-any :
      (g : UserRole) (rows : List UserRole)
      → g.user_id ≡ user
      → g.role_id ≡ role
      → g.branch_id ≡ none
      → has_grant rows ≡ true
      → any (same_grant g) rows ≡ true
  same_grant-any g [] of_user of_role of_branch held = absurd (ground (arith, held))
  same_grant-any g (x ∷ rows) of_user of_role of_branch held = elim (Bool-cases (has_grant rows)) [
    | inl later ↦
        let there = same_grant-any g rows of_user of_role of_branch later in ground (arith, there)
    | inr never ↦
        let here : (x.user_id == user && x.role_id == role && same_branch x.branch_id none) ≡ true =
          ground (arith, held, never) in
        let wide : same_branch x.branch_id none ≡ true = ground (arith, here) in
        let branch : same_branch g.branch_id x.branch_id ≡ true =
          rw of_branch (same_branch_comm x.branch_id wide) in
        ground (arith, here, branch, of_user, of_role)
  ]

  assign_role-duplicate :
      (now id org by : Uuid) (t : RoleTables)
      → has_grant t.user_roles ≡ true
      → (assign_role now id user role org none by t).0 ≡ fail duplicate_key
  unfolding assign_role create_user_role
  assign_role-duplicate now id org by t held =
      let g = new_user_role now id user role org none by in
      rw (same_grant-any g t.user_roles refl refl refl held) refl

  assign_role-has_grant :
      (now id other org by : Uuid) (t : RoleTables)
      → has_grant t.user_roles ≡ true
      → has_grant (assign_role now id user other org none by t).1.user_roles ≡ true
  unfolding assign_role
  assign_role-has_grant now id other org by t held =
      create_user_role-has_grant (new_user_role now id user other org none by) t held

  assign_unless-has_grant :
      (held_already : Bool) (now id other org by : Uuid) (t : RoleTables)
      → has_grant t.user_roles ≡ true
      → has_grant (assign_unless held_already now id user other org by t).1.user_roles ≡ true
  unfolding assign_unless
  assign_unless-has_grant true now id other org by t held = held
  assign_unless-has_grant false now id other org by t held =
      assign_role-has_grant now id other org by t held

  assign_missing-fails :
      (now : ℕ) (drawn : Uuid → Uuid) (org by : Uuid) (current ids : List Uuid) (t : RoleTables)
      → has_grant t.user_roles ≡ true
      → has_id role current ≡ false
      → has_id role ids ≡ true
      → (x : DbError) × ((assign_missing now drawn user org by current ids t).0 ≡ fail x)
  unfolding assign_missing assign_unless
  assign_missing-fails now drawn org by current [] t held absent among =
      absurd (ground (arith, among))
  assign_missing-fails now drawn org by current (id ∷ ids) t held absent among =
      continue-fails (λ a. assign_missing now drawn user org by current ids)
        (assign_unless (has_id id current) now (drawn id) user id org by t)
        (λ a made. elim (Bool-cases (id == role)) [
          | inl here ↦
              let same : id ≡ role = ground (arith, here) in
              let new : has_id id current ≡ false = rw same absent in
              let refused = assign_role-duplicate now (drawn id) org by t held in
              absurd (ground (arith, refused, made, same, new))
          | inr other ↦
              let later : has_id role ids ≡ true = ground (arith, among, other) in
              assign_missing-fails now drawn org by current ids
                (assign_unless (has_id id current) now (drawn id) user id org by t).1
                (assign_unless-has_grant (has_id id current) now (drawn id) id org by t held) absent
                later
        ])

  -- If a user has a row for a role for the whole organisation, and none such that is active, the callback
  -- that is to give the user the role fails.
  pub set_roles-fails :
      (now : ℕ) (drawn : Uuid → Uuid) (org by : Uuid) (desired : List Uuid) (t : RoleTables)
      → has_grant t.user_roles ≡ true
      → has_id role (current_roles (get_by_user user t)) ≡ false
      → has_id role desired ≡ true
      → (x : DbError) × ((set_roles now drawn org by user desired t).0 ≡ fail x)
  unfolding set_roles
  set_roles-fails now drawn org by desired t held absent among =
      let current = current_roles (get_by_user user t) in
      let (done, kept) = revoke_absent-has_grant now org by desired current t in
      continue-fails (λ a. assign_missing now drawn user org by current desired)
        (revoke_absent now user org by desired current t)
        (λ a made.
          assign_missing-fails now drawn org by current desired
            (revoke_absent now user org by desired current t).1 (kept ∙ held) absent among)
