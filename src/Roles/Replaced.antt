-- ===== src/Roles/Replaced.antt =====
-- What `AssignPermissions` of internal/api/rest/admin_routes.go, on which the callback that sets the
-- permissions of a role relies, leaves of them.
use auth.Base.{
  Bool, List, Result-cases, Uuid, [], any, any-append, ap, arith, false, filter, inl, inr, not, ok,
  refl, ◌++◌, ◌==◌, ◌||◌, ◌∙◌, ◌∷◌, ◌≡◌,
}
use auth.Roles.Callbacks.{assign_each, assign_permissions}
use auth.Workflow.Branches.{has_id}
use auth.Roles.Tables.{RoleTables, assign_permission, delete_by_role, is_pair}

-- The role has the permission.
abbrev pub has_permission_of : Uuid → Uuid → RoleTables → Bool
has_permission_of role p t = any (is_pair role p) t.role_permissions

-- The pairs of other roles.
abbrev pub other_pairs : Uuid → List (Uuid × Uuid) → List (Uuid × Uuid)
other_pairs role pairs = filter (λ p. not (p.0 == role)) pairs

other_pairs-append :
    (role : Uuid) (xs ys : List (Uuid × Uuid))
    → other_pairs role (xs ++ ys) ≡ other_pairs role xs ++ other_pairs role ys
other_pairs-append role [] ys = refl
other_pairs-append role (x ∷ xs) ys = ground (arith, other_pairs-append role xs ys)

append_nil : (xs : List (Uuid × Uuid)) → xs ++ [] ≡ xs
append_nil [] = refl
append_nil (x ∷ xs) = ap (λ r. x ∷ r) (append_nil xs)

module _ (role p : Uuid) where
  deleted-pairs :
      (pairs : List (Uuid × Uuid))
      → (any (is_pair role p) (other_pairs role pairs) ≡ false)
        × (other_pairs role (other_pairs role pairs) ≡ other_pairs role pairs)
  deleted-pairs [] = (refl, refl)
  deleted-pairs (x ∷ xs) = ground (arith, deleted-pairs xs)

  assign_permission-any :
      (id : Uuid) (t : RoleTables)
      → (assign_permission role id t).0 ≡ ok tt
      → let t' = (assign_permission role id t).1 in
        (has_permission_of role p t' ≡ (has_permission_of role p t || id == p))
        × (other_pairs role t'.role_permissions ≡ other_pairs role t.role_permissions)
  unfolding assign_permission
  assign_permission-any id t done = ground (
    arith,
    done,
    any-append (is_pair role p) t.role_permissions ((role, id) ∷ []),
    other_pairs-append role t.role_permissions ((role, id) ∷ []),
    append_nil (other_pairs role t.role_permissions),
  )

  assign_each-any :
      (ids : List Uuid) (t : RoleTables)
      → (assign_each role ids t).0 ≡ ok tt
      → let t' = (assign_each role ids t).1 in
        (has_permission_of role p t' ≡ (has_permission_of role p t || has_id p ids))
        × (other_pairs role t'.role_permissions ≡ other_pairs role t.role_permissions)
  unfolding assign_each
  assign_each-any [] t done = (ground arith, refl)
  assign_each-any (id ∷ ids) t done =
      let one = assign_permission role id t in
      elim (Result-cases one.0) [
        | inr (x, lost) ↦ absurd (ground (arith, done, lost))
        | inl (a, first) ↦
            let here = assign_permission-any id t first in
            let rest : (assign_each role ids one.1).0 ≡ ok tt = ground (arith, done, first) in
            let there = assign_each-any ids one.1 rest in
            rw first (ground (arith, there.0, here.0), there.1 ∙ here.1)
      ]

  -- If the permissions of a role are assigned without an error, the role has a permission exactly if it is
  -- among those given, and the permissions of every other role are as before.
  pub assign_permissions-replaces :
      (ids : List Uuid) (t : RoleTables)
      → (assign_permissions role ids t).0 ≡ ok tt
      → let t' = (assign_permissions role ids t).1 in
        (has_permission_of role p t' ≡ has_id p ids)
        × (other_pairs role t'.role_permissions ≡ other_pairs role t.role_permissions)
  unfolding assign_permissions delete_by_role
  assign_permissions-replaces ids t done =
      let cleared = record t { role_permissions = other_pairs role t.role_permissions } in
      let gone = deleted-pairs t.role_permissions in
      let left = assign_each-any ids cleared done in
      (ground (arith, left.0, gone.0), left.1 ∙ gone.1)
