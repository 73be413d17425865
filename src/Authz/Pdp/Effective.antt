-- ===== src/Authz/Pdp/Effective.antt =====
-- Which permissions `ResolveAuthContext` (internal/service/authz/pdp.go) collects: those of the active
-- roles of the org that are org-wide or of the branch, each once.
use auth.Base.{
  Bool, Bool-cases, List, Option, String, Uuid, [], any, any-append, arith, elem, eq_iff, false,
  inl, inr, none, not, refl, some, str_eq, true, ◌&&◌, ◌++◌, ◌==◌, ◌||◌, ◌∙◌, ◌∷◌, ◌≡◌,
}
use auth.Authz.Domain.{Permission, Result, Result-cases, UserRole, err, is_active, ok}
use auth.Authz.Pdp.{RolePerms, add_code, add_codes, applies, collect_perms, covers_branch}

-- The permission has the code, and a code is not empty.
abbrev pub has_code : String → Option Permission → Bool
has_code code none = false
has_code code (some p) = str_eq p.code code && not (str_eq p.code "")

abbrev pub granted : String → Result (List (Option Permission)) → Bool
granted code (ok ps) = any (has_code code) ps
granted code (err e) = false

-- The role belongs to the org, is not revoked, and is org-wide or bound to the branch.
abbrev pub in_force : Uuid → Uuid → UserRole → Bool
in_force org branch ur =
    (elim ur.branch_id [ none ↦ true | some b ↦ branch == b ])
    && (elim ur.revoked_at [ none ↦ ur.org_id == org | some _ ↦ false ])

applies-in_force :
    (org branch : Uuid) (ur : UserRole) → applies org branch ur ≡ in_force org branch ur
unfolding applies covers_branch is_active
applies-in_force org branch ur = ground arith

-- The role is in force and one of its permissions has the code.
abbrev pub grants : RolePerms → Uuid → Uuid → String → Option UserRole → Bool
grants rp org branch code none = false
grants rp org branch code (some ur) = in_force org branch ur && granted code (rp ur.role_id)

-- No text stands twice.
abbrev pub Distinct : List String → Type 0
Distinct [] = Unit
Distinct (x ∷ xs) = (elem x xs ≡ false) × Distinct xs

Distinct-append :
    (c : String) (xs : List String) → elem c xs ≡ false → Distinct xs → Distinct (xs ++ c ∷ [])
Distinct-append c [] h d = (refl, tt)
Distinct-append c (x ∷ xs) h d = (
  ground (arith, eq_iff x c, eq_iff c x, any-append (λ y. str_eq y x) xs (c ∷ [])),
  Distinct-append c xs (ground arith) d.1,
)

elem-same :
    (code c : String) (perms : List String) → str_eq c code ≡ true → elem c perms ≡ elem code perms
elem-same code c perms h = rw ((eq_iff c code).0 h)

elem-add_code :
    (code c : String) (perms : List String)
    → elem code (add_code perms c) ≡ (elem code perms || (str_eq c code && not (str_eq c "")))
unfolding add_code
elem-add_code code c perms =
    ground (arith, elem-same code c perms, any-append (λ x. str_eq x code) perms (c ∷ []))

elem-add_codes :
    (code : String) (perms : List String) (ps : List (Option Permission))
    → elem code (add_codes perms ps) ≡ (elem code perms || any (has_code code) ps)
unfolding add_codes
elem-add_codes code perms [] = ground arith
elem-add_codes code perms (none ∷ ps) = elem-add_codes code perms ps
elem-add_codes code perms (some p ∷ ps) =
    elem-add_codes code (add_code perms p.code) ps
    ∙ rw (elem-add_code code p.code perms) (ground arith)

-- The code is among the collected permissions exactly when it was among those given, or a role grants it.
pub elem-collect_perms :
    (rp : RolePerms) (org branch : Uuid) (code : String) (roles : List (Option UserRole))
    (perms : List String) {out : List String}
    → collect_perms rp org branch perms roles ≡ ok out
    → elem code out ≡ (elem code perms || any (grants rp org branch code) roles)
unfolding collect_perms
elem-collect_perms rp org branch code [] perms h = ground arith
elem-collect_perms rp org branch code (none ∷ rest) perms h =
    elem-collect_perms rp org branch code rest perms h
elem-collect_perms rp org branch code (some ur ∷ rest) perms {out} h =
    elim (Result-cases (rp ur.role_id)) [
      | inl (ps, e) ↦ ground (
        arith,
        applies-in_force org branch ur,
        elem-add_codes code perms ps,
        elem-collect_perms rp org branch code rest (add_codes perms ps) {out = out},
        elem-collect_perms rp org branch code rest perms {out = out},
      )
      | inr (x, e) ↦ ground (
        arith,
        applies-in_force org branch ur,
        elem-collect_perms rp org branch code rest perms {out = out},
      )
    ]

add_code-Distinct :
    (c : String) (perms : List String) → Distinct perms → Distinct (add_code perms c)
unfolding add_code
add_code-Distinct c perms d = elim (Bool-cases (str_eq c "" || elem c perms)) [
  | inl e ↦ rw e d
  | inr e ↦ rw e (Distinct-append c perms (ground arith) d)
]

add_codes-Distinct :
    (perms : List String) (ps : List (Option Permission))
    → Distinct perms
    → Distinct (add_codes perms ps)
unfolding add_codes
add_codes-Distinct perms [] d = d
add_codes-Distinct perms (none ∷ ps) d = add_codes-Distinct perms ps d
add_codes-Distinct perms (some p ∷ ps) d =
    add_codes-Distinct (add_code perms p.code) ps (add_code-Distinct p.code perms d)

pub collect_perms-Distinct :
    (rp : RolePerms) (org branch : Uuid) (roles : List (Option UserRole)) (perms : List String)
    {out : List String}
    → Distinct perms
    → collect_perms rp org branch perms roles ≡ ok out
    → Distinct out
unfolding collect_perms
collect_perms-Distinct rp org branch [] perms {out} d h = let e : perms ≡ out = cc in rw (← e) d
collect_perms-Distinct rp org branch (none ∷ rest) perms d h =
    collect_perms-Distinct rp org branch rest perms d h
collect_perms-Distinct rp org branch (some ur ∷ rest) perms {out} d h =
    elim (Bool-cases (applies org branch ur)) [
      | inr skip ↦ collect_perms-Distinct rp org branch rest perms d (rw skip at h)
      | inl take ↦ elim (Result-cases (rp ur.role_id)) [
        | inl (ps, e) ↦
            collect_perms-Distinct rp org branch rest (add_codes perms ps)
              (add_codes-Distinct perms ps d) (rw (take, e) at h)
        | inr (x, e) ↦ absurd (ground arith)
      ]
    ]
