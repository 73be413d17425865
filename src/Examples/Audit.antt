-- ===== src/Examples/Audit.antt =====
-- Pages of the audit log at concrete inputs.
use mathlib.Core.List.{Perm, perm_middle}
use mathlib.Core.List.Perm
use auth.Base.{
  Bool-cases, List, Uuid, [], arith, if◌then◌else◌, inl, inr, leb, leb_iff, none, pos, refl, some,
  ℕ, ◌∷◌,
}
use auth.Workflow.Envelope.{no_field}
use auth.Audit.Log.{AuditLog, AuditLogFilter, found_by, log, matches}
use auth.Audit.Paging.{IsNewestFirst, SortsNewestFirst, list-pages, pages}

-- An order of the entries by time: of two entries of the same time, the later of the list comes last.
unfoldable insert_newest : AuditLog → List AuditLog → List AuditLog
insert_newest log [] = log ∷ []
insert_newest log (x ∷ xs) =
    if leb x.created_at log.created_at then log ∷ x ∷ xs else x ∷ insert_newest log xs

unfoldable newest_first : List AuditLog → List AuditLog
unfolding insert_newest
newest_first [] = []
newest_first (x ∷ xs) = insert_newest x (newest_first xs)

insert_newest-Perm : (e : AuditLog) (rows : List AuditLog) → Perm (insert_newest e rows) (e ∷ rows)
unfolding insert_newest
insert_newest-Perm e [] = Perm.rfl
insert_newest-Perm e (x ∷ rows) = elim (Bool-cases (leb x.created_at e.created_at)) [
  | inl later ↦ rw later Perm.rfl
  | inr earlier ↦
      rw earlier
        (Perm.trans (Perm.cons' refl (insert_newest-Perm e rows)) (perm_middle (x ∷ []) rows))
]

insert_newest-IsNewestFirst :
    (e : AuditLog) (rows : List AuditLog)
    → IsNewestFirst rows
    → IsNewestFirst (insert_newest e rows)
unfolding insert_newest
insert_newest-IsNewestFirst e [] sorted = tt
insert_newest-IsNewestFirst e (x ∷ []) sorted = elim (Bool-cases (leb x.created_at e.created_at)) [
  | inl later ↦ rw later (omega (arith, (leb_iff x.created_at e.created_at).0 later), tt)
  | inr earlier ↦ rw earlier (ground (arith, earlier), tt)
]
insert_newest-IsNewestFirst e (x ∷ y ∷ rows) (ordered, sorted) =
    elim (Bool-cases (leb x.created_at e.created_at)) [
      | inl later ↦ rw later ((leb_iff x.created_at e.created_at).0 later, (ordered, sorted))
      | inr earlier ↦
          let rest = insert_newest-IsNewestFirst e (y ∷ rows) sorted in
          elim (Bool-cases (leb y.created_at e.created_at)) [
            | inl between ↦ rw (earlier, between) (ground (arith, earlier), rw between at rest)
            | inr before ↦ rw (earlier, before) (ordered, rw before at rest)
          ]
    ]

newest_first_sorts : SortsNewestFirst newest_first
unfolding newest_first
newest_first_sorts [] = (tt, Perm.rfl)
newest_first_sorts (x ∷ rows) =
    let (order, all_found) = newest_first_sorts rows in
    (
      insert_newest-IsNewestFirst x (newest_first rows) order,
      Perm.trans (insert_newest-Perm x (newest_first rows)) (Perm.cons' refl all_found),
    )

abbrev logged : ℕ → Uuid → ℕ → AuditLog
logged id org time = record {
  id = id;
  org_id = org;
  actor_id = 9;
  actor_email = "";
  action = "create_role";
  resource_type = "role";
  resource_id = "";
  old_value = no_field;
  new_value = no_field;
  ip_address = "";
  user_agent = "";
  created_at = time;
}

abbrev rows : List AuditLog
rows = logged 1 1 10 ∷ logged 2 2 20 ∷ logged 3 1 30 ∷ logged 4 1 20 ∷ []

abbrev of_org : AuditLogFilter
of_org = record {
  org_id = some 1;
  actor_id = none;
  action = "";
  resource_type = "role";
  resource_id = "";
  branch_id = none;
  from_date = none;
  to_date = none;
  limit = pos 0;
  offset = pos 0;
}

list-pages_example :
    IsNewestFirst (pages (λ from. newest_first) of_org rows 2 0 2)
    × Perm (pages (λ from. newest_first) of_org rows 2 0 2) (found_by of_org rows)
unfolding matches
list-pages_example =
    list-pages (λ from. newest_first) of_org rows 2 2 (λ from. newest_first_sorts)
      (
        (λ e. absurd (omega (arith, e)), (λ e. absurd (omega (arith, e)), tt)),
        ((λ e. absurd (omega (arith, e)), tt), (tt, tt)),
      )
      (omega arith) (omega arith) (ground arith)
