-- ===== src/Branch/Outage.antt =====
-- A pass of the poller that fails (internal/service/branchsync/poller.go) leaves the branches alone that
-- the source did not report.
use auth.Base.{
  Any, Bool, Bool-cases, List, Option, Result, Result-cases, String, Uuid, [], any, ap, arith,
  continue, fail, false, if◌then◌else◌, inl, inr, map, none, ok, return, some, subst, suc, true,
  zero, ℕ, ◌++◌, ◌+◌, ◌==◌, ◌>>◌, ◌∙◌, ◌∷◌, ◌≡◌,
}
use auth.Branch.Data.{Branch, has_branch}
use auth.Branch.Sync.{
  BranchProjectionItem, Call, Config, ContractEnvelope, Pass, Round, SyncError, Upstream,
  deactivate_absent, fetch_page, finished, go_on, ids_of, is_empty, next, read_envelope, read_page,
  read_pages, reconcile, refresh_row, reported, settled, tick, upsert_batch, upsert_branch,
  upsert_items, upsert_parsed,
}

pub Any-map :
    {A : Type 0} (f : A → A) (xs : List A) {a : A}
    → f a ≡ a
    → Any (λ x. x ≡ a) xs
    → Any (λ x. x ≡ a) (map f xs)
Any-map f [] same held = elim held [ ]
Any-map f (x ∷ xs) same (inl here) = inl (ap f here ∙ same)
Any-map f (x ∷ xs) same (inr there) = inr (Any-map f xs same there)

pub Any-append : {A : Type 0} (P : A → Type 0) (xs ys : List A) → Any P xs → Any P (xs ++ ys)
Any-append P [] ys held = elim held [ ]
Any-append P (x ∷ xs) ys (inl here) = inl here
Any-append P (x ∷ xs) ys (inr there) = inr (Any-append P xs ys there)

if_keeps :
    {A : Type 0} (P : A → Type 0) (test : Bool) {x y : A} → P x → P y → P (if test then x else y)
if_keeps P true px py = px
if_keeps P false px py = py

module _ (c : Config) (up : Upstream) (b : Branch) where
  abbrev pub IsStored : List Branch → Type 0
  IsStored rows = Any (λ x. x ≡ b) rows

  then-IsStored :
      {A B : Type 0} (o : Result SyncError A × List Branch) (after : A → Call B)
      → IsStored o.1
      → ((a : A) (rows : List Branch) → IsStored rows → IsStored (after a rows).1)
      → IsStored (continue after o).1
  then-IsStored (ok a, rows) after held keeps = keeps a rows held
  then-IsStored (fail x, rows) after held keeps = held

  settled-IsStored :
      {A : Type 0} (o : Result SyncError A × List Branch) (rows : List Branch)
      → IsStored rows
      → IsStored o.1
      → IsStored (settled rows o).1
  settled-IsStored (ok a, rows') rows before after = after
  settled-IsStored (fail x, rows') rows before after = before

  refresh_row-other :
      (now : ℕ) (id : Uuid) (code : String) (active : Bool)
      → (b.id == id) ≡ false
      → refresh_row c up now id code active b ≡ b
  unfolding refresh_row
  refresh_row-other now id code active other = ground (arith, other)

  upsert_branch-IsStored :
      (now : ℕ) (id : Uuid) (code : String) (active : Bool) (rows : List Branch)
      → (b.id == id) ≡ false
      → IsStored rows
      → IsStored (upsert_branch c up now id code active rows).1
  unfolding upsert_branch
  upsert_branch-IsStored now id code active rows other held =
      let kept : IsStored (
          if has_branch id rows
          then map (refresh_row c up now id code active) rows
          else rows
            ++ (record {
              id = id;
              org_id = c.org_id;
              branch_code = code;
              name = "";
              active = active;
              updated_at = now;
            })
              ∷ []) =
        if_keeps IsStored (has_branch id rows)
          (Any-map _ rows (refresh_row-other now id code active other) held)
          (Any-append _ rows _ held) in
      if_keeps (λ (o : Result SyncError (Unit {0}) × List Branch). IsStored o.1) _ held kept

  upsert_parsed-IsStored :
      (now : ℕ) (item : BranchProjectionItem) (o : Option Uuid) (rest : Call (Unit {0}))
      (ids : List Uuid) (rows : List Branch)
      → any (λ id. b.id == id) (reported o ids) ≡ false
      → IsStored rows
      → ((rows : List Branch)
          → any (λ id. b.id == id) ids ≡ false
          → IsStored rows
          → IsStored (rest rows).1)
      → IsStored (upsert_parsed c up now item o rest rows).1
  unfolding upsert_parsed
  upsert_parsed-IsStored now item none rest ids rows unreported held keeps =
      keeps rows unreported held
  upsert_parsed-IsStored now item (some id) rest ids rows unreported held keeps =
      then-IsStored _ (λ _. rest)
        (upsert_branch-IsStored now id item.branch_code (up.equal_fold item.status "active") rows
          (ground (arith, unreported)) held)
        (λ _ rows' h. keeps rows' (ground (arith, unreported)) h)

  upsert_items-IsStored :
      (now : ℕ) (items : List BranchProjectionItem) (rows : List Branch)
      → any (λ id. b.id == id) (ids_of c up items) ≡ false
      → IsStored rows
      → IsStored (upsert_items c up now items rows).1
  unfolding upsert_items ids_of
  upsert_items-IsStored now [] rows unreported held = held
  upsert_items-IsStored now (item ∷ items) rows unreported held =
      upsert_parsed-IsStored now item (up.parse_uuid item.branch_id) (upsert_items c up now items)
        (ids_of c up items) rows unreported held
        (λ rows' apart h. upsert_items-IsStored now items rows' apart h)

  upsert_batch-IsStored :
      (now : ℕ) (items : List BranchProjectionItem) (seen : List Uuid) (rows : List Branch)
      → any (λ id. b.id == id) (ids_of c up items) ≡ false
      → IsStored rows
      → IsStored (upsert_batch c up now items seen rows).1
  unfolding upsert_batch
  upsert_batch-IsStored now items seen rows unreported held =
      settled-IsStored ((upsert_items c up now items >> return (ids_of c up items ++ seen)) rows)
        rows held
        (then-IsStored (upsert_items c up now items rows) (λ _. return (ids_of c up items ++ seen))
          (upsert_items-IsStored now items rows unreported held) (λ _ _ h. h))

  read_envelope-IsStored :
      (now page : ℕ) (seen : List Uuid) (env : ContractEnvelope) (rows : List Branch)
      → any (λ id. b.id == id) (ids_of c up env.items) ≡ false
      → IsStored rows
      → IsStored (read_envelope c up now page seen env rows).1
  unfolding read_envelope
  read_envelope-IsStored now page seen env rows unreported held =
      elim (Bool-cases (is_empty env.items)) [
        | inl none_left ↦ rw none_left held
        | inr some_left ↦ rw some_left (
            then-IsStored (upsert_batch c up now env.items seen rows) _
              (upsert_batch-IsStored now env.items seen rows unreported held) (λ _ _ h. h))
      ]

  -- No page that is fetched reports the branch.
  abbrev pub IsUnreported : Type 0
  IsUnreported =
      (page : ℕ) (env : ContractEnvelope)
      → (fetch_page c up page tt).0 ≡ ok env
      → any (λ id. b.id == id) (ids_of c up env.items) ≡ false

  read_page-IsStored :
      (now page : ℕ) (seen : List Uuid) (rows : List Branch)
      → IsUnreported
      → IsStored rows
      → IsStored (read_page c up now page seen rows).1
  unfolding read_page
  read_page-IsStored now page seen rows unreported held =
      elim (Result-cases (fetch_page c up page tt).0) [
        | inr (x, lost) ↦ rw lost held
        | inl (env, fetched) ↦
            rw fetched
              (read_envelope-IsStored now page seen env rows (unreported page env fetched) held)
      ]

  abbrev IsKept : {A : Type 0} → Pass A → Type 0
  IsKept none = Unit
  IsKept (some (o, rows)) = IsStored rows

  go_on-IsKept :
      (rest : List Uuid → List Branch → Pass (List Uuid)) (o : Result SyncError Round × List Branch)
      → IsStored o.1
      → ((seen : List Uuid) (rows : List Branch) → IsStored rows → IsKept (rest seen rows))
      → IsKept (go_on rest o)
  go_on-IsKept rest (ok (finished seen), rows) held keeps = held
  go_on-IsKept rest (ok (next seen), rows) held keeps = keeps seen rows held
  go_on-IsKept rest (fail x, rows) held keeps = held

  read_pages-IsKept :
      (clock : ℕ → ℕ) (fuel page : ℕ) (seen : List Uuid) (rows : List Branch)
      → IsUnreported
      → IsStored rows
      → IsKept (read_pages c up clock fuel page seen rows)
  unfolding read_pages
  read_pages-IsKept clock zero page seen rows unreported held = tt
  read_pages-IsKept clock (suc fuel) page seen rows unreported held =
      go_on-IsKept (read_pages c up clock fuel (page + 1))
        (read_page c up (clock page) page seen rows)
        (read_page-IsStored (clock page) page seen rows unreported held)
        (λ seen' rows' h. read_pages-IsKept clock fuel (page + 1) seen' rows' unreported h)

  reconcile-fail :
      (now : ℕ) (p : Pass (List Uuid)) {x : SyncError} {rows' : List Branch}
      → reconcile c up now p ≡ some (fail x, rows')
      → IsKept p
      → IsStored rows'
  unfolding deactivate_absent
  reconcile-fail now none lost held = absurd (ground (arith, lost))
  reconcile-fail now (some (fail y, rows)) lost held = subst IsStored (ground (arith, lost)) held
  reconcile-fail now (some (ok [], rows)) lost held = absurd (ground (arith, lost))
  reconcile-fail now (some (ok (id ∷ ids), rows)) lost held = absurd (ground (arith, lost))

  -- After a pass that fails, a branch that no page reports is stored as it was, active or not.
  pub tick-IsStored :
      (clock : ℕ → ℕ) (now fuel : ℕ) (rows rows' : List Branch) {x : SyncError}
      → tick c up clock now fuel rows ≡ some (fail x, rows')
      → IsUnreported
      → IsStored rows
      → IsStored rows'
  unfolding tick
  tick-IsStored clock now fuel rows rows' lost unreported held =
      reconcile-fail now (read_pages c up clock fuel 1 [] rows) lost
        (read_pages-IsKept clock fuel 1 [] rows unreported held)
