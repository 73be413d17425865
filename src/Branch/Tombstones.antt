-- ===== src/Branch/Tombstones.antt =====
-- A pass of the poller that succeeds (internal/service/branchsync/poller.go) leaves no branch of the
-- organisation active that the source did not report.
use auth.Base.{
  All, All-append, Any, Bool, Bool-cases, List, Result, Result-cases, Uuid, [], any, arith,
  continue, fail, false, if◌then◌else◌, inl, inr, leb, length, length-append, map, none, not, ok,
  refl, return, some, subst, suc, true, zero, ℕ, ◌&&◌, ◌++◌, ◌+◌, ◌<◌, ◌==◌, ◌∷◌, ◌≡◌,
}
use auth.Branch.Data.{Branch}
use auth.Branch.Sync.{
  BranchProjectionItem, Config, ContractEnvelope, Pass, Round, SyncError, Upstream,
  deactivate_absent, fetch_page, finished, go_on, ids_of, is_empty, next, read_envelope, read_page,
  read_pages, reconcile, retire_row, settled, tick, upsert_batch, upsert_items,
}

module _ (c : Config) (up : Upstream) where
  -- The id stands on a page that is fetched.
  abbrev pub IsReported : Uuid → Type 0
  IsReported id =
      (page : ℕ) × (env : ContractEnvelope) × ((fetch_page c up page tt).0 ≡ ok env)
      × Any (λ i. i ≡ id) (ids_of c up env.items)

  -- An active branch of the organisation that is not among the ids.
  abbrev pub is_stale : List Uuid → Branch → Bool
  is_stale seen b = b.org_id == c.org_id && b.active && not (any (λ id. id == b.id) seen)

  All-IsReported :
      (page : ℕ) (env : ContractEnvelope) (ids : List Uuid)
      → (fetch_page c up page tt).0 ≡ ok env
      → ((id : Uuid) → Any (λ i. i ≡ id) ids → Any (λ i. i ≡ id) (ids_of c up env.items))
      → All IsReported ids
  All-IsReported page env [] fetched inside = tt
  All-IsReported page env (id ∷ ids) fetched inside = (
    (page, env, fetched, inside id (inl refl)),
    All-IsReported page env ids fetched (λ i held. inside i (inr held)),
  )

  -- Some ids, each of them reported.
  abbrev AreKnown : List Uuid → Type 0
  AreKnown seen = All IsReported seen × (0 < length seen)

  abbrev IsKnown : Result SyncError Round × List Branch → Type 0
  IsKnown (ok (finished seen), rows) = AreKnown seen
  IsKnown (ok (next seen), rows) = AreKnown seen
  IsKnown (fail x, rows) = Unit

  batch-IsKnown :
      (o : Result SyncError (Unit {0}) × List Branch) (last : Bool) (ids : List Uuid)
      (rows : List Branch)
      → AreKnown ids
      → IsKnown (
          continue
            (λ seen. return (if last then finished seen else next seen))
            (settled rows (continue (λ _. return ids) o)))
  batch-IsKnown (ok a, rows') true ids rows known = known
  batch-IsKnown (ok a, rows') false ids rows known = known
  batch-IsKnown (fail x, rows') last ids rows known = tt

  -- Some ids were seen before, or the page has some.
  abbrev IsSome : List Uuid → ContractEnvelope → Type 0
  IsSome seen env = 0 < length (ids_of c up env.items) + length seen

  length-ids_of :
      (items : List BranchProjectionItem) → is_empty items ≡ true → length (ids_of c up items) ≡ 0
  unfolding ids_of
  length-ids_of [] none_left = omega arith
  length-ids_of (item ∷ items) none_left = absurd (ground (arith, none_left))

  read_envelope-IsKnown :
      (now page : ℕ) (seen : List Uuid) (env : ContractEnvelope) (rows : List Branch)
      → (fetch_page c up page tt).0 ≡ ok env
      → All IsReported seen
      → IsSome seen env
      → IsKnown (read_envelope c up now page seen env rows)
  unfolding read_envelope upsert_batch
  read_envelope-IsKnown now page seen env rows fetched before some_ids =
      let ids = ids_of c up env.items in
      let known =
        All-append IsReported ids seen
          (All-IsReported page env ids fetched (λ id held. held), before) in
      elim (Bool-cases (is_empty env.items)) [
        | inl none_left ↦
            rw none_left (before, omega (arith, some_ids, length-ids_of env.items none_left))
        | inr some_left ↦ rw some_left (
            batch-IsKnown (upsert_items c up now env.items rows) (leb env.total_pages page)
              (ids ++ seen) rows (known, omega (arith, some_ids, length-append ids seen)))
      ]

  read_page-IsKnown :
      (now page : ℕ) (seen : List Uuid) (rows : List Branch)
      → All IsReported seen
      → ((env : ContractEnvelope) → (fetch_page c up page tt).0 ≡ ok env → IsSome seen env)
      → IsKnown (read_page c up now page seen rows)
  unfolding read_page
  read_page-IsKnown now page seen rows before some_ids =
      elim (Result-cases (fetch_page c up page tt).0) [
        | inr (x, lost) ↦ rw lost tt
        | inl (env, fetched) ↦
            rw fetched
              (read_envelope-IsKnown now page seen env rows fetched before (some_ids env fetched))
      ]

  abbrev IsCovered : Pass (List Uuid) → Type 0
  IsCovered none = Unit
  IsCovered (some (ok seen, rows)) = AreKnown seen
  IsCovered (some (fail x, rows)) = Unit

  go_on-IsCovered :
      (rest : List Uuid → List Branch → Pass (List Uuid)) (o : Result SyncError Round × List Branch)
      → IsKnown o
      → ((seen : List Uuid) (rows : List Branch) → AreKnown seen → IsCovered (rest seen rows))
      → IsCovered (go_on rest o)
  go_on-IsCovered rest (ok (finished seen), rows) known keeps = known
  go_on-IsCovered rest (ok (next seen), rows) known keeps = keeps seen rows known
  go_on-IsCovered rest (fail x, rows) known keeps = tt

  read_pages-IsCovered :
      (clock : ℕ → ℕ) (fuel page : ℕ) (seen : List Uuid) (rows : List Branch)
      → All IsReported seen
      → ((env : ContractEnvelope) → (fetch_page c up page tt).0 ≡ ok env → IsSome seen env)
      → IsCovered (read_pages c up clock fuel page seen rows)
  unfolding read_pages
  read_pages-IsCovered clock zero page seen rows before some_ids = tt
  read_pages-IsCovered clock (suc fuel) page seen rows before some_ids =
      go_on-IsCovered (read_pages c up clock fuel (page + 1))
        (read_page c up (clock page) page seen rows)
        (read_page-IsKnown (clock page) page seen rows before some_ids)
        (λ seen' rows' h.
          read_pages-IsCovered clock fuel (page + 1) seen' rows' h.0
            (λ env fetched. omega (arith, h.1)))

  retire_row-is_stale :
      (now : ℕ) (seen : List Uuid) (b : Branch) → is_stale seen (retire_row c up now seen b) ≡ false
  unfolding retire_row
  retire_row-is_stale now seen b = ground arith

  map-is_stale :
      (now : ℕ) (seen : List Uuid) (rows : List Branch)
      → All (λ b. is_stale seen b ≡ false) (map (retire_row c up now seen) rows)
  map-is_stale now seen [] = tt
  map-is_stale now seen (b ∷ rows) = (retire_row-is_stale now seen b, map-is_stale now seen rows)

  is_stale-IsReported :
      (b : Branch) (seen : List Uuid)
      → any (λ id. id == b.id) seen ≡ true
      → All IsReported seen
      → IsReported b.id
  is_stale-IsReported b [] among known = absurd (ground (arith, among))
  is_stale-IsReported b (id ∷ seen) among (here, there) = elim (Bool-cases (id == b.id)) [
    | inl same ↦ subst IsReported (ground (arith, same)) here
    | inr other ↦ is_stale-IsReported b seen (ground (arith, among, other)) there
  ]

  All-Any :
      (P : Branch → Type 0) (rows : List Branch) (b : Branch)
      → All P rows
      → Any (λ x. x ≡ b) rows
      → P b
  All-Any P [] b every held = elim held [ ]
  All-Any P (x ∷ rows) b every (inl here) = subst P here every.0
  All-Any P (x ∷ rows) b every (inr there) = All-Any P rows b every.1 there

  reconcile-IsReported :
      (now : ℕ) (p : Pass (List Uuid)) {rows' : List Branch} (b : Branch)
      → reconcile c up now p ≡ some (ok tt, rows')
      → IsCovered p
      → Any (λ x. x ≡ b) rows'
      → b.org_id ≡ c.org_id
      → b.active ≡ true
      → IsReported b.id
  unfolding deactivate_absent
  reconcile-IsReported now none b ends known held own active = absurd (ground (arith, ends))
  reconcile-IsReported now (some (fail y, rows)) b ends known held own active =
      absurd (ground (arith, ends))
  reconcile-IsReported now (some (ok [], rows)) b ends known held own active =
      absurd (omega (arith, known.1))
  reconcile-IsReported now (some (ok (id ∷ ids), rows)) b ends known held own active =
      let stored : Any (λ x. x ≡ b) (map (retire_row c up now (id ∷ ids)) rows) =
        subst (λ x. Any (λ y. y ≡ b) x) (ground (arith, ends)) held in
      let fresh =
        All-Any (λ x. is_stale (id ∷ ids) x ≡ false) _ b (map-is_stale now (id ∷ ids) rows)
          stored in
      is_stale-IsReported b (id ∷ ids) (ground (arith, fresh, own, active)) known.0

  -- After a pass that succeeds and whose first page reports some branch, an active branch of the
  -- organisation is one that some page reports.
  pub tick-IsReported :
      (clock : ℕ → ℕ) (now fuel : ℕ) (rows : List Branch) {rows' : List Branch} (b : Branch)
      → tick c up clock now fuel rows ≡ some (ok tt, rows')
      → ((env : ContractEnvelope)
          → (fetch_page c up 1 tt).0 ≡ ok env
          → 0 < length (ids_of c up env.items))
      → Any (λ x. x ≡ b) rows'
      → b.org_id ≡ c.org_id
      → b.active ≡ true
      → IsReported b.id
  unfolding tick
  tick-IsReported clock now fuel rows b ends some_ids held own active =
      reconcile-IsReported now (read_pages c up clock fuel 1 [] rows) b ends
        (read_pages-IsCovered clock fuel 1 [] rows tt
          (λ env fetched. omega (arith, some_ids env fetched)))
        held own active
