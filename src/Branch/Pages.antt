-- ===== src/Branch/Pages.antt =====
-- The loop of the poller over the pages of the source (`tick` of
-- internal/service/branchsync/poller.go) ends.
use auth.Base.{
  List, Result, Result-cases, Uuid, [], arith, fail, inl, inr, ok, refl, some, suc, zero, ℕ, ◌+◌,
  ◌<◌, ◌≡◌, ◌≤◌,
}
use auth.Branch.Data.{Branch}
use auth.Branch.Sync.{
  Config, ContractEnvelope, Pass, Round, SyncError, Upstream, fetch_page, finished, go_on, next,
  read_envelope, read_page, read_pages, reconcile, tick,
}

go_on_total :
    (rest : List Uuid → List Branch → Pass (List Uuid)) (o : Result SyncError Round × List Branch)
    → ((seen : List Uuid)
        → o.0 ≡ ok (next seen)
        → (x : Result SyncError (List Uuid) × List Branch) × (rest seen o.1 ≡ some x))
    → (x : Result SyncError (List Uuid) × List Branch) × (go_on rest o ≡ some x)
go_on_total rest (ok (finished seen), rows) more = ((ok seen, rows), refl)
go_on_total rest (ok (next seen), rows) more = more seen refl
go_on_total rest (fail x, rows) more = ((fail x, rows), refl)

module _ (c : Config) (up : Upstream) where
  read_envelope-next :
      (now page : ℕ) (seen : List Uuid) (env : ContractEnvelope) (rows : List Branch)
      {seen' : List Uuid}
      → (read_envelope c up now page seen env rows).0 ≡ ok (next seen')
      → page < env.total_pages
  unfolding read_envelope
  read_envelope-next now page seen env rows goes = ground (arith, goes)

  -- Each page that is fetched says how many there are at most.
  abbrev pub IsBounded : ℕ → Type 0
  IsBounded total =
      (page : ℕ) (env : ContractEnvelope)
      → (fetch_page c up page tt).0 ≡ ok env
      → env.total_pages ≤ total

  read_page-next :
      (now page total : ℕ) (seen : List Uuid) (rows : List Branch) {seen' : List Uuid}
      → IsBounded total
      → (read_page c up now page seen rows).0 ≡ ok (next seen')
      → page < total
  unfolding read_page
  read_page-next now page total seen rows {seen'} bounded goes =
      elim (Result-cases (fetch_page c up page tt).0) [
        | inr (x, lost) ↦ absurd (ground (arith, goes, lost))
        | inl (env, fetched) ↦
            let more : (read_envelope c up now page seen env rows).0 ≡ ok (next seen') =
              ground (arith, goes, fetched) in
            omega (arith, bounded page env fetched, read_envelope-next now page seen env rows more)
      ]

  read_pages_total :
      (clock : ℕ → ℕ) (total fuel page : ℕ) (seen : List Uuid) (rows : List Branch)
      → IsBounded total
      → total < fuel + page
      → 0 < fuel
      → (o : Result SyncError (List Uuid) × List Branch) × (read_pages c up clock fuel page seen
            rows
          ≡ some o)
  unfolding read_pages
  read_pages_total clock total zero page seen rows bounded enough some_fuel = absurd (omega arith)
  read_pages_total clock total (suc fuel) page seen rows bounded enough some_fuel =
      go_on_total _ (read_page c up (clock page) page seen rows) (λ seen' goes.
        let below = read_page-next (clock page) page total seen rows bounded goes in
        read_pages_total clock total fuel (page + 1) seen' _ bounded (omega arith) (omega arith))

  reconcile_total :
      (now : ℕ) (o : Result SyncError (List Uuid)) (rows : List Branch)
      → (x : Result SyncError (Unit {0}) × List Branch) × (reconcile c up now (some (o, rows))
          ≡ some x)
  reconcile_total now (ok seen) rows = (_, refl)
  reconcile_total now (fail x) rows = (_, refl)

  -- If the source reports at most some number of pages, a pass ends after that many rounds, and one more.
  pub tick_total :
      (clock : ℕ → ℕ) (now total fuel : ℕ) (rows : List Branch)
      → IsBounded total
      → total < fuel
      → (o : Result SyncError (Unit {0}) × List Branch) × (tick c up clock now fuel rows ≡ some o)
  unfolding tick
  tick_total clock now total fuel rows bounded enough =
      let ((o, rows'), ends) =
        read_pages_total clock total fuel 1 [] rows bounded (omega arith) (omega arith) in
      rw ends (reconcile_total now o rows')
