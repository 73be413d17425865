-- ===== src/Branch/Sync.antt =====
-- The poller that copies the branches of the enterprise service
-- (internal/service/branchsync/poller.go). The HTTP client and the JSON decoder are parameters, and so
-- is `uuid.Parse`.
use auth.Base.{
  Bool, Effect, List, Option, Result, String, Uuid, [], any, fail, false, found_or, if◌then◌else◌,
  leb, ltb, map, none, not, ok, refuse_if, return, some, str_eq, suc, true, zero, ℕ, ◌&&◌, ◌++◌,
  ◌+◌, ◌==◌, ◌>>=◌, ◌>>◌, ◌||◌, ◌∷◌,
}
use auth.Branch.Data.{Branch, has_branch}

-- `total_pages` is an int; one below zero acts as zero does.
pub record BranchProjectionItem : Type 0 where
  pub branch_id : String
  pub branch_code : String
  pub status : String

pub record ContractEnvelope : Type 0 where
  pub items : List BranchProjectionItem
  pub total_pages : ℕ

pub record Config : Type 0 where
  pub source_url : String
  pub client_id : String
  pub client_secret : String
  pub token_endpoint : String
  pub org_id : Uuid
  pub interval : ℕ
  pub per_page : ℕ
  pub http_timeout : ℕ

-- `NewPoller`; a time is in seconds.
unfoldable pub with_defaults : Config → Config
with_defaults c = record c {
  interval = if c.interval == 0 then 300 else c.interval;
  per_page = if c.per_page == 0 then 200 else c.per_page;
  http_timeout = if c.http_timeout == 0 then 30 else c.http_timeout;
}

unfoldable pub is_enabled : Config → Bool
is_enabled c = not (str_eq c.source_url "") && not (str_eq c.client_id "")

-- What the poller takes from elsewhere. An answer is a status and a body; `none` is an error of the
-- client.
pub record Upstream : Type 0 where
  pub post_token : String → String → Option (ℕ × String)
  pub token_of : String → Option String
  pub get_page : String → ℕ → ℕ → Option (ℕ × String)
  pub envelope_of : String → Option ContractEnvelope
  pub parse_uuid : String → Option Uuid
  pub equal_fold : String → String → Bool

pub data SyncError : Type 0 where
  token_http token_status token_parse token_empty : SyncError
  page_http page_status page_decode : SyncError
  upsert_failed : SyncError

abbrev pub Call : Type 0 → Type 0
Call A = Effect SyncError (List Branch) A

-- A call that leaves the table alone.
abbrev pub Ask : Type 0 → Type 0
Ask A = Effect SyncError (Unit {0}) A

abbrev pub asked : {A : Type 0} → Ask A → Call A
asked call rows = ((call tt).0, rows)

pub data Round : Type 0 where
  finished next : List Uuid → Round

-- The outcome of a loop that may run out of fuel, with the table that it leaves.
abbrev pub Pass : Type 0 → Type 0
Pass A = Option (Result SyncError A × List Branch)

abbrev pub go_on :
    (List Uuid → List Branch → Pass (List Uuid))
    → Result SyncError Round × List Branch
    → Pass (List Uuid)
go_on rest (ok (finished seen), rows) = some (ok seen, rows)
go_on rest (ok (next seen), rows) = rest seen rows
go_on rest (fail x, rows) = some (fail x, rows)

abbrev pub reported : Option Uuid → List Uuid → List Uuid
reported none ids = ids
reported (some id) ids = id ∷ ids

-- A page is one transaction: a statement that fails leaves the table as it was.
abbrev pub settled :
    {A : Type 0} → List Branch → Result SyncError A × List Branch → Result SyncError A × List Branch
settled before (ok a, rows) = (ok a, rows)
settled before (fail x, rows) = (fail x, before)

abbrev pub committed : {A : Type 0} → Call A → Call A
committed call rows = settled rows (call rows)

abbrev pub is_empty : {A : Type 0} → List A → Bool
is_empty [] = true
is_empty (x ∷ xs) = false

module _ (c : Config) (up : Upstream) where
  unfoldable pub get_m2m_token : Ask String
  get_m2m_token = do
    answer ← found_or token_http (up.post_token c.client_id c.client_secret)
    refuse_if (not (answer.0 == 200)) token_status
    token ← found_or token_parse (up.token_of answer.1)
    refuse_if (str_eq token "") token_empty
    return token

  unfoldable pub fetch_page : ℕ → Ask ContractEnvelope
  unfolding get_m2m_token
  fetch_page page = do
    token ← get_m2m_token
    answer ← found_or page_http (up.get_page token page c.per_page)
    refuse_if (leb 400 answer.0) page_status
    found_or page_decode (up.envelope_of answer.1)

  -- `INSERT … ON CONFLICT (id) DO UPDATE … WHERE branches.updated_at < EXCLUDED.updated_at`. A row that
  -- is written with a code that another branch of the organisation has fails the statement.
  unfoldable pub refresh_row : ℕ → Uuid → String → Bool → Branch → Branch
  refresh_row now id code active b =
      if b.id == id && ltb b.updated_at now
      then record b { org_id = c.org_id; branch_code = code; active = active; updated_at = now }
      else b

  abbrev pub code_taken : Uuid → String → List Branch → Bool
  code_taken id code =
      any (λ b. not (b.id == id) && b.org_id == c.org_id && str_eq b.branch_code code)

  unfoldable pub upsert_branch : ℕ → Uuid → String → Bool → Call (Unit {0})
  unfolding refresh_row
  upsert_branch now id code active rows =
      if code_taken id code rows
        && (not (has_branch id rows) || any (λ b. b.id == id && ltb b.updated_at now) rows)
      then (fail upsert_failed, rows)
      else (
        ok tt,
        if has_branch id rows
            then map (refresh_row now id code active) rows
            else rows
              ++ (record {
                id = id;
                org_id = c.org_id;
                branch_code = code;
                name = "";
                active = active;
                updated_at = now;
              })
                ∷ [],
      )

  -- The ids that a page reports, in its order; one that is no UUID is skipped.
  unfoldable pub ids_of : List BranchProjectionItem → List Uuid
  ids_of [] = []
  ids_of (item ∷ items) = reported (up.parse_uuid item.branch_id) (ids_of items)

  unfoldable pub upsert_parsed :
      ℕ → BranchProjectionItem → Option Uuid → Call (Unit {0}) → Call (Unit {0})
  unfolding upsert_branch
  upsert_parsed now item none rest = rest
  upsert_parsed now item (some id) rest =
      upsert_branch now id item.branch_code (up.equal_fold item.status "active") >> rest

  -- The statements of one page, without their transaction.
  unfoldable pub upsert_items : ℕ → List BranchProjectionItem → Call (Unit {0})
  unfolding upsert_parsed
  upsert_items now [] = return tt
  upsert_items now (item ∷ items) =
      upsert_parsed now item (up.parse_uuid item.branch_id) (upsert_items now items)

  unfoldable pub upsert_batch : ℕ → List BranchProjectionItem → List Uuid → Call (List Uuid)
  unfolding upsert_items ids_of
  upsert_batch now items seen = committed (upsert_items now items >> return (ids_of items ++ seen))

  unfoldable pub retire_row : ℕ → List Uuid → Branch → Branch
  retire_row now seen b =
      if b.org_id == c.org_id && b.active && not (any (λ id. id == b.id) seen)
      then record b { active = false; updated_at = now }
      else b

  unfoldable pub deactivate_absent : ℕ → List Uuid → Call (Unit {0})
  unfolding retire_row
  deactivate_absent now [] rows = (ok tt, rows)
  deactivate_absent now (id ∷ ids) rows = (ok tt, map (retire_row now (id ∷ ids)) rows)

  -- A round of the loop of `tick`: whether the loop goes on, with the ids that were seen.
  unfoldable pub read_envelope : ℕ → ℕ → List Uuid → ContractEnvelope → Call Round
  unfolding upsert_batch
  read_envelope now page seen env =
      if is_empty env.items
      then return (finished seen)
      else (upsert_batch now env.items seen >>= λ seen'.
          return (if leb env.total_pages page then finished seen' else next seen'))

  unfoldable pub read_page : ℕ → ℕ → List Uuid → Call Round
  unfolding fetch_page read_envelope
  read_page now page seen = asked (fetch_page page) >>= read_envelope now page seen

  -- The loop, on fuel; `clock` is the time at which each page is written.
  unfoldable pub read_pages : (ℕ → ℕ) → ℕ → ℕ → List Uuid → List Branch → Pass (List Uuid)
  unfolding read_page
  read_pages clock zero page seen rows = none
  read_pages clock (suc fuel) page seen rows =
      go_on (read_pages clock fuel (page + 1)) (read_page (clock page) page seen rows)

  abbrev pub reconcile : ℕ → Pass (List Uuid) → Pass (Unit {0})
  reconcile now none = none
  reconcile now (some (fail x, rows)) = some (fail x, rows)
  reconcile now (some (ok seen, rows)) = some (deactivate_absent now seen rows)

  unfoldable pub tick : (ℕ → ℕ) → ℕ → ℕ → List Branch → Pass (Unit {0})
  unfolding read_pages deactivate_absent
  tick clock now fuel rows = reconcile now (read_pages clock fuel 1 [] rows)
