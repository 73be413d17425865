-- ===== src/Examples/Branch.antt =====
-- Passes of the branch poller at concrete inputs.
use auth.Base.{
  Any, List, Result, String, [], arith, fail, false, if◌then◌else◌, inl, inr, ok, refl, some,
  str_eq, true, ℕ, ◌==◌, ◌∷◌, ◌≡◌,
}
use auth.Branch.Data.{Branch}
use auth.Branch.Sync.{
  Config, ContractEnvelope, SyncError, Upstream, fetch_page, get_m2m_token, ids_of, page_status,
  tick,
}
use auth.Branch.Pages.{IsBounded, tick_total}
use auth.Branch.Outage.{IsUnreported, tick-IsStored}
use auth.Branch.Tombstones.{IsReported, tick-IsReported}

abbrev config : Config
config = record {
  source_url = "https://enterprise7";
  client_id = "auth7";
  client_secret = "s";
  token_endpoint = "https://auth7/oauth2/token";
  org_id = 1;
  interval = 300;
  per_page = 1;
  http_timeout = 30;
}

-- Two pages of one branch each.
abbrev envelope : String → ContractEnvelope
envelope body = record {
  items =
      (record {
        branch_id = if str_eq body "p1" then "10" else "11";
        branch_code = if str_eq body "p1" then "HQ" else "BR";
        status = "Active";
      })
      ∷ [];
  total_pages = 2;
}

-- The status with which the second page is answered.
abbrev source : ℕ → Upstream
source second = record {
  post_token = λ id secret. some (200, "t");
  token_of = λ body. some body;
  get_page = λ token page count. some (if page == 1 then (200, "p1") else (second, "p2"));
  envelope_of = λ body. some (envelope body);
  parse_uuid = λ t. some (if str_eq t "10" then 10 else 11);
  equal_fold = λ x y. true;
}

abbrev branch : ℕ → ℕ → Branch
branch id time = record {
  id = id;
  org_id = 1;
  branch_code = if id == 10 then "HQ" else if id == 11 then "BR" else "OLD";
  name = "";
  active = true;
  updated_at = time;
}

abbrev known : List Branch
known = branch 10 0 ∷ branch 12 0 ∷ []

fetch_page-page :
    (second page : ℕ) {env : ContractEnvelope}
    → (fetch_page config (source second) page tt).0 ≡ ok env
    → env ≡ envelope (if page == 1 then "p1" else "p2")
unfolding fetch_page get_m2m_token
fetch_page-page second page fetched = ground (arith, fetched)

source-IsBounded : IsBounded config (source 200) 2
source-IsBounded page env fetched =
    let same = fetch_page-page 200 page fetched in rw same (omega arith)

tick_total_example :
    (o : Result SyncError (Unit {0}) × List Branch) × (tick config
        (source 200)
        (λ page. 50)
        60
        3
        known
      ≡ some o)
tick_total_example =
    tick_total config (source 200) (λ page. 50) 60 2 3 known source-IsBounded (omega arith)

abbrev after_pass : List Branch
after_pass = branch 10 50 ∷ record (branch 12 60) { active = false } ∷ branch 11 50 ∷ []

tick-known : tick config (source 200) (λ page. 50) 60 3 known ≡ some (ok tt, after_pass)
unfolding tick
tick-known = refl

tick-IsReported_example : IsReported config (source 200) 11
unfolding ids_of
tick-IsReported_example =
    tick-IsReported config (source 200) (λ page. 50) 60 3 known (branch 11 50) tick-known
      (λ env fetched. rw (fetch_page-page 200 1 fetched) (omega arith)) (inr (inr (inl refl))) refl
      refl

-- The second page is refused, and branch 12, which the source no longer has, stays active.
abbrev after_refusal : List Branch
after_refusal = branch 10 50 ∷ branch 12 0 ∷ []

tick-refused_lem :
    tick config (source 503) (λ page. 50) 60 3 known ≡ some (fail page_status, after_refusal)
unfolding tick
tick-refused_lem = refl

source-IsUnreported : IsUnreported config (source 503) (branch 12 0)
unfolding ids_of
source-IsUnreported page env fetched = rw (fetch_page-page 503 page fetched) (ground arith)

tick-IsStored_example : Any (λ x. x ≡ branch 12 0) after_refusal
tick-IsStored_example =
    tick-IsStored config (source 503) (branch 12 0) (λ page. 50) 60 3 known after_refusal
      tick-refused_lem source-IsUnreported (inr (inl refl))
