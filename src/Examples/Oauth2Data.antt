-- ===== src/Examples/Oauth2Data.antt =====
-- A client `c1` for the web, another for machines, digests that can be told apart by eye, and requests.
use auth.Base.{
  Bool, List, String, Uuid, [], codes, false, if◌then◌else◌, none, some, str_eq, true, ℕ, ◌==◌, ◌∷◌,
}
use auth.Session.Data.{Claims}
use auth.Strings.{same_codes}
use auth.Oauth2.Http.{Deps, Form}
use auth.Oauth2.Authorize.{AuthorizeRequest}
use auth.Oauth2.Register.{DcrRequest, Registration}
use auth.Oauth2.Data.{AuthCode, Client, Crypto}
use auth.Oauth2.Store.{AuthCodeStore, postgres}
use auth.Oauth2.Token.{Drawn, World}
use auth.Oauth2.Once.{Attempt}
use auth.Examples.Memory.{memory, store}

abbrev pub crypto : Crypto
crypto = record {
  sha256 = λ s. codes s;
  base64_raw_url = λ h. if same_codes h (codes "verifier") then "challenge" else "other";
  base64_std = λ h. if same_codes h (codes "s3cret") then "digest" else "other";
  hex = λ h. "hex";
  base64_decode = λ s. if str_eq s "YzE" then some "c1:s3cret" else none;
}

abbrev pub client : String → String → Client
client id kind = record {
  id = if str_eq kind "web" then 2 else 3;
  client_id = id;
  org_id = 1;
  name = "";
  description = "";
  app_url = "";
  icon_name = "";
  icon_color = "";
  client_type = kind;
  token_endpoint_auth_method = "client_secret_basic";
  allowed_scopes = [];
  allowed_redirect_uris = "https://app/cb/" ∷ [];
  allowed_origins = [];
  client_secret_hash = "digest";
  public_key_jwk = "";
  token_expiration = 900;
  refresh_token_expiration = 28800;
  allow_multiple_tokens = false;
  skip_consent_screen = false;
  is_active = true;
  created_at = 0;
  updated_at = 0;
}

abbrev pub stored_code : AuthCode
stored_code = record {
  code = "abc";
  client_id = "c1";
  redirect_uri = "https://app/cb";
  scope = "openid";
  user_id = 7;
  username = "ani";
  email = "ani@example.org";
  org_id = 1;
  roles = [];
  branch_id = "";
  code_challenge = "challenge";
  code_challenge_method = "S256";
  expires_at = 400;
  code_used = false;
}

abbrev pub pg : AuthCodeStore
pg = postgres (λ a. true)

abbrev pub world : List AuthCode → World pg.State memory.State
world rows = record {
  codes = rows;
  clients = client "c1" "web" ∷ client "m1" "machine" ∷ [];
  redis = store none;
}

abbrev pub deps : Deps
deps = record {
  has_client_svc = true;
  has_code_svc = true;
  has_token_svc = true;
  has_session_svc = true;
  has_oidc_svc = true;
  default_org_id = "";
}

abbrev pub drawn : Drawn
drawn = record { session_id = "s9"; spare_id = "s10"; refresh_token = "r9" }

abbrev pub attempt : ℕ → Attempt
attempt now = record {
  now = now;
  drawn = drawn;
  code_verifier = "verifier";
  redirect_uri = "https://app/cb";
}

abbrev pub form : String → String → String → Form
form grant id secret = record {
  grant_type = grant;
  code = "abc";
  code_verifier = "verifier";
  redirect_uri = "https://app/cb";
  client_id = id;
  client_secret = secret;
  scope = "";
  subject_token = "";
  refresh_token = "";
  token = "";
}

abbrev pub request : AuthorizeRequest
request = record {
  client_id = "c1";
  redirect_uri = "https://app/cb";
  response_type = "code";
  scope = none;
  state = "xyz";
  code_challenge = "challenge";
  code_challenge_method = none;
}

abbrev pub bearer_claims : Claims
bearer_claims = record {
  subject = "user-7";
  session_id = "s1";
  org_id = "org-1";
  client_id = "";
  roles = [];
  scope = "";
  branch_id = "";
  username = "";
  email = "";
  branch_code = "";
  issued_at = 0;
  expires_at = 0;
  act = none;
}

abbrev pub has_org : Uuid → Bool
has_org id = id == 1

abbrev pub registration : Registration
registration = record { id = 7; suffix = "abcdefgh"; plain_secret = "s3cret" }

abbrev pub dcr_request : DcrRequest
dcr_request = record {
  client_name = "batch";
  redirect_uris = [];
  grant_types = "client_credentials" ∷ [];
  scope = "openid profile";
  token_endpoint_auth_method = "";
}
