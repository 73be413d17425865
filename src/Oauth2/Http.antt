-- ===== src/Oauth2/Http.antt =====
-- What the handlers of internal/api/rest/oauth2.go share: their answers, the services they find, and
-- the helpers at the end of that file. The texts for people (`error_description`) are left out.
use auth.Base.{
  Bool, Effect, List, Option, Result, String, fail, if◌then◌else◌, none, not, ok, some, str_eq, ℕ,
  ◌&&◌, ◌||◌,
}
use auth.Strings.{split_first, strip_prefix, strip_prefix_fold}
use auth.Oauth2.Data.{
  Crypto, IntrospectionResponse, OauthError, TokenResponse, code_already_used, code_expired,
  invalid_code_verifier, invalid_grant, invalid_redirect_uri, random_failed, store_failed,
  token_failed, unauthorized_client,
}
use auth.Oauth2.Token.{UserInfoResponse}

pub record DcrResponse : Type 0 where
  pub client_id : String
  pub client_secret : String
  pub client_id_issued_at : ℕ
  pub client_secret_expires_at : ℕ
  pub redirect_uris : List String
  pub grant_types : List String
  pub response_types : List String
  pub scope : String
  pub token_endpoint_auth_method : String

pub data Body : Type 0 where
  error location redirect_url : String → Body
  tokens : TokenResponse → Body
  introspected : IntrospectionResponse → Body
  user : UserInfoResponse → Body
  registered : DcrResponse → Body

pub record Response : Type 0 where
  pub status : ℕ
  pub body : Body

abbrev pub answer_with : ℕ → Body → Response
answer_with status body = record { status = status; body = body }

abbrev pub bad_request : String → Response
bad_request text = answer_with 400 (error text)

abbrev pub unauthorized : String → Response
unauthorized text = answer_with 401 (error text)

abbrev pub server_error : Response
server_error = answer_with 500 (error "server_error")

abbrev pub response : Result Response Response → Response
response (ok r) = r
response (fail r) = r

-- A handler writes one answer, where it returns early or at its end.
abbrev pub answer : {W : Type 0} → Effect Response W Response → W → Response × W
answer handler w = let (o, w') = handler w in (response o, w')

-- Which services the server has (`s.deps`), and its default organisation.
pub record Deps : Type 0 where
  pub has_client_svc : Bool
  pub has_code_svc : Bool
  pub has_token_svc : Bool
  pub has_session_svc : Bool
  pub has_oidc_svc : Bool
  pub default_org_id : String

-- The values of a POST form; a missing value is empty.
pub record Form : Type 0 where
  pub grant_type : String
  pub code : String
  pub code_verifier : String
  pub redirect_uri : String
  pub client_id : String
  pub client_secret : String
  pub scope : String
  pub subject_token : String
  pub refresh_token : String
  pub token : String

unfoldable pub decoded_credentials : Option String → Option (String × String)
decoded_credentials none = none
decoded_credentials (some payload) = split_first b':' payload

unfoldable pub basic_payload : Crypto → Option (String × String) → Option (String × String)
unfolding decoded_credentials split_first
basic_payload k none = none
basic_payload k (some (scheme, payload)) =
    if str_eq scheme "Basic" then decoded_credentials (k.base64_decode payload) else none

unfoldable pub parse_basic_auth : Crypto → String → Option (String × String)
unfolding basic_payload
parse_basic_auth k auth = basic_payload k (split_first b' ' auth)

abbrev and_decode : Crypto → Option String → Option (String × String)
and_decode k none = none
and_decode k (some payload) = decoded_credentials (k.base64_decode payload)

-- `BasicAuth` of net/http, which takes the name of the scheme in either case.
unfoldable pub request_basic_auth : Crypto → String → Option (String × String)
unfolding strip_prefix_fold decoded_credentials
request_basic_auth k auth = and_decode k (strip_prefix_fold "Basic " auth)

-- The client's id and secret, from the header or else from the form.
unfoldable pub credentials_or : Form → Option (String × String) → String × String
credentials_or form none = (form.client_id, form.client_secret)
credentials_or form (some given) = given

unfoldable pub credentials : Crypto → String → Form → String × String
unfolding credentials_or parse_basic_auth
credentials k auth form = credentials_or form (parse_basic_auth k auth)

unfoldable pub verify_client_secret : Crypto → String → String → Bool
verify_client_secret k plain_secret stored_hash =
    let h = k.sha256 plain_secret in
    not (str_eq stored_hash "")
    && (str_eq (k.hex h) stored_hash || str_eq (k.base64_std h) stored_hash)

unfoldable pub hash_client_secret : Crypto → String → String
hash_client_secret k secret = k.base64_std (k.sha256 secret)

unfoldable pub map_oauth_error : OauthError → Response
map_oauth_error invalid_grant = bad_request "invalid_grant"
map_oauth_error code_already_used = bad_request "invalid_grant"
map_oauth_error code_expired = bad_request "invalid_grant"
map_oauth_error invalid_code_verifier = bad_request "invalid_grant"
map_oauth_error invalid_redirect_uri = bad_request "invalid_grant"
map_oauth_error unauthorized_client = unauthorized "unauthorized_client"
map_oauth_error store_failed = server_error
map_oauth_error random_failed = server_error
map_oauth_error token_failed = server_error

-- `strings.HasPrefix(header, "Bearer ")` and what follows it.
unfoldable pub bearer_token : String → Option String
unfolding strip_prefix
bearer_token auth = strip_prefix "Bearer " auth
