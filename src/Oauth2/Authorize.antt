-- ===== src/Oauth2/Authorize.antt =====
-- The authorization endpoints: `handleAuthorize` and `handleAuthorizeWithSession` of
-- internal/api/rest/oauth2.go.
use auth.Base.{
  Effect, Option, String, Uuid, [], found_or, if◌then◌else◌, none, not, refuse_if, return, some,
  str_eq, ℕ, ◌&&◌, ◌>>=◌, ◌>>◌, ◌||◌,
}
use auth.Redis.{Redis}
use auth.Session.Data.{Claims, Env, Key, Value}
use auth.Session.Access.{verify_access_token}
use auth.Strings.{append}
use auth.Oauth2.Data.{AuthCode, AuthCodeParams, Client, Crypto}
use auth.Oauth2.Client.{get_by_client_id, validate_redirect_uri}
use auth.Oauth2.Store.{AuthCodeStore}
use auth.Oauth2.Codes.{create_auth_code}
use auth.Oauth2.Token.{World, on_codes, on_clients, on_redis, or_answer}
use auth.Oauth2.Http.{
  Deps, Response, answer, answer_with, bad_request, unauthorized, server_error, bearer_token,
  request_basic_auth, location, redirect_url,
}

-- The parameters of the query, or the JSON body; `none` where a default is taken for a parameter
-- that is missing and not for one that is empty.
pub record AuthorizeRequest : Type 0 where
  pub client_id : String
  pub redirect_uri : String
  pub response_type : String
  pub scope : Option String
  pub state : String
  pub code_challenge : String
  pub code_challenge_method : Option String

-- `c.DefaultQuery`
abbrev pub default_to : String → Option String → String
default_to given none = given
default_to given (some value) = value

-- `if value == "" { value = … }`, a missing value being empty.
abbrev pub nonempty_or : String → Option String → String
nonempty_or given none = given
nonempty_or given (some value) = if str_eq value "" then given else value

unfoldable pub code_location : String → String → String → String
code_location redirect_uri code state =
    append (append (append redirect_uri "?code=") code)
      (if str_eq state "" then "" else append "&state=" state)

module _ (r : Redis Key Value) (e : Env) (c : AuthCodeStore) (k : Crypto) (deps : Deps) where
  -- The client of a request, if it is known and active and the URI is one of its own.
  unfoldable pub registered_client :
      String → String → Effect Response (World c.State r.State) Client
  unfolding get_by_client_id validate_redirect_uri
  registered_client client_id redirect_uri = do
    client ← or_answer (λ x. bad_request "invalid_client") (on_clients (get_by_client_id client_id))
    refuse_if (not client.is_active) (bad_request "invalid_client")
    refuse_if (not (validate_redirect_uri client redirect_uri)) (bad_request "invalid_redirect_uri")
    return client

  -- A valid user id, given as the name of a user with any password.
  unfoldable pub named_user : String → Effect Response (World c.State r.State) Uuid
  unfolding request_basic_auth
  named_user header = do
    given ← found_or (unauthorized "login_required") (request_basic_auth k header)
    refuse_if (str_eq given.0 "") (unauthorized "login_required")
    refuse_if (not (e.parse_uuid given.0).1) (bad_request "invalid_request")
    return (e.parse_uuid given.0).0

  unfoldable pub issue_code :
      ℕ → Option String → AuthCodeParams → Effect Response (World c.State r.State) AuthCode
  unfolding create_auth_code
  issue_code now drawn p = do
    refuse_if (not deps.has_code_svc) server_error
    or_answer (λ x. server_error) (on_codes (create_auth_code c now drawn p))

  unfoldable pub handle_authorize :
      ℕ
      → Option String
      → AuthorizeRequest
      → String
      → World c.State r.State
      → Response × World c.State r.State
  unfolding registered_client named_user issue_code code_location
  handle_authorize now drawn req header = answer (do
    refuse_if (not (str_eq req.response_type "code")) (bad_request "unsupported_response_type")
    refuse_if (str_eq req.client_id "" || str_eq req.redirect_uri "")
        (bad_request "invalid_request")
    refuse_if (not deps.has_client_svc) server_error
    client ← registered_client req.client_id req.redirect_uri
    user_id ← named_user header
    code ← issue_code now drawn (record {
      client_id = req.client_id;
      redirect_uri = req.redirect_uri;
      scope = default_to "openid" req.scope;
      user_id = user_id;
      username = "";
      email = "";
      org_id = client.org_id;
      roles = [];
      branch_id = "";
      code_challenge = req.code_challenge;
      code_challenge_method = default_to "S256" req.code_challenge_method;
    })
    return (answer_with 302 (location (code_location req.redirect_uri code.code req.state))))

  -- The user that the token was issued to, while the session is not revoked.
  unfoldable pub token_claims : String → Effect Response (World c.State r.State) Claims
  unfolding bearer_token verify_access_token
  token_claims header = do
    token ← found_or (unauthorized "invalid_token") (bearer_token header)
    refuse_if (not deps.has_session_svc) server_error
    or_answer (λ x. unauthorized "invalid_token") (on_redis (verify_access_token r e token))

  -- `body` is `none` if it is no JSON.
  unfoldable pub handle_authorize_with_session :
      ℕ
      → Option String
      → Option AuthorizeRequest
      → String
      → World c.State r.State
      → Response × World c.State r.State
  unfolding token_claims registered_client issue_code code_location
  handle_authorize_with_session now drawn body header = answer (do
    claims ← token_claims header
    refuse_if (not (e.parse_uuid claims.subject).1) (unauthorized "invalid_token")
    req ← found_or (bad_request "invalid_request") body
    refuse_if (str_eq req.client_id "" || str_eq req.redirect_uri "")
        (bad_request "invalid_request")
    refuse_if (not (str_eq req.response_type "") && not (str_eq req.response_type "code"))
        (bad_request "unsupported_response_type")
    refuse_if (not deps.has_client_svc) server_error
    client ← registered_client req.client_id req.redirect_uri
    code ← issue_code now drawn (record {
      client_id = req.client_id;
      redirect_uri = req.redirect_uri;
      scope = nonempty_or "openid" req.scope;
      user_id = (e.parse_uuid claims.subject).0;
      username = claims.username;
      email = claims.email;
      org_id = client.org_id;
      roles = claims.roles;
      branch_id = claims.branch_id;
      code_challenge = req.code_challenge;
      code_challenge_method = nonempty_or "S256" req.code_challenge_method;
    })
    return (answer_with 200 (redirect_url (code_location req.redirect_uri code.code req.state))))
