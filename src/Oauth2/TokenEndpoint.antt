-- ===== src/Oauth2/TokenEndpoint.antt =====
-- The token endpoint and those that read tokens: `handleToken` and the handlers that it calls,
-- `handleIntrospect` and `handleUserInfo` of internal/api/rest/oauth2.go.
use auth.Base.{
  Effect, String, Uuid, found_or, if◌then◌else◌, nil_uuid, none, not, refuse_if, return, some,
  str_eq, ℕ, ◌&&◌, ◌>>=◌, ◌>>◌, ◌||◌,
}
use auth.Redis.{Redis}
use auth.Session.Data.{Env, Key, Value}
use auth.Session.Access.{verify_access_token, issue_delegated_access_token}
use auth.Strings.{or_empty}
use auth.Oauth2.Data.{Client, Crypto, TokenResponse}
use auth.Oauth2.Client.{get_by_client_id, is_confidential}
use auth.Oauth2.Store.{AuthCodeStore}
use auth.Oauth2.Token.{
  Drawn, World, on_clients, on_redis, or_answer, exchange_code_for_tokens, client_credentials,
  introspect_token, user_info,
}
use auth.Oauth2.Http.{
  Deps, Form, Response, answer, answer_with, bad_request, unauthorized, server_error, credentials,
  verify_client_secret, map_oauth_error, parse_basic_auth, bearer_token, tokens, introspected, user,
}

unfoldable pub handle_token_refresh : Form → Response
handle_token_refresh form =
    if str_eq form.refresh_token ""
    then bad_request "invalid_request"
    else bad_request "unsupported_grant_type"

unfoldable pub delegated : String → String → TokenResponse
delegated access_token scope = record {
  access_token = access_token;
  token_type = "Bearer";
  expires_in = 900;
  refresh_token = "";
  scope = if str_eq scope "" then "openid profile" else scope;
  id_token = "";
}

-- The token of the form, or else of the header.
unfoldable pub introspected_token : Form → String → String
unfolding bearer_token
introspected_token form header =
    if str_eq form.token "" then or_empty (bearer_token header) else form.token

module _ (r : Redis Key Value) (e : Env) (ttl : ℕ) (c : AuthCodeStore) (k : Crypto)
    (deps : Deps) where
  abbrev pub Handler : Type 0 → Type 0
  Handler A = Effect Response (World c.State r.State) A

  unfoldable pub known_client : String → Handler Client
  unfolding get_by_client_id
  known_client client_id =
      or_answer (λ x. unauthorized "invalid_client") (on_clients (get_by_client_id client_id))

  -- A client that is active and gives its secret.
  unfoldable pub authenticated_client : String → String → Handler Client
  unfolding known_client verify_client_secret
  authenticated_client client_id client_secret = do
    client ← known_client client_id
    refuse_if (not client.is_active) (unauthorized "invalid_client")
    refuse_if (not (verify_client_secret k client_secret client.client_secret_hash))
        (unauthorized "invalid_client")
    return client

  unfoldable pub token_exchange : ℕ → Drawn → Form → String → Handler Response
  unfolding credentials known_client is_confidential verify_client_secret exchange_code_for_tokens
      map_oauth_error
  token_exchange now d form header = do
    refuse_if
        (str_eq form.code ""
          || str_eq (credentials k header form).0 ""
          || str_eq form.redirect_uri "")
        (bad_request "invalid_request")
    refuse_if (not deps.has_token_svc || not deps.has_client_svc) server_error
    client ← known_client (credentials k header form).0
    refuse_if
        (is_confidential client
          && not (verify_client_secret k (credentials k header form).1 client.client_secret_hash))
        (unauthorized "invalid_client")
    given ←
        or_answer map_oauth_error (
          exchange_code_for_tokens r e ttl c k now d form.code form.code_verifier form.redirect_uri)
    return (answer_with 200 (tokens given))

  unfoldable pub client_credentials_grant : Uuid → Form → String → Handler Response
  unfolding credentials authenticated_client client_credentials map_oauth_error
  client_credentials_grant user_id form header = do
    refuse_if (str_eq (credentials k header form).0 "" || str_eq (credentials k header form).1 "")
        (unauthorized "invalid_client")
    refuse_if (not deps.has_client_svc || not deps.has_token_svc) server_error
    client ← authenticated_client (credentials k header form).0 (credentials k header form).1
    given ←
        or_answer map_oauth_error
          (client_credentials r e ttl c k user_id (credentials k header form).0 form.scope)
    return (answer_with 200 (tokens given))

  unfoldable pub delegated_token_exchange : Uuid → Form → String → Handler Response
  unfolding credentials authenticated_client delegated
  delegated_token_exchange nil_id form header = do
    refuse_if
        (str_eq form.subject_token ""
          || str_eq (credentials k header form).0 ""
          || str_eq (credentials k header form).1 "")
        (bad_request "invalid_request")
    refuse_if (not deps.has_client_svc) server_error
    client ← authenticated_client (credentials k header form).0 (credentials k header form).1
    refuse_if (not deps.has_session_svc) server_error
    token ←
        or_answer (λ x. bad_request "invalid_request")
          (on_redis (issue_delegated_access_token r e nil_id form.subject_token))
    return (answer_with 200 (tokens (delegated token form.scope)))

  unfoldable pub handle_token :
      ℕ → Drawn → Uuid → Form → String → World c.State r.State → Response × World c.State r.State
  unfolding token_exchange client_credentials_grant delegated_token_exchange handle_token_refresh
  handle_token now d user_id form header =
      if str_eq form.grant_type "authorization_code"
      then answer (token_exchange now d form header)
      else if str_eq form.grant_type "urn:ietf:params:oauth:grant-type:token-exchange"
      then answer (delegated_token_exchange nil_uuid form header)
      else if str_eq form.grant_type "refresh_token"
      then answer (return (handle_token_refresh form))
      else if str_eq form.grant_type "client_credentials"
      then answer (client_credentials_grant user_id form header)
      else answer (return (bad_request "unsupported_grant_type"))

  -- A client that gives its secret in the form; any that parse in the header are taken.
  unfoldable pub introspecting_client : Form → String → Handler (Unit {0})
  unfolding parse_basic_auth authenticated_client
  introspecting_client form header = elim (parse_basic_auth k header) [
    | some given ↦ return tt
    | none ↦ (do
      refuse_if (str_eq form.client_id "" || str_eq form.client_secret "")
          (unauthorized "invalid_client")
      if deps.has_client_svc
          then authenticated_client form.client_id form.client_secret >>= (λ client. return tt)
          else return tt)
  ]

  unfoldable pub handle_introspect :
      Form → String → World c.State r.State → Response × World c.State r.State
  unfolding introspected_token introspecting_client introspect_token
  handle_introspect form header = answer (do
    refuse_if (str_eq (introspected_token form header) "") (bad_request "invalid_request")
    introspecting_client form header
    refuse_if (not deps.has_token_svc) server_error
    return (answer_with 200 (introspected (introspect_token e (introspected_token form header)))))

  unfoldable pub unrevoked : String → Handler (Unit {0})
  unfolding verify_access_token
  unrevoked token =
      if deps.has_session_svc
      then or_answer (λ x. unauthorized "invalid_token") (on_redis (verify_access_token r e token))
        >>= (λ claims. return tt)
      else return tt

  -- Without the OIDC service it ends in a type assertion on the JWT service that does not hold.
  unfoldable pub handle_user_info :
      String → World c.State r.State → Response × World c.State r.State
  unfolding bearer_token unrevoked user_info
  handle_user_info header = answer (do
    token ← found_or (unauthorized "invalid_token") (bearer_token header)
    unrevoked token
    refuse_if (not deps.has_oidc_svc) server_error
    info ← found_or (unauthorized "invalid_token") (user_info e token)
    return (answer_with 200 (user info)))
