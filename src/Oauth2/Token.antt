-- ===== src/Oauth2/Token.antt =====
-- `TokenService` (internal/service/oauth2/token.go) and `UserInfo` (internal/service/oauth2/oidc.go), over
-- the store of codes, the table of clients and the sessions in Redis.
use auth.Base.{
  Effect, Option, Result, String, Uuid, [], dropped, fail, false, found_or, none, not, ok,
  refuse_if, return, some, str_eq, true, ℕ, ◌>>=◌, ◌>>◌,
}
use auth.Redis.{Redis}
use auth.Session.Data.{Claims, Env, Key, Value}
use auth.Session.Service.{store_session}
use auth.Strings.{append}
use auth.Oauth2.Data.{
  AuthCode, Client, Crypto, IntrospectionResponse, OauthError, TokenResponse, invalid_grant,
  invalid_redirect_uri, token_failed, unauthorized_client,
}
use auth.Oauth2.Client.{Clients, get_by_client_id, is_confidential, has_grant}
use auth.Oauth2.Store.{AuthCodeStore}
use auth.Oauth2.Codes.{exchange_auth_code}

pub record World (C R : Type 0) : Type 0 where
  pub codes : C
  pub clients : Clients
  pub redis : R

pub record UserInfoResponse : Type 0 where
  pub sub : String
  pub name : String
  pub email : String
  pub scope : String

-- The values that one exchange draws: `uuid.New()` for the session, another that is not used as the
-- session has an id, and `GenerateRefreshToken`.
pub record Drawn : Type 0 where
  pub session_id : String
  pub spare_id : String
  pub refresh_token : String

module _ {C R : Type 0} {E A : Type 0} where
  -- A call on one part of the state.
  abbrev pub on_codes : Effect E C A → Effect E (World C R) A
  on_codes call w = let (o, s) = call w.codes in (o, record w { codes = s })

  abbrev pub on_clients : Effect E Clients A → Effect E (World C R) A
  on_clients call w = let (o, s) = call w.clients in (o, record w { clients = s })

  abbrev pub on_redis : Effect E R A → Effect E (World C R) A
  on_redis call w = let (o, s) = call w.redis in (o, record w { redis = s })

-- A call whose errors are answered, each by the given function.
abbrev pub answered : {D E A : Type 0} → (D → E) → Result D A → Result E A
answered f (ok a) = ok a
answered f (fail d) = fail (f d)

abbrev pub or_answer : {S D E A : Type 0} → (D → E) → Effect D S A → Effect E S A
or_answer f call s = let (o, s') = call s in (answered f o, s')

-- The claims of a token that OAuth2 issues.
unfoldable pub code_claims : Env → Client → AuthCode → Claims
code_claims e client a = record {
  subject = "";
  session_id = "";
  org_id = "";
  client_id = e.uuid_string client.id;
  roles = a.roles;
  scope = a.scope;
  branch_id = a.branch_id;
  username = a.username;
  email = a.email;
  branch_code = "";
  issued_at = 0;
  expires_at = 0;
  act = none;
}

unfoldable pub machine_claims : String → String → Claims
machine_claims client_id scope = record {
  subject = "";
  session_id = "";
  org_id = "";
  client_id = client_id;
  roles = [];
  scope = scope;
  branch_id = "";
  username = "";
  email = "";
  branch_code = "";
  issued_at = 0;
  expires_at = 0;
  act = none;
}

module _ (r : Redis Key Value) (e : Env) (ttl : ℕ) (c : AuthCodeStore) (k : Crypto) where
  unfoldable pub bearer : String → String → String → TokenResponse
  bearer access_token refresh_token scope = record {
    access_token = access_token;
    token_type = "Bearer";
    expires_in = e.token_ttl;
    refresh_token = refresh_token;
    scope = scope;
    id_token = "";
  }

  unfoldable pub exchange_code_for_tokens :
      ℕ → Drawn → String → String → String → Effect OauthError (World c.State r.State) TokenResponse
  unfolding exchange_auth_code get_by_client_id store_session code_claims bearer
  exchange_code_for_tokens now d code code_verifier redirect_uri = do
    a ← on_codes (exchange_auth_code c k now code code_verifier)
    refuse_if (not (str_eq a.redirect_uri redirect_uri)) invalid_redirect_uri
    client ← on_clients (get_by_client_id a.client_id)
    refuse_if (not client.is_active) unauthorized_client
    token ←
        found_or token_failed
          (e.issue_access_token d.session_id a.user_id a.org_id (code_claims e client a))
    dropped (
        on_redis (
          store_session r e ttl now d.spare_id d.session_id (e.uuid_string a.user_id)
            (e.uuid_string a.org_id)))
    return (bearer token d.refresh_token a.scope)

  -- `user_id` is a `uuid.New()`.
  unfoldable pub client_credentials :
      Uuid → String → String → Effect OauthError (World c.State r.State) TokenResponse
  unfolding get_by_client_id is_confidential has_grant machine_claims bearer
  client_credentials user_id client_id scope = do
    client ← on_clients (get_by_client_id client_id)
    refuse_if (not (is_confidential client)) unauthorized_client
    refuse_if (not (has_grant client "client_credentials")) invalid_grant
    token ← found_or token_failed (
        e.issue_access_token (append "m2m-" client_id) user_id client.org_id
          (machine_claims client_id scope))
    return (bearer token "" scope)

unfoldable pub introspection : Option Claims → IntrospectionResponse
introspection none = record {
  active = false;
  client_id = "";
  username = "";
  token_type = "";
  exp = 0;
  iat = 0;
  sub = "";
  scope = "";
}
introspection (some claims) = record {
  active = true;
  client_id = claims.client_id;
  username = claims.username;
  token_type = "access_token";
  exp = claims.expires_at;
  iat = claims.issued_at;
  sub = claims.subject;
  scope = claims.scope;
}

unfoldable pub introspect_token : Env → String → IntrospectionResponse
unfolding introspection
introspect_token e token = introspection (e.verify_access_token token)

unfoldable pub info_of : Option Claims → Option UserInfoResponse
info_of none = none
info_of (some claims) = some (record {
  sub = claims.subject;
  name = claims.username;
  email = claims.email;
  scope = claims.scope;
})

unfoldable pub user_info : Env → String → Option UserInfoResponse
unfolding info_of
user_info e token = info_of (e.verify_access_token token)
