-- ===== src/Oauth2/Register.antt =====
-- The registration of clients: `handleDCR` of internal/api/rest/oauth2.go.
use auth.Base.{
  Bool, List, Option, String, Uuid, [], elem, false, found_or, if◌then◌else◌, length, nil_uuid, not,
  refuse_if, return, str_eq, ℕ, ◌&&◌, ◌==◌, ◌>>=◌, ◌>>◌, ◌∷◌,
}
use auth.Session.Data.{Env}
use auth.Strings.{append, fields}
use auth.Oauth2.Data.{CreateClientParams, Crypto}
use auth.Oauth2.Client.{create_with_secret_hash}
use auth.Oauth2.Token.{World, on_clients, or_answer}
use auth.Oauth2.Http.{
  Deps, Response, answer, answer_with, bad_request, hash_client_secret, registered, server_error,
}

pub record DcrRequest : Type 0 where
  pub client_name : String
  pub redirect_uris : List String
  pub grant_types : List String
  pub scope : String
  pub token_endpoint_auth_method : String

-- `uuid.New()` for the client, the eight characters of another for its name, and the secret.
pub record Registration : Type 0 where
  pub id : Uuid
  pub suffix : String
  pub plain_secret : String

unfoldable pub requested_grants : DcrRequest → List String
requested_grants req =
    if length req.grant_types == 0 then "authorization_code" ∷ [] else req.grant_types

-- `00000000-0000-0000-0000-000000000001` stands for an organisation that is not configured.
unfoldable pub organisation : Env → Deps → Uuid
organisation e deps =
    let configured =
      if not (str_eq deps.default_org_id "") && (e.parse_uuid deps.default_org_id).1
      then (e.parse_uuid deps.default_org_id).0
      else nil_uuid in
    if configured == nil_uuid then 1 else configured

unfoldable pub dcr_params : Registration → DcrRequest → CreateClientParams
unfolding requested_grants fields
dcr_params d req = record {
  name = if str_eq req.client_name "" then append "DCR Client " d.suffix else req.client_name;
  description = "";
  client_type = if elem "client_credentials" (requested_grants req) then "machine" else "web";
  token_endpoint_auth_method =
      if str_eq req.token_endpoint_auth_method ""
      then "client_secret_basic"
      else req.token_endpoint_auth_method;
  allowed_scopes = fields req.scope;
  allowed_redirect_uris = req.redirect_uris;
  allowed_origins = [];
  token_expiration = 900;
  refresh_token_expiration = 28800;
  allow_multiple_tokens = false;
  skip_consent_screen = false;
}

-- `has_org` tells the organisations that exist.
module _ {C R : Type 0} (has_org : Uuid → Bool) (e : Env) (k : Crypto) (deps : Deps) where
  unfoldable pub handle_dcr :
      ℕ → Registration → Option DcrRequest → World C R → Response × World C R
  unfolding organisation dcr_params hash_client_secret create_with_secret_hash requested_grants
  handle_dcr now d body = answer (do
    req ← found_or (bad_request "invalid_request") body
    refuse_if (not deps.has_client_svc) server_error
    client ←
        or_answer (λ x. server_error)
          (on_clients (
            create_with_secret_hash has_org e.uuid_string now d.id (organisation e deps)
              (dcr_params d req) (hash_client_secret k d.plain_secret)))
    return (
        answer_with 201 (
          registered (record {
            client_id = e.uuid_string client.id;
            client_secret = d.plain_secret;
            client_id_issued_at = client.created_at;
            client_secret_expires_at = 0;
            redirect_uris = client.allowed_redirect_uris;
            grant_types = requested_grants req;
            response_types = "code" ∷ [];
            scope = req.scope;
            token_endpoint_auth_method = client.token_endpoint_auth_method;
          }))))
