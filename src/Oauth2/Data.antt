-- ===== src/Oauth2/Data.antt =====
-- The records of internal/service/oauth2 and internal/domain/client.go. A time is in seconds.
use auth.Base.{Bool, List, Option, String, Uuid, ℕ}

pub record AuthCode : Type 0 where
  pub code : String
  pub client_id : String
  pub redirect_uri : String
  pub scope : String
  pub user_id : Uuid
  pub username : String
  pub email : String
  pub org_id : Uuid
  pub roles : List String
  pub branch_id : String
  pub code_challenge : String
  pub code_challenge_method : String
  pub expires_at : ℕ
  pub code_used : Bool

pub record AuthCodeParams : Type 0 where
  pub client_id : String
  pub redirect_uri : String
  pub scope : String
  pub user_id : Uuid
  pub username : String
  pub email : String
  pub org_id : Uuid
  pub roles : List String
  pub branch_id : String
  pub code_challenge : String
  pub code_challenge_method : String

pub record Client : Type 0 where
  pub id : Uuid
  pub client_id : String
  pub org_id : Uuid
  pub name : String
  pub description : String
  pub app_url : String
  pub icon_name : String
  pub icon_color : String
  pub client_type : String
  pub token_endpoint_auth_method : String
  pub allowed_scopes : List String
  pub allowed_redirect_uris : List String
  pub allowed_origins : List String
  pub client_secret_hash : String
  pub public_key_jwk : String
  pub token_expiration : ℕ
  pub refresh_token_expiration : ℕ
  pub allow_multiple_tokens : Bool
  pub skip_consent_screen : Bool
  pub is_active : Bool
  pub created_at : ℕ
  pub updated_at : ℕ

pub record CreateClientParams : Type 0 where
  pub name : String
  pub description : String
  pub client_type : String
  pub token_endpoint_auth_method : String
  pub allowed_scopes : List String
  pub allowed_redirect_uris : List String
  pub allowed_origins : List String
  pub token_expiration : ℕ
  pub refresh_token_expiration : ℕ
  pub allow_multiple_tokens : Bool
  pub skip_consent_screen : Bool

-- The errors of errors.go that are returned, and those of the database, of the random source and of
-- the token service.
pub data OauthError : Type 0 where
  code_already_used code_expired invalid_code_verifier invalid_redirect_uri : OauthError
  invalid_grant unauthorized_client : OauthError
  store_failed random_failed token_failed : OauthError

pub record TokenResponse : Type 0 where
  pub access_token : String
  pub token_type : String
  pub expires_in : ℕ
  pub refresh_token : String
  pub scope : String
  pub id_token : String

pub record IntrospectionResponse : Type 0 where
  pub active : Bool
  pub client_id : String
  pub username : String
  pub token_type : String
  pub exp : ℕ
  pub iat : ℕ
  pub sub : String
  pub scope : String

-- SHA-256 and the encodings of its digest, which are not under src/.
pub record Crypto : Type 0 where
  pub sha256 : String → List ℕ
  pub base64_raw_url : List ℕ → String
  pub base64_std : List ℕ → String
  pub hex : List ℕ → String
  pub base64_decode : String → Option String
