-- ===== src/Keys/Tokens.antt =====
-- internal/service/jwt/service.go: access tokens are issued with the active key, and verified with the
-- key that their header names.
use auth.Base.{
  Effect, List, Option, Result, String, Uuid, fail, found_or, if◌then◌else◌, none, not, ok,
  refuse_if, return, some, ℕ, ◌+◌, ◌==◌, ◌>>=◌, ◌>>◌,
}
use auth.Session.Data.{Claims}
use auth.Keys.Jwt.{Jwt, SignedClaims}
use auth.Keys.Manager.{
  Jwk, KeyError, KeyManager, RotatedKeyManager, active_key, bad_method, bad_token, generate_new_key,
  get_key, jwks, key_not_found, missing_kid, new_rotated_key_manager, no_active_key, signing_failed,
}

pub record AccessToken : Type 0 where
  pub token_id : String
  pub session_id : String
  pub user_id : Uuid
  pub org_id : Uuid
  pub client_id : String
  pub expires_at : ℕ
  pub issued_at : ℕ

module _ (j : Jwt) (month : ℕ → String) where
  pub record Service : Type 0 where
    pub key_manager : RotatedKeyManager j
    pub issuer : String
    pub audience : List String
    pub token_ttl : ℕ

  -- `NewService`; a duration below zero acts as zero does. The error of the generator is dropped.
  unfoldable pub new_service : Option j.PrivateKey → ℕ → String → List String → ℕ → Service
  unfolding generate_new_key
  new_service key now issuer audience ttl = record {
    key_manager = (generate_new_key j month key now (new_rotated_key_manager j)).1;
    issuer = issuer;
    audience = audience;
    token_ttl = if ttl == 0 then 900 else ttl;
  }

  abbrev pub Step : Type 0 → Type 0
  Step A = Effect KeyError Service A

  abbrev pub with_keys :
      Service
      → Result KeyError (KeyManager j) × RotatedKeyManager j
      → Result KeyError (Unit {0}) × Service
  with_keys s (ok km, rm) = (ok tt, record s { key_manager = rm })
  with_keys s (fail x, rm) = (fail x, record s { key_manager = rm })

  unfoldable pub rotate_key : Option j.PrivateKey → ℕ → Step (Unit {0})
  unfolding generate_new_key
  rotate_key key now s = with_keys s (generate_new_key j month key now s.key_manager)

  -- The receiver of a method that only reads it.
  abbrev pub receiver : Step Service
  receiver s = (ok s, s)

  module _ (uuid_string : Uuid → String) where
    -- The claims that `IssueAccessToken` signs.
    unfoldable pub access_claims :
        Service → ℕ → String → String → Uuid → Uuid → Claims → SignedClaims
    access_claims s now token_id sid user org c = record {
      issuer = s.issuer;
      audience = s.audience;
      id = token_id;
      claims = record c {
        subject = uuid_string user;
        session_id = sid;
        org_id = uuid_string org;
        issued_at = now;
        expires_at = now + s.token_ttl;
      };
    }

    unfoldable pub issue_access_token :
        ℕ → String → String → Uuid → Uuid → Claims → Step (j.Token × AccessToken)
    unfolding active_key access_claims
    issue_access_token now token_id sid user org c = do
      s ← receiver
      km ← found_or no_active_key (active_key j s.key_manager)
      token ←
          found_or signing_failed
            (j.sign km.private_key km.kid (access_claims s now token_id sid user org c))
      return (
        token,
        record {
          token_id = token_id;
          session_id = sid;
          user_id = user;
          org_id = org;
          client_id = c.client_id;
          expires_at = now + s.token_ttl;
          issued_at = now;
        },
      )

  -- The key that the header names.
  unfoldable pub key_of : j.Token → Step j.PublicKey
  unfolding get_key
  key_of token = do
    s ← receiver
    refuse_if (not (j.is_rsa token)) bad_method
    kid ← found_or missing_kid (j.kid token)
    km ← found_or key_not_found (get_key j kid s.key_manager)
    return (j.public_key km.private_key)

  unfoldable pub verify_access_token : ℕ → j.Token → Step SignedClaims
  unfolding key_of
  verify_access_token now token = do
    public ← key_of token
    claims ← found_or bad_token (j.claims_of token)
    refuse_if (not (j.verifies public token now)) bad_token
    return claims

  unfoldable pub get_jwks : Service → List Jwk
  unfolding jwks
  get_jwks s = jwks j s.key_manager

  unfoldable pub get_active_kid : Service → String
  unfolding active_key
  get_active_kid s = elim (active_key j s.key_manager) [ none ↦ "" | some km ↦ km.kid ]
