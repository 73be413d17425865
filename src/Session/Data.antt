-- ===== src/Session/Data.antt =====
-- The records of internal/service/session, the keys under which Redis keeps them, and the effects of
-- its functions: a function takes the state of Redis and returns its outcome with the new state.
use auth.Base.{Bool, Effect, List, Option, Result, String, Uuid, fail, if◌then◌else◌, ok, ℕ}

pub record SessionData : Type 0 where
  pub id : String
  pub user_id : String
  pub org_id : String
  pub active_branch_id : String
  pub assigned_branch_ids : List String
  pub roles : List String
  pub permissions : List String
  pub ip_address : String
  pub user_agent : String
  pub device_info : String
  pub created_at : ℕ
  pub expires_at : ℕ
  pub last_used_at : ℕ
  pub mfa_verified : Bool
  pub source : String

pub record RefreshTokenData : Type 0 where
  pub token_id : String
  pub family_id : String
  pub token_hash : String
  pub user_id : String
  pub org_id : String
  pub client_id : String
  pub session_id : String
  pub scopes : List String
  pub issued_at : ℕ
  pub expires_at : ℕ
  pub used_at : Option ℕ
  pub revoked_at : Option ℕ

-- A key by its format: "session:%s", "refresh:%s", "refresh_family:%s", "blacklist:%s" and
-- "blacklist_session:%s". The prefixes differ, and none begins another.
pub data Key : Type 0 where
  session refresh refresh_family blacklist blacklist_session : String → Key

-- What a key holds: the JSON text of a record, which decodes to that record, or "1".
pub data Value : Type 0 where
  session_json : SessionData → Value
  refresh_json : RefreshTokenData → Value
  one : Value

pub data Error : Type 0 where
  redis_get redis_set redis_del redis_exec redis_scan redis_exists smembers_failed unmarshal : Error
  session_not_found token_not_found token_revoked token_reuse ip_mismatch : Error
  issue_failed invalid_token session_revoked : Error

abbrev pub Outcome : Type 0 → Type 0
Outcome A = Result Error A

abbrev pub M : Type 0 → Type 0 → Type 0
M S A = Effect Error S A

abbrev pub written : {S : Type 0} → Error → S × Bool → Outcome (Unit {0}) × S
written e (s, accepted) = (if accepted then ok tt else fail e, s)

-- What the service takes from elsewhere: SHA-256, the uuid package and the JWT service.
pub record Claims : Type 0 where
  pub subject : String
  pub session_id : String
  pub org_id : String
  pub client_id : String
  pub roles : List String
  pub scope : String
  pub branch_id : String
  pub username : String
  pub email : String
  pub branch_code : String
  pub issued_at : ℕ
  pub expires_at : ℕ
  pub act : Option String

pub record Env : Type 0 where
  pub hash_token : String → String
  pub uuid_string : Uuid → String
  pub parse_uuid : String → Uuid × Bool
  pub token_ttl : ℕ
  pub issue_access_token : String → Uuid → Uuid → Claims → Option String
  pub verify_access_token : String → Option Claims

-- The random values that one call draws.
pub record Fresh : Type 0 where
  pub session_id : String
  pub token_id : String
  pub family_id : String
  pub refresh_token : String

pub record LoginResult : Type 0 where
  pub access_token : String
  pub refresh_token : String
  pub expires_in : ℕ
  pub session_id : String
  pub user_id : Uuid
  pub org_id : Uuid
