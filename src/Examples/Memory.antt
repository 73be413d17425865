-- ===== src/Examples/Memory.antt =====
-- Sessions and tokens to run the service on.
use auth.Base.{
  Bool, Option, String, [], arith, eq_iff, false, if◌then◌else◌, none, some, str_eq, true, ℕ, ◌==◌,
  ◌↔◌, ◌∷◌, ◌≡◌, ◌≢◌,
}
use auth.Redis.{Available, Redis}
use auth.Examples.Map.{Store, map_redis, map_redis-Available}
use auth.Session.Data.{
  Env, Fresh, Key, RefreshTokenData, SessionData, Value, blacklist, blacklist_session, refresh,
  refresh_family, refresh_json, session, session_json,
}

abbrev pub same_key : Key → Key → Bool
same_key (session a) (session b) = str_eq a b
same_key (refresh a) (refresh b) = str_eq a b
same_key (refresh_family a) (refresh_family b) = str_eq a b
same_key (blacklist a) (blacklist b) = str_eq a b
same_key (blacklist_session a) (blacklist_session b) = str_eq a b
same_key j k = false

same_key_iff : (j k : Key) → (same_key j k ≡ true) ↔ (j ≡ k)
same_key_iff (session a) (session b) = ground (arith, eq_iff a b)
same_key_iff (refresh a) (refresh b) = ground (arith, eq_iff a b)
same_key_iff (refresh_family a) (refresh_family b) = ground (arith, eq_iff a b)
same_key_iff (blacklist a) (blacklist b) = ground (arith, eq_iff a b)
same_key_iff (blacklist_session a) (blacklist_session b) = ground (arith, eq_iff a b)
same_key_iff j k = ground arith

abbrev pub memory : Redis Key Value
memory = map_redis same_key

pub memory-Available : Available memory
memory-Available = map_redis-Available same_key same_key_iff

-- A hash and an issuer that can be told apart by eye.
abbrev pub env : Env
env = record {
  hash_token = λ t. t;
  uuid_string = λ u. if u == 7 then "user-7" else "org-1";
  parse_uuid = λ t. (if str_eq t "user-7" then 7 else 1, true);
  token_ttl = 900;
  issue_access_token = λ id user org claims. some id;
  verify_access_token = λ t. some (record {
    subject = "user-7";
    session_id = t;
    org_id = "org-1";
    client_id = "";
    roles = [];
    scope = "";
    branch_id = "";
    username = "";
    email = "";
    branch_code = "";
    issued_at = 0;
    expires_at = 0;
    act = none;
  });
}

abbrev pub session_data : String → String → SessionData
session_data id ip = record {
  id = id;
  user_id = "user-7";
  org_id = "org-1";
  active_branch_id = "";
  assigned_branch_ids = [];
  roles = [];
  permissions = [];
  ip_address = ip;
  user_agent = "";
  device_info = "";
  created_at = 0;
  expires_at = 900;
  last_used_at = 0;
  mfa_verified = true;
  source = "";
}

abbrev pub token_data : Option ℕ → RefreshTokenData
token_data used = record {
  token_id = "t";
  family_id = "f";
  token_hash = "secret";
  user_id = "user-7";
  org_id = "org-1";
  client_id = "";
  session_id = "s1";
  scopes = [];
  issued_at = 0;
  expires_at = 1000;
  used_at = used;
  revoked_at = none;
}

abbrev pub store : Option ℕ → Store Key Value
store used = record {
  values =
      (session "s1", session_json (session_data "s1" "10.0.0.1"))
      ∷ (session "s2", session_json (session_data "s2" "10.0.0.2"))
      ∷ (refresh "secret", refresh_json (token_data used))
      ∷ [];
  sets = (refresh_family "f", "secret") ∷ [];
}

abbrev pub fresh : Fresh
fresh = record { session_id = "s3"; token_id = "t3"; family_id = "f3"; refresh_token = "new" }

pub differ : (a b : String) → str_eq a b ≡ false → a ≢ b
differ a b h = ground (arith, eq_iff a b)
