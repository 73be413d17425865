-- ===== src/Session/Service.antt =====
-- The session service (internal/service/session/service.go). `now` is the clock in seconds, read once by an
-- operation; `ttl` is the time to live of the session store.
use auth.Base.{
  Bool, List, Option, String, Uuid, [], false, if◌then◌else◌, none, pos, some, str_eq, true, ℕ, ◌+◌,
  ◌∷◌, dropped, fail, ok, quiet, return, throw, ◌>>=◌, ◌>>◌,
}
use auth.Redis.{Redis}
use auth.Session.Data.{
  Claims, Env, Fresh, Key, LoginResult, M, RefreshTokenData, SessionData, Value, ip_mismatch,
  issue_failed, session_not_found, token_not_found, token_reuse, token_revoked,
}
use auth.Session.Store.{decode_session}
use auth.Session.Store as Store
use auth.Session.Refresh.{is_some, eight_hours}
use auth.Session.Refresh as Refresh
use auth.Session.Device.{device_from_ua}

-- `uuid.New()` for the session, the token and its family, and `GenerateRefreshToken`.
module _ (r : Redis Key Value) (e : Env) (ttl : ℕ) where
  -- The record of a token that is issued now.
  unfoldable pub issued_token :
      ℕ → Fresh → String → String → String → List String → RefreshTokenData
  unfolding eight_hours
  issued_token now fresh user_id org_id client_id scopes = record {
    token_id = fresh.token_id;
    family_id = fresh.family_id;
    token_hash = e.hash_token fresh.refresh_token;
    user_id = user_id;
    org_id = org_id;
    client_id = client_id;
    session_id = fresh.session_id;
    scopes = scopes;
    issued_at = now;
    expires_at = now + eight_hours;
    used_at = none;
    revoked_at = none;
  }

  unfoldable pub login_result : Fresh → Uuid → Uuid → String → LoginResult
  login_result fresh user_id org_id access_token = record {
    access_token = access_token;
    refresh_token = fresh.refresh_token;
    expires_in = 900;
    session_id = fresh.session_id;
    user_id = user_id;
    org_id = org_id;
  }

  unfoldable pub issue : Fresh → Uuid → Uuid → Claims → M r.State String
  issue fresh user_id org_id claims s =
      elim (e.issue_access_token fresh.session_id user_id org_id claims) [
        | none ↦ (fail issue_failed, s)
        | some token ↦ (ok token, s)
      ]

  -- The end of `CreateSession` and of `RefreshTokens`: the session record, the access token, and the
  -- refresh token in a new family.
  unfoldable pub start_session :
      ℕ → Fresh → Uuid → Uuid → Claims → String → List String → SessionData → M r.State LoginResult
  unfolding issue issued_token login_result
  start_session now fresh user_id org_id claims client_id scopes given = do
    Store.create r ttl now fresh.session_id given
    access_token ← issue fresh user_id org_id claims
    Refresh.create r now
        (issued_token now fresh (e.uuid_string user_id) (e.uuid_string org_id) client_id scopes)
    return (login_result fresh user_id org_id access_token)

  -- The record of a session that begins with a login.
  unfoldable pub login_session : Fresh → Uuid → Uuid → String → String → Claims → SessionData
  unfolding device_from_ua
  login_session fresh user_id org_id ip_address user_agent claims = record {
    id = fresh.session_id;
    user_id = e.uuid_string user_id;
    org_id = e.uuid_string org_id;
    active_branch_id = claims.branch_id;
    assigned_branch_ids = [];
    roles = claims.roles;
    permissions = [];
    ip_address = ip_address;
    user_agent = user_agent;
    device_info = device_from_ua user_agent;
    created_at = 0;
    expires_at = 0;
    last_used_at = 0;
    mfa_verified = true;
    source = "";
  }

  unfoldable pub create_session :
      ℕ → Fresh → Uuid → Uuid → String → String → Claims → M r.State LoginResult
  unfolding start_session login_session
  create_session now fresh user_id org_id ip_address user_agent claims =
      start_session now fresh user_id org_id claims claims.client_id claims.roles
        (login_session fresh user_id org_id ip_address user_agent claims)

  unfoldable pub validate_found :
      ℕ → String → String → Option SessionData → M r.State (Option SessionData)
  validate_found now id ip_address none s = return none s
  validate_found now id ip_address (some d) s =
      if str_eq d.ip_address ip_address
      then (dropped (Store.update_last_used r ttl now id) >> return (some d)) s
      else (dropped (Store.delete r id) >> throw ip_mismatch) s

  unfoldable pub validate_session : ℕ → String → String → M r.State (Option SessionData)
  unfolding validate_found
  validate_session now id ip_address = Store.get r id >>= validate_found now id ip_address

  -- The rest of `RefreshTokens`, given the session of an unused token.
  unfoldable pub rotate :
      ℕ → Fresh → String → String → RefreshTokenData → Option SessionData → M r.State LoginResult
  unfolding start_session
  rotate now fresh hash ip_address t none s = throw session_not_found s
  rotate now fresh hash ip_address t (some d) s =
      if str_eq d.ip_address ip_address
      then (do
        dropped (Refresh.mark_used r now hash)
        start_session now fresh (e.parse_uuid t.user_id).0 (e.parse_uuid t.org_id).0
            (record {
              subject = "";
              session_id = "";
              org_id = "";
              client_id = t.client_id;
              roles = t.scopes;
              scope = "";
              branch_id = "";
              username = "";
              email = "";
              branch_code = "";
              issued_at = 0;
              expires_at = 0;
              act = none;
            })
            t.client_id t.scopes (record d { id = fresh.session_id; ip_address = ip_address }))
          s
      else (dropped (Store.delete r t.session_id) >> throw ip_mismatch) s

  unfoldable pub on_reuse :
      ℕ → Fresh → String → String → RefreshTokenData → Bool → M r.State LoginResult
  unfolding rotate
  on_reuse now fresh hash ip_address t true = do
    dropped (Refresh.revoke_family r now t.family_id)
    dropped (Store.delete r t.session_id)
    throw token_reuse
  on_reuse now fresh hash ip_address t false =
      quiet (Store.get r t.session_id) >>= rotate now fresh hash ip_address t

  unfoldable pub on_token :
      ℕ → Fresh → String → String → Option RefreshTokenData → M r.State LoginResult
  unfolding on_reuse is_some
  on_token now fresh hash ip_address none s = throw token_not_found s
  on_token now fresh hash ip_address (some t) s =
      if is_some t.revoked_at
      then (dropped (Refresh.revoke_family r now t.family_id) >> throw token_revoked) s
      else (Refresh.is_reuse r hash >>= on_reuse now fresh hash ip_address t) s

  unfoldable pub refresh_tokens : ℕ → Fresh → String → String → M r.State LoginResult
  unfolding on_token
  refresh_tokens now fresh refresh_token ip_address =
      let hash = e.hash_token refresh_token in
      Refresh.get_by_hash r hash >>= on_token now fresh hash ip_address

  unfoldable pub revoke_session : String → M r.State (Unit {0})
  unfolding eight_hours
  revoke_session id = do
    Store.delete r id
    dropped (Refresh.add_session r id (pos eight_hours))
    return tt

  -- The loop of `RevokeAllUserSessions`, which drops every error.
  unfoldable pub revoke_each : List String → r.State → r.State
  unfolding revoke_session
  revoke_each [] s = s
  revoke_each (id ∷ ids) s = revoke_each ids (revoke_session id s).1

  unfoldable pub revoke_all_user_sessions : String → M r.State (Unit {0})
  unfolding revoke_each
  revoke_all_user_sessions user_id = do
    ids ← Store.get_ids_by_user r user_id
    λ s. (ok tt, revoke_each ids s)

  unfoldable pub revoke_all_org_sessions : String → M r.State (Unit {0})
  revoke_all_org_sessions org_id = Store.delete_by_org r org_id

  unfoldable pub store_session : ℕ → String → String → String → String → M r.State (Unit {0})
  store_session now new_id id user_id org_id = Store.create r ttl now new_id (record {
    id = id;
    user_id = user_id;
    org_id = org_id;
    active_branch_id = "";
    assigned_branch_ids = [];
    roles = [];
    permissions = [];
    ip_address = "";
    user_agent = "";
    device_info = "";
    created_at = 0;
    expires_at = 0;
    last_used_at = 0;
    mfa_verified = false;
    source = "oauth";
  })
