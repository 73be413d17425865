-- ===== src/Session/Branches.antt =====
-- What `RefreshTokens` of internal/service/session/service.go does on each of its branches.
use auth.Base.{String, false, none, refl, true, ℕ, ◌≡◌, as_option, fail}
use auth.Redis.{Redis, hit}
use auth.Session.Data.{
  Claims, Env, Fresh, Key, LoginResult, Outcome, RefreshTokenData, Value, refresh, refresh_json,
  session, token_revoked,
}
use auth.Session.Store.{decode_session}
use auth.Session.Store as Store
use auth.Session.Refresh.{is_some}
use auth.Session.Refresh as Refresh
use auth.Session.Service.{refresh_tokens, on_token, on_reuse, rotate}

-- The claims of a refreshed token.
abbrev pub refreshed_claims : RefreshTokenData → Claims
refreshed_claims t = record {
  subject = "";
  session_id = "";
  org_id = "";
  client_id = t.client_id;
  roles = t.scopes;
  scope = "";
  branch_id = "";
  username = "";
  email = "";
  branch_code = "";
  issued_at = 0;
  expires_at = 0;
  act = none;
}

module _ (r : Redis Key Value) (e : Env) (ttl now : ℕ) (fresh : Fresh) (token ip : String)
    {t : RefreshTokenData} {s : r.State}
    (stored : r.get (refresh (e.hash_token token)) s ≡ hit (refresh_json t)) where
  abbrev run : Outcome LoginResult × r.State
  run = refresh_tokens r e ttl now fresh token ip s

  pub revoked_branch : is_some t.revoked_at ≡ true → run.0 ≡ fail token_revoked
  unfolding refresh_tokens Refresh.get_by_hash Refresh.decode_token on_token
  revoked_branch revoked = rw stored (rw revoked refl)

  pub reuse_branch :
      is_some t.revoked_at ≡ false
      → is_some t.used_at ≡ true
      → run ≡ on_reuse r e ttl now fresh (e.hash_token token) ip t true s
  unfolding refresh_tokens Refresh.get_by_hash Refresh.decode_token on_token Refresh.is_reuse
  reuse_branch live used = rw stored (rw live (rw stored (rw used refl)))

  pub unused_branch :
      is_some t.revoked_at ≡ false
      → is_some t.used_at ≡ false
      → run
        ≡ rotate r e ttl now fresh
            (e.hash_token token)
            ip
            t
            (as_option (decode_session (r.get (session t.session_id) s)))
            s
  unfolding refresh_tokens Refresh.get_by_hash Refresh.decode_token on_token Refresh.is_reuse
      on_reuse Store.get
  unused_branch live unused = rw stored (rw live (rw stored (rw unused refl)))
