-- ===== src/Account/Single.antt =====
-- A user has one session at a time: `RevokeAllUserSessions` in `HandleLogin` of
-- internal/api/rest/auth.go.
use auth.Base.{List, Option-cases, String, arith, fail, inl, inr, ok, some, ℕ, ◌∙◌, ◌≡◌}
use auth.Redis.{Available, Redis, hit}
use auth.Session.Data.{
  Claims, Env, Fresh, Key, LoginResult, SessionData, Value, blacklist_session, session,
  session_json, session_revoked,
}
use auth.Session.Access.{verify_access_token}
use auth.Session.Service.{revoke_all_user_sessions, create_session}
use auth.Session.Frame.{get-start_session_ne}
use auth.Session.Revocation.{revoke_all_user_sessions-IsEnded, verify_access_token-IsListed}
use auth.Account.Data.{User, UserCredential, get_current_by_user_id}
use auth.Account.Login.{
  Accounts, LoginRequest, find_user, handle_login, logged_in, login_user, new_login,
}

module _ {r : Redis Key Value} (q : Available r) (e : Env) (ttl : ℕ) (x : Accounts) where
  get-new_login :
      (id : String) (now : ℕ) (fresh : Fresh) (ip user_agent : String) (u : User) (s : r.State)
      → r.get (blacklist_session id) (new_login r e ttl x now fresh ip user_agent u s).1
        ≡ r.get (blacklist_session id) (revoke_all_user_sessions r e ttl (e.uuid_string u.id) s).1
  unfolding new_login create_session
  get-new_login id now fresh ip user_agent u s =
      get-start_session_ne q e ttl (blacklist_session id) now fresh u.id u.org_id _ _ _ _ _
        (ground arith) (ground arith) (ground arith)

  handle_login-new_login :
      (users : List User) (credentials : List UserCredential) (now : ℕ) (fresh : Fresh)
      (ip user_agent : String) (req : LoginRequest) {u : User} (s : r.State) {given : LoginResult}
      → find_user x.lower req.username users ≡ some u
      → (handle_login r e ttl x users credentials now fresh ip user_agent (some req) s).0
        ≡ ok (logged_in given)
      → handle_login r e ttl x users credentials now fresh ip user_agent (some req) s
        ≡ new_login r e ttl x now fresh ip user_agent u s
  unfolding handle_login login_user
  handle_login-new_login users credentials now fresh ip user_agent req {u} s found given_so =
      elim (Option-cases (get_current_by_user_id u.id credentials)) [
        | inl missing ↦ absurd (ground (arith, given_so, found, missing))
        | inr (cred, current) ↦ ground (arith, given_so, found, current)
      ]

  -- Once a user is logged in, every access token that names an earlier session of that user, which
  -- Redis held under its own id, is refused.
  pub handle_login-revoked :
      (users : List User) (credentials : List UserCredential) (now : ℕ) (fresh : Fresh)
      (ip user_agent token : String) (req : LoginRequest) {u : User} (d : SessionData)
      {claims : Claims} (s : r.State) {given : LoginResult}
      → find_user x.lower req.username users ≡ some u
      → (handle_login r e ttl x users credentials now fresh ip user_agent (some req) s).0
        ≡ ok (logged_in given)
      → r.get (session d.id) s ≡ hit (session_json d)
      → d.user_id ≡ e.uuid_string u.id
      → e.verify_access_token token ≡ some claims
      → claims.session_id ≡ d.id
      → let s' =
          (handle_login r e ttl x users credentials now fresh ip user_agent (some req) s).1 in
        (verify_access_token r e token s').0 ≡ fail session_revoked
  handle_login-revoked users credentials now fresh ip user_agent token req {u} d s found given_so
        stored owner valid names =
      rw (handle_login-new_login users credentials now fresh ip user_agent req s found given_so) (
        verify_access_token-IsListed q e ttl token d.id _ valid names (
          get-new_login d.id now fresh ip user_agent u s
          ∙ (revoke_all_user_sessions-IsEnded q e ttl (e.uuid_string u.id) d s stored owner).1))
