-- ===== src/Oauth2/Revoked.antt =====
-- The tokens of a code end with the sessions of its user (`StoreSession` in `ExchangeCodeForTokens` of
-- internal/service/oauth2/token.go, and `RevokeAllUserSessions` of internal/service/session/service.go).
use auth.Base.{String, arith, eq_iff, fail, ok, refl, some, sym, ℕ, ◌<◌, ◌∙◌, ◌≡◌, ◌≢◌}
use auth.Redis.{Available, Redis, hit}
use auth.Session.Data.{Claims, Env, Key, SessionData, Value, session, session_json, session_revoked}
use auth.Session.Access.{verify_access_token}
use auth.Session.Service.{store_session, revoke_all_user_sessions}
use auth.Session.Store as Store
use auth.Session.Store.{new_session}
use auth.Session.Revocation.{verify-revoke_all_user_sessions}
use auth.Oauth2.Data.{AuthCode, Crypto, TokenResponse}
use auth.Oauth2.Store.{AuthCodeStore}
use auth.Oauth2.Token.{Drawn, World, exchange_code_for_tokens}
use auth.Oauth2.Exchange.{exchange-session}

module _ {r : Redis Key Value} (q : Available r) (e : Env) (ttl : ℕ) where
  get-store_session :
      (now : ℕ) (spare id user org : String) (s : r.State)
      → 0 < ttl
      → id ≢ ""
      → (d : SessionData) × (r.get (session d.id) (store_session r e ttl now spare id user org s).1
          ≡ hit (session_json d))
        × (d.user_id ≡ user)
        × (d.id ≡ id)
  unfolding store_session Store.create new_session
  get-store_session now spare id user org s lives named =
      (_, q.get-set_self _ _ ttl s lives, refl, ground (arith, named, eq_iff id ""))

  -- With a store whose time to live is positive, once the token service has given an access token
  -- for a code, and that token names the session drawn for it, revoking all sessions of the code's
  -- user refuses the token from then on.
  exchange-revoked :
      (c : AuthCodeStore) (k : Crypto) (now : ℕ) (d : Drawn) (code verifier uri : String)
      {a : AuthCode} {given : TokenResponse} {claims : Claims} (w : World c.State r.State)
      → 0 < ttl
      → d.session_id ≢ ""
      → c.get_by_code code w.codes ≡ some a
      → (exchange_code_for_tokens r e ttl c k now d code verifier uri w).0 ≡ ok given
      → e.verify_access_token given.access_token ≡ some claims
      → claims.session_id ≡ d.session_id
      → let w' = (exchange_code_for_tokens r e ttl c k now d code verifier uri w).1 in
        let s' = (revoke_all_user_sessions r e ttl (e.uuid_string a.user_id) w'.redis).1 in
        (verify_access_token r e given.access_token s').0 ≡ fail session_revoked
  exchange-revoked c k now d code verifier uri {a} {given} w lives named found done valid names =
      let kept = exchange-session r e ttl c k now d code verifier uri w found done in
      let (x, stored, owner, same) =
        get-store_session now d.spare_id d.session_id (e.uuid_string a.user_id)
          (e.uuid_string a.org_id) w.redis lives named in
      rw kept
        (verify-revoke_all_user_sessions q e ttl (e.uuid_string a.user_id) given.access_token x _
          stored owner valid (names ∙ sym same)).1
