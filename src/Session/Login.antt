-- ===== src/Session/Login.antt =====
-- A login that is refreshed (`CreateSession` and `RefreshTokens` of internal/service/session/service.go).
use auth.Base.{
  List, String, Uuid, ap, arith, difference, eq_refl, if◌then◌else◌, pos, refl, some, str_eq, ℕ,
  ◌+◌, ◌<◌, ◌∙◌, ◌≡◌, ok,
}
use auth.Redis.{Available, Redis, hit}
use auth.Session.Data.{
  Claims, Env, Fresh, Key, LoginResult, Outcome, RefreshTokenData, SessionData, Value, refresh,
  refresh_json, session, session_json,
}
use auth.Session.Store.{decode_session, new_session, positive_or}
use auth.Session.Store as Store
use auth.Session.Refresh.{is_some, eight_hours}
use auth.Session.Refresh as Refresh
use auth.Session.Service.{
  login_session, create_session, refresh_tokens, start_session, issue, issued_token, login_result,
  rotate,
}
use auth.Session.Branches.{unused_branch, refreshed_claims}
use auth.Session.Frame.{create_ok, issued_ok, get-issue_ne}
use auth.Session.Reuse.{restart, session_of, rotate-same_ip}

module _ {r : Redis Key Value} (a : Available r) (e : Env) (ttl now : ℕ) (fresh : Fresh)
    (user org : Uuid) (claims : Claims) (client : String) (scopes : List String)
    (given : SessionData) {access : String} (s : r.State)
    (issued : e.issue_access_token fresh.session_id user org claims ≡ some access) where
  abbrev start : Outcome LoginResult × r.State
  start = start_session r e ttl now fresh user org claims client scopes given s

  abbrev token : RefreshTokenData
  token = issued_token r e ttl now fresh (e.uuid_string user) (e.uuid_string org) client scopes

  pub started : start.0 ≡ ok (login_result r e ttl fresh user org access)
  unfolding start_session
  started =
      rw (create_ok a ttl now fresh.session_id given s)
        (rw (issue, issued) (rw (issued_ok a now _ _) refl))

  pub started-state :
      start.1 ≡ (Refresh.create r now token (Store.create r ttl now fresh.session_id given s).1).1
  unfolding start_session
  started-state =
      rw (create_ok a ttl now fresh.session_id given s)
        (rw (issue, issued) (rw (issued_ok a now _ _) refl))

  pub get-started_token :
      r.get (refresh (e.hash_token fresh.refresh_token)) start.1 ≡ hit (refresh_json token)
  unfolding Refresh.create issued_token eight_hours positive_or
  get-started_token = rw started-state (
      a.get-expire_ne _ _ _ _ (ground arith)
      ∙ a.get-sadd_ne _ _ _ _ (ground arith)
      ∙ (let eight : positive_or eight_hours (difference (now + eight_hours) now) ≡ pos 28800 =
            ground arith in
          rw eight (a.get-set_self _ _ 28800 _ (omega arith))))

  pub get-started_session :
      0 < ttl
      → given.id ≡ fresh.session_id
      → r.get (session fresh.session_id) start.1
        ≡ hit (session_json (new_session ttl now fresh.session_id given))
  unfolding Store.create new_session issued_token
  get-started_session lives same = rw started-state (
      get-issue_ne a _ now token _ (ground arith) (ground arith)
      ∙ (let id : (if str_eq given.id "" then fresh.session_id else given.id) ≡ fresh.session_id =
            ground (arith, same) in
          rw id (a.get-set_self _ _ ttl _ lives)))

-- With a store whose time to live is positive, an issuer that does not fail and a user ID that
-- is read back as printed, a login succeeds, and its refresh token, sent from the same address, is
-- exchanged for a new session of the same user.
pub refresh_tokens-create_session :
    {r : Redis Key Value} (a : Available r) (e : Env) (ttl now later : ℕ) (fresh fresh' : Fresh)
    (user org : Uuid) (ip user_agent : String) (claims : Claims) (s : r.State)
    → 0 < ttl
    → ((id : String) (u o : Uuid) (c : Claims)
        → (x : String) × (e.issue_access_token id u o c ≡ some x))
    → (e.parse_uuid (e.uuid_string user)).0 ≡ user
    → let (answer, s') = create_session r e ttl now fresh user org ip user_agent claims s in
      (login : LoginResult) × (answer ≡ ok login)
      × (login.user_id ≡ user)
      × ((again : LoginResult) × ((refresh_tokens r e ttl later fresh' login.refresh_token ip s').0
            ≡ ok again)
          × (again.session_id ≡ fresh'.session_id)
          × (again.user_id ≡ user))
unfolding create_session login_result is_some issued_token login_session new_session decode_session
refresh_tokens-create_session {r} a e ttl now later fresh fresh' user org ip user_agent claims s
      lives issues read_back =
    let d : SessionData = login_session r e ttl fresh user org ip user_agent claims in
    let (x, ix) = issues fresh.session_id user org claims in
    let s' : r.State = (create_session r e ttl now fresh user org ip user_agent claims s).1 in
    let t : RefreshTokenData =
      token a e ttl now fresh user org claims claims.client_id claims.roles d s ix in
    let stored =
      get-started_token a e ttl now fresh user org claims claims.client_id claims.roles d s ix in
    let held =
      get-started_session a e ttl now fresh user org claims claims.client_id claims.roles d s ix
        lives refl in
    let n : SessionData = new_session ttl now fresh.session_id d in
    let found : session_of r t s' ≡ some n = rw held refl in
    let (y, iy) =
      issues fresh'.session_id (e.parse_uuid t.user_id).0 (e.parse_uuid t.org_id).0
        (refreshed_claims t) in
    let again : refresh_tokens r e ttl later fresh' fresh.refresh_token ip s'
        ≡ restart r e ttl later fresh' (e.hash_token fresh.refresh_token) ip t n s' =
      unused_branch r e ttl later fresh' fresh.refresh_token ip stored refl refl
      ∙ ap (λ o. rotate r e ttl later fresh' (e.hash_token fresh.refresh_token) ip t o s') found
      ∙ rotate-same_ip r e ttl later fresh' (e.hash_token fresh.refresh_token) ip t s' n
          (eq_refl ip) in
    (
      login_result r e ttl fresh user org x,
      started a e ttl now fresh user org claims claims.client_id claims.roles d s ix,
      refl,
      (
        login_result r e ttl fresh' (e.parse_uuid t.user_id).0 (e.parse_uuid t.org_id).0 y,
        ap (λ p. p.0) again ∙ started a e ttl later fresh' _ _ _ _ _ _ _ iy,
        refl,
        read_back,
      ),
    )
