-- ===== src/Account/Granted.antt =====
-- Who may log in by `HandleLogin` of internal/api/rest/auth.go.
use auth.Base.{
  List, Option-cases, String, Uuid, ap, arith, eq_iff, false, inl, inr, ok, refl, some, str_eq,
  true, ℕ, ◌&&◌, ◌||◌, ◌↔◌, ◌≡◌, ◌≢◌,
}
use auth.Redis.{Available, Redis}
use auth.Session.Data.{Claims, Env, Fresh, Key, LoginResult, Value}
use auth.Session.Service.{login_result, create_session, revoke_all_user_sessions}
use auth.Session.Login.{started}
use auth.Account.Data.{User, UserCredential, can_login, get_current_by_user_id, is_locked}
use auth.Account.Login.{
  Accounts, LoginRequest, answer_login, find_user, handle_login, logged_in, login_claims,
  login_user, new_login,
}

module _ {r : Redis Key Value} (q : Available r) (e : Env) (ttl : ℕ) (x : Accounts) where
  -- What a login asks of a user and of the user's credential.
  abbrev pub IsLoginOf : ℕ → LoginRequest → User → UserCredential → Type 0
  IsLoginOf now req u cred =
      (u.status ≡ "active")
      × (is_locked now u ≡ false)
      × (x.verify_password req.password cred.secret_hash ≡ true)
      × (u.require_password_change ≡ false)
      × ((u.mfa_enabled && str_eq req.mfa_code "") ≡ false)

  logged_in-IsLoginOf :
      (now : ℕ) (fresh : Fresh) (ip user_agent : String) (req : LoginRequest) (u : User)
      (cred : UserCredential) (s : r.State) {given : LoginResult}
      → can_login now u ≡ true
      → (login_user r e ttl x now fresh ip user_agent req u cred s).0 ≡ ok (logged_in given)
      → IsLoginOf now req u cred
  unfolding login_user can_login
  logged_in-IsLoginOf now fresh ip user_agent req u cred s may done = (
    ground (arith, may, eq_iff u.status "active"),
    ground (arith, may),
    ground (arith, done),
    ground (arith, done),
    ground (arith, done),
  )

  create_session_ok :
      (now : ℕ) (fresh : Fresh) (ip user_agent : String) (u : User) (s : r.State) {t : String}
      → e.issue_access_token fresh.session_id u.id u.org_id (login_claims x u) ≡ some t
      → (create_session r e ttl now fresh u.id u.org_id ip user_agent (login_claims x u) s).0
        ≡ ok (login_result r e ttl fresh u.id u.org_id t)
  unfolding create_session
  create_session_ok now fresh ip user_agent u s issued =
      started q e ttl now fresh u.id u.org_id (login_claims x u) _ _ _ s issued

  new_login_ok :
      (now : ℕ) (fresh : Fresh) (ip user_agent : String) (u : User) (s : r.State)
      → ((id : String) (v o : Uuid) (c : Claims)
          → (t : String) × (e.issue_access_token id v o c ≡ some t))
      → (given : LoginResult) × ((new_login r e ttl x now fresh ip user_agent u s).0
          ≡ ok (logged_in given))
  unfolding new_login
  new_login_ok now fresh ip user_agent u s issues =
      let (t, issued) = issues fresh.session_id u.id u.org_id (login_claims x u) in
      let before = (revoke_all_user_sessions r e ttl (e.uuid_string u.id) s).1 in
      (
        login_result r e ttl fresh u.id u.org_id t,
        ap answer_login (create_session_ok now fresh ip user_agent u before issued),
      )

  IsLoginOf-logged_in :
      (now : ℕ) (fresh : Fresh) (ip user_agent : String) (req : LoginRequest) (u : User)
      (cred : UserCredential) (s : r.State)
      → IsLoginOf now req u cred
      → (can_login now u ≡ true)
        × (login_user r e ttl x now fresh ip user_agent req u cred s
            ≡ new_login r e ttl x now fresh ip user_agent u s)
  unfolding login_user can_login
  IsLoginOf-logged_in now fresh ip user_agent req u cred s (active, free, right, keeps, factor) =
      (rw (active, free) refl, rw (right, keeps, factor) refl)

  -- If the issuer does not fail, a request with a username and a password gives tokens if and only if it
  -- names a user that is active and not locked, the password is the one of the user's current
  -- credential, the user need not change it, and the request's code is not empty or the user has no
  -- second factor.
  pub handle_login_iff :
      (users : List User) (credentials : List UserCredential) (now : ℕ) (fresh : Fresh)
      (ip user_agent : String) (req : LoginRequest) (s : r.State)
      → req.username ≢ ""
      → req.password ≢ ""
      → ((id : String) (v o : Uuid) (c : Claims)
          → (t : String) × (e.issue_access_token id v o c ≡ some t))
      → ((given : LoginResult) × ((handle_login r e ttl x users credentials now fresh ip user_agent
              (some req)
              s).0
            ≡ ok (logged_in given)))
        ↔ ((u : User) × (find_user x.lower req.username users ≡ some u)
            × ((cred : UserCredential) × (get_current_by_user_id u.id credentials ≡ some cred)
                × IsLoginOf now req u cred))
  unfolding handle_login
  handle_login_iff users credentials now fresh ip user_agent req s named typed issues = (
    λ (given, done). elim (Option-cases (find_user x.lower req.username users)) [
      | inl missing ↦ absurd (ground (arith, done, missing))
      | inr (u, found) ↦ (
        u,
        found,
        elim (Option-cases (get_current_by_user_id u.id credentials)) [
          | inl missing ↦ absurd (ground (arith, done, found, missing))
          | inr (cred, current) ↦ (
            cred,
            current,
            logged_in-IsLoginOf now fresh ip user_agent req u cred s {given = given}
                (ground (arith, done, found)) (ground (arith, done, found, current)),
          )
        ],
      )
    ],
    λ (u, found, (cred, current, fits)).
        let (given, done) = new_login_ok now fresh ip user_agent u s issues in
        let (may, begins) = IsLoginOf-logged_in now fresh ip user_agent req u cred s fits in
        let whole : (str_eq req.username "" || str_eq req.password "") ≡ false =
          ground (arith, named, typed, eq_iff req.username "", eq_iff req.password "") in
        (given, rw (whole, found) (rw (may, current) (rw begins done))),
  )

  -- Two logins that differ in the second factor's code alone, neither code empty, have the same answer
  -- and the same effect.
  handle_login-mfa_code :
      (users : List User) (credentials : List UserCredential) (now : ℕ) (fresh : Fresh)
      (ip user_agent username password code other : String) (s : r.State)
      → code ≢ ""
      → other ≢ ""
      → handle_login r e ttl x users credentials now fresh ip user_agent
          (some (record { username = username; password = password; mfa_code = code }))
          s
        ≡ handle_login r e ttl x users credentials now fresh ip user_agent
            (some (record { username = username; password = password; mfa_code = other }))
            s
  unfolding handle_login login_user
  handle_login-mfa_code users credentials now fresh ip user_agent username password code other s
        given given' =
      let here : str_eq code "" ≡ false = ground (arith, eq_iff code "") in
      let there : str_eq other "" ≡ false = ground (arith, eq_iff other "") in rw (here, there) refl
