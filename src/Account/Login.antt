-- ===== src/Account/Login.antt =====
-- The login of internal/api/rest/auth.go. The mail that it may send and the event that it publishes
-- have no effect on what is modelled.
use auth.Base.{
  Bool, Effect, List, Option, Result, String, Uuid, any, codes, dropped, fail, found_or,
  if◌then◌else◌, none, not, ok, refuse_if, str_eq, ℕ, ◌&&◌, ◌==◌, ◌>>=◌, ◌>>◌, ◌||◌,
}
use auth.Text.{trim_space}
use auth.Redis.{Redis}
use auth.Session.Data.{Claims, Env, Fresh, Key, LoginResult, Outcome, Value}
use auth.Session.Service.{create_session, revoke_all_user_sessions}
use auth.Account.Data.{
  User, UserCredential, can_login, get_by_email, get_by_username, get_current_by_user_id,
  normalize_email,
}

pub record LoginRequest : Type 0 where
  pub username : String
  pub password : String
  pub mfa_code : String

-- The answers, with the status of an error.
pub data LoginAnswer : Type 0 where
  bad_request invalid_credentials not_available credential_failed session_failed : LoginAnswer
  must_change_password : Uuid → LoginAnswer
  mfa_required : String → Uuid → LoginAnswer
  logged_in : LoginResult → LoginAnswer

-- What the handler takes from elsewhere: argon2id, Unicode's lower case, and the getters of the roles
-- and of the branch of a user, where an error is no role and no branch.
pub record Accounts : Type 0 where
  pub verify_password : String → String → Bool
  pub lower : ℕ → ℕ
  pub role_codes : Uuid → List String
  pub branch : Uuid → String × String

unfoldable pub find_user : (ℕ → ℕ) → String → List User → Option User
unfolding trim_space normalize_email get_by_username get_by_email
find_user lower username users =
    let name = trim_space (codes username) in
    if any (λ c. c == b'@') name
    then get_by_email (normalize_email lower name) users
    else get_by_username name users

unfoldable pub login_claims : Accounts → User → Claims
login_claims x u = record {
  subject = "";
  session_id = "";
  org_id = "";
  client_id = "";
  roles = x.role_codes u.id;
  scope = "";
  branch_id = (x.branch u.id).0;
  username = u.username;
  email = u.email;
  branch_code = (x.branch u.id).1;
  issued_at = 0;
  expires_at = 0;
  act = none;
}

abbrev pub answer_login : Outcome LoginResult → Result LoginAnswer LoginAnswer
answer_login (ok result) = ok (logged_in result)
answer_login (fail error) = fail session_failed

module _ (r : Redis Key Value) (e : Env) (ttl : ℕ) (x : Accounts) where
  abbrev pub Step : Type 0 → Type 0
  Step A = Effect LoginAnswer r.State A

  -- The earlier sessions of the user end, whatever comes of it, and a new one begins.
  unfoldable pub new_login : ℕ → Fresh → String → String → User → Step LoginAnswer
  unfolding revoke_all_user_sessions create_session login_claims
  new_login now fresh ip user_agent u = do
    dropped (revoke_all_user_sessions r e ttl (e.uuid_string u.id))
    λ s.
        let (o, s') =
          create_session r e ttl now fresh u.id u.org_id ip user_agent (login_claims x u) s in
        (answer_login o, s')

  unfoldable pub login_user :
      ℕ → Fresh → String → String → LoginRequest → User → UserCredential → Step LoginAnswer
  unfolding new_login
  login_user now fresh ip user_agent req u cred = do
    refuse_if (not (x.verify_password req.password cred.secret_hash)) invalid_credentials
    refuse_if u.require_password_change (must_change_password u.id)
    refuse_if (u.mfa_enabled && str_eq req.mfa_code "") (mfa_required u.mfa_method u.id)
    new_login now fresh ip user_agent u

  -- `body` is `none` if it is no JSON.
  unfoldable pub handle_login :
      List User
      → List UserCredential
      → ℕ
      → Fresh
      → String
      → String
      → Option LoginRequest
      → Step LoginAnswer
  unfolding find_user can_login get_current_by_user_id login_user
  handle_login users credentials now fresh ip user_agent body = do
    req ← found_or bad_request body
    refuse_if (str_eq req.username "" || str_eq req.password "") bad_request
    u ← found_or invalid_credentials (find_user x.lower req.username users)
    refuse_if (not (can_login now u)) not_available
    cred ← found_or credential_failed (get_current_by_user_id u.id credentials)
    login_user now fresh ip user_agent req u cred
