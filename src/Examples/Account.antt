-- ===== src/Examples/Account.antt =====
-- Logins and changed passwords at concrete inputs.
use auth.Base.{
  Option, Result, String, [], arith, fail, false, none, ok, refl, some, str_eq, true, ◌↔◌, ◌∷◌, ◌≡◌,
}
use auth.Redis.{hit}
use auth.Session.Data.{LoginResult, session, session_json, session_revoked}
use auth.Session.Access.{verify_access_token}
use auth.Session.Service.{revoke_all_user_sessions, create_session}
use auth.Account.Data.{User, UserCredential, get_current_by_user_id}
use auth.Account.Login.{
  Accounts, LoginAnswer, LoginRequest, find_user, handle_login, logged_in, not_available,
}
use auth.Account.Granted.{IsLoginOf, handle_login_iff}
use auth.Account.Tables.{Tables, duplicate_key, replace}
use auth.Account.Admin.{FoundError, update_user_status, with_status}
use auth.Account.Barred.{handle_login-update_user_status}
use auth.Account.Renewal.{replace-twice}
use auth.Account.Single.{handle_login-revoked}
use auth.Examples.Memory.{differ, memory, memory-Available, env, session_data, store, fresh}
use auth.Examples.Map.{lookup}

abbrev pub user : User
user = record {
  id = 7;
  org_id = 1;
  username = "ada";
  email = "ada@example.org";
  full_name = "Ada";
  preferred_locale = "";
  status = "active";
  email_verified = true;
  mfa_enabled = true;
  mfa_method = "totp";
  mfa_reset_required = false;
  require_password_change = false;
  failed_login_attempts = 0;
  locked_until = none;
  last_login_at = none;
  last_login_ip = "";
  password_changed_at = none;
  created_at = 0;
  updated_at = 0;
  deleted_at = none;
  created_by = "";
  updated_by = "";
}

abbrev credential : UserCredential
credential = record {
  id = 1;
  user_id = 7;
  credential_type = "password";
  secret_hash = "secret";
  created_at = 0;
  expires_at = none;
}

abbrev accounts : Accounts
accounts = record {
  verify_password = str_eq;
  lower = λ c. c;
  role_codes = λ u. [];
  branch = λ u. ("", "");
}

abbrev request : String → LoginRequest
request code = record { username = "ada"; password = "secret"; mfa_code = code }

abbrev login : Option LoginRequest → Result LoginAnswer LoginAnswer × memory.State
login body =
    handle_login memory env 900 accounts (user ∷ []) (credential ∷ []) 100 fresh "10.0.0.3" "" body
      (store none)

abbrev granted : LoginResult
granted = record {
  access_token = "s3";
  refresh_token = "new";
  expires_in = 900;
  session_id = "s3";
  user_id = 7;
  org_id = 1;
}

logs_in : (login (some (request "0"))).0 ≡ ok (logged_in granted)
unfolding handle_login create_session revoke_all_user_sessions auth.Session.Store.create
    auth.Session.Refresh.create
logs_in = refl

finds : find_user accounts.lower "ada" (user ∷ []) ≡ some user
unfolding find_user
finds = refl

handle_login_iff_example :
    ((given : LoginResult) × ((login (some (request "0"))).0 ≡ ok (logged_in given))) ↔ (
      (u : User) × (find_user accounts.lower "ada" (user ∷ []) ≡ some u)
      × ((cred : UserCredential) × (get_current_by_user_id u.id (credential ∷ []) ≡ some cred)
          × IsLoginOf memory-Available env 900 accounts 100 (request "0") u cred))
handle_login_iff_example =
    handle_login_iff memory-Available env 900 accounts (user ∷ []) (credential ∷ []) 100 fresh
      "10.0.0.3" "" (request "0") (store none) (differ "ada" "" refl) (differ "secret" "" refl)
      (λ id v o c. (id, refl))

stored : memory.get (session "s2") (store none) ≡ hit (session_json (session_data "s2" "10.0.0.2"))
unfolding lookup
stored = refl

handle_login-revoked_example :
    (verify_access_token memory env "s2" (login (some (request "0"))).1).0 ≡ fail session_revoked
handle_login-revoked_example =
    handle_login-revoked memory-Available env 900 accounts (user ∷ []) (credential ∷ []) 100 fresh
      "10.0.0.3" "" "s2" (request "0") {u = user} (session_data "s2" "10.0.0.2") (store none)
      {given = granted} finds logs_in stored refl refl refl

abbrev tables : Tables
tables = record { users = user ∷ []; credentials = credential ∷ []; history = []; tokens = [] }

abbrev replaced : Tables
replaced = (replace 200 7 "password" "new" 5 tables).1

replaces : (replace 200 7 "password" "new" 5 tables).0 ≡ ok tt
unfolding replace
replaces = refl

replace-twice_example : replace 300 7 "password" "newer" 5 replaced ≡ (fail duplicate_key, replaced)
replace-twice_example =
    replace-twice 200 300 5 5 7 "password" "new" "newer" tables (omega arith) refl replaces

-- The user is locked, and the password is still the right one.
abbrev locking : Result FoundError User × Tables
locking =
    update_user_status 90 7 "locked"
      (record { users = user ∷ []; credentials = credential ∷ []; history = []; tokens = [] })

handle_login-update_user_status_example :
    handle_login memory env 900 accounts locking.1.users
      (credential ∷ [])
      100
      fresh
      "10.0.0.3"
      ""
      (some (request "0"))
      (store none)
    ≡ (fail not_available, store none)
unfolding update_user_status with_status find_user
handle_login-update_user_status_example =
    handle_login-update_user_status memory env 900 accounts 90 100 7 "locked"
      (record { users = user ∷ []; credentials = credential ∷ []; history = []; tokens = [] })
      (credential ∷ []) fresh "10.0.0.3" "" (request "0") (store none)
      {u = record user { status = "locked"; updated_at = 90 }}
      {u' = record user { status = "locked"; updated_at = 90 }} refl (differ "locked" "active" refl)
      refl refl refl
