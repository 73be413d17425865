-- ===== src/Account/Passwords.antt =====
-- The change and the reset of passwords (internal/api/rest/auth.go). The mail that is sent has no effect
-- on what is modelled.
use auth.Base.{
  Bool, Effect, Option, Result, String, Uuid, [], codes, dropped, fail, false, found_or, none, not,
  ok, refuse_if, return, some, str_eq, true, ℕ, ◌&&◌, ◌+◌, ◌>>=◌, ◌>>◌, ◌||◌, ◌∷◌,
}
use auth.Strings.{strip_prefix}
use auth.Redis.{Redis}
use auth.Session.Data.{Env, Key, Value}
use auth.Session.Access.{verify_access_token}
use auth.Password.Policy.{default_password_policy, validate}
use auth.Account.Data.{User, UserCredential, get_by_email, get_current_by_user_id, normalize_email}
use auth.Account.Tables.{
  DbError, Tables, VerificationToken, create_credential, create_token, get_by_token, get_user,
  is_valid, mark_token_used, replace, update_user,
}
use auth.Account.Login.{Accounts, find_user}

pub record ChangePasswordRequest : Type 0 where
  pub current_password : String
  pub new_password : String

pub record InitialChangePasswordRequest : Type 0 where
  pub username : String
  pub current_password : String
  pub new_password : String

pub record ForgotPasswordRequest : Type 0 where
  pub email : String
  pub return_url : String

pub record ResetPasswordRequest : Type 0 where
  pub token : String
  pub new_password : String

pub data Refusal : Type 0 where
  bad_body unauthorized not_found not_required no_credential wrong_password : Refusal
  weak_password hash_failed update_failed token_failed bad_reset_token wrong_token_type : Refusal

abbrev pub Change : Type 0 → Type 0
Change A = Effect Refusal Tables A

abbrev pub relabel : {A : Type 0} → Refusal → Result DbError A → Result Refusal A
relabel refusal (ok a) = ok a
relabel refusal (fail e) = fail refusal

abbrev pub relabelled : {A : Type 0} → Refusal → Effect DbError Tables A → Change A
relabelled refusal call t = let (o, t') = call t in (relabel refusal o, t')

-- `DefaultPasswordPolicy.Validate` reports no fault.
unfoldable pub is_strong : String → String → String → Bool
unfolding validate default_password_policy
is_strong password username email =
    elim (validate default_password_policy (codes password) (codes username) (codes email)) [
      | [] ↦ true
      | f ∷ fs ↦ false
    ]

-- A reset token lives for 15 minutes.
unfoldable pub send_token : ℕ → Uuid → String → Option User → Change (Option String)
send_token now id drawn none = return none
send_token now id drawn (some u) =
    relabelled token_failed (
      create_token (record {
        id = id;
        user_id = u.id;
        token = drawn;
        token_type = "password_recovery";
        expires_at = now + 900;
        used_at = none;
        created_at = now;
      }))
    >> return (some drawn)

-- `hash_password` is argon2id with the salt that is drawn.
module _ (x : Accounts) (hash_password : String → Option String) where
  -- `forced` keeps the flag of a forced change.
  unfoldable pub stamp_user : ℕ → Bool → Option User → Change (Unit {0})
  stamp_user now forced none = return tt
  stamp_user now forced (some u) = dropped (
      update_user (record u {
        password_changed_at = some now;
        require_password_change = forced && u.require_password_change;
        updated_at = now;
      }))

  unfoldable pub store_password : ℕ → Uuid → String → Change (Unit {0})
  store_password now user new_password = do
    new_hash ← found_or hash_failed (hash_password new_password)
    relabelled update_failed
        (replace now user "password" new_hash default_password_policy.history_count)

  unfoldable pub change_checked : ℕ → Uuid → String → String → String → String → Change (Unit {0})
  change_checked now user username email current_password new_password = do
    cred ← λ t. found_or no_credential (get_current_by_user_id user t.credentials) t
    refuse_if (not (x.verify_password current_password cred.secret_hash)) wrong_password
    refuse_if (not (is_strong new_password username email)) weak_password
    store_password now user new_password

  -- `auth` is the Authorization header.
  unfoldable pub handle_change_password :
      (r : Redis Key Value)
      → Env
      → r.State
      → ℕ
      → String
      → Option ChangePasswordRequest
      → Change (Unit {0})
  handle_change_password r e s now auth body = do
    req ← found_or bad_body body
    refuse_if (str_eq req.current_password "" || str_eq req.new_password "") bad_body
    token ← found_or unauthorized (strip_prefix "Bearer " auth)
    claims ← λ t.
        (elim (verify_access_token r e token s).0 [ ok c ↦ ok c | fail _ ↦ fail unauthorized ], t)
    refuse_if (not (e.parse_uuid claims.subject).1) unauthorized
    let user = (e.parse_uuid claims.subject).0
    change_checked now user claims.username claims.email req.current_password req.new_password
    λ t. stamp_user now false (get_user user t) t

  unfoldable pub handle_initial_change_password :
      ℕ → Option InitialChangePasswordRequest → Change (Unit {0})
  handle_initial_change_password now body = do
    req ← found_or bad_body body
    refuse_if
        (str_eq req.username "" || str_eq req.current_password "" || str_eq req.new_password "")
        bad_body
    u ← λ t. found_or not_found (find_user x.lower req.username t.users) t
    refuse_if (not u.require_password_change) not_required
    change_checked now u.id u.username u.email req.current_password req.new_password
    stamp_user now false (some u)

  -- The answer is the reset token, where the address has a user. `id` and `drawn` are the random ids, and
  -- `is_email` is the validation of the body.
  unfoldable pub handle_forgot_password :
      (String → Bool) → ℕ → Uuid → String → Option ForgotPasswordRequest → Change (Option String)
  handle_forgot_password is_email now id drawn body = do
    req ← found_or bad_body body
    refuse_if (str_eq req.email "" || not (is_email req.email)) bad_body
    λ t.
        send_token now id drawn (get_by_email (normalize_email x.lower (codes req.email)) t.users) t

  unfoldable pub reset_credential :
      ℕ → Uuid → Uuid → String → Option UserCredential → Change (Unit {0})
  reset_credential now id user new_hash (some cred) =
      relabelled update_failed
        (replace now user "password" new_hash default_password_policy.history_count)
  reset_credential now id user new_hash none = relabelled update_failed (
      create_credential (record {
        id = id;
        user_id = user;
        credential_type = "password";
        secret_hash = new_hash;
        created_at = now;
        expires_at = none;
      }))

  unfoldable pub reset_to : ℕ → Uuid → VerificationToken → String → Change (Unit {0})
  reset_to now id vt new_hash = do
    λ t.
        reset_credential now id vt.user_id new_hash
          (get_current_by_user_id vt.user_id t.credentials) t
    dropped (mark_token_used now vt.id)
    λ t. stamp_user now true (get_user vt.user_id t) t

  unfoldable pub reset_by : ℕ → Uuid → String → VerificationToken → Change (Unit {0})
  unfolding reset_to
  reset_by now id new_password vt = do
    refuse_if (not (is_valid now vt)) bad_reset_token
    refuse_if (not (str_eq vt.token_type "password_recovery")) wrong_token_type
    refuse_if (not (is_strong new_password "" "")) weak_password
    new_hash ← found_or hash_failed (hash_password new_password)
    reset_to now id vt new_hash

  unfoldable pub handle_reset_password : ℕ → Uuid → Option ResetPasswordRequest → Change (Unit {0})
  handle_reset_password now id body = do
    req ← found_or bad_body body
    refuse_if (str_eq req.token "" || str_eq req.new_password "") bad_body
    vt ← λ t. found_or bad_reset_token (get_by_token req.token t) t
    reset_by now id req.new_password vt
