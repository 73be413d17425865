-- ===== src/Account/Admin.antt =====
-- The accounts that administrators manage: `adminUserSvc` of internal/api/rest/admin_routes.go, with the
-- statements of internal/store/postgres/repository.go that it relies on. `hash` is the hasher of
-- passwords, and an id that is drawn is an argument. The organisation of the caller is not looked at.
use auth.Base.{
  Bool, Effect, List, Option, Result, String, Uuid, [], any, fail, false, found_or, if◌then◌else◌,
  map, none, not, ok, return, some, str_eq, ℕ, ◌&&◌, ◌++◌, ◌==◌, ◌>>=◌, ◌>>◌, ◌||◌, ◌∷◌,
}
use auth.Account.Data.{User, UserCredential, is_live}
use auth.Account.Tables.{DbError, Tables, create_credential, duplicate_key, get_user, update_user}

abbrev pub Db : Type 0 → Type 0
Db A = Effect DbError Tables A

-- The username and the e-mail address are unique over all rows, deleted ones included.
abbrev pub name_taken : User → List User → Bool
name_taken u users =
    any (λ o. not (o.id == u.id) && (str_eq o.username u.username || str_eq o.email u.email)) users

unfoldable pub insert_user : User → Db (Unit {0})
insert_user u t =
    if any (λ o. o.id == u.id) t.users || name_taken u t.users
    then (fail duplicate_key, t)
    else (ok tt, record t { users = t.users ++ u ∷ [] })

-- `UserRepository.Update`, where the name or the address may change.
unfoldable pub write_user : User → Db (Unit {0})
unfolding update_user
write_user u t =
    if any (λ o. o.id == u.id && is_live o.deleted_at) t.users && name_taken u t.users
    then (fail duplicate_key, t)
    else update_user u t

unfoldable pub delete_user : ℕ → Uuid → Db (Unit {0})
delete_user now id t = (
  ok tt,
  record t {
    users =
        map (λ u. if u.id == id then record u { deleted_at = some now; status = "deleted" } else u)
          t.users;
  },
)

pub record CreateUserInput : Type 0 where
  pub username : String
  pub email : String
  pub full_name : String
  pub preferred_locale : String
  pub password : String
  pub require_password_change : Bool

pub record UpdateUserInput : Type 0 where
  pub username : Option String
  pub email : Option String
  pub full_name : Option String
  pub status : Option String

-- The columns that the statement leaves out have their defaults.
unfoldable pub new_user : ℕ → Uuid → Uuid → CreateUserInput → User
new_user now id org input = record {
  id = id;
  org_id = org;
  username = input.username;
  email = input.email;
  full_name = input.full_name;
  preferred_locale =
      if str_eq input.preferred_locale "id" || str_eq input.preferred_locale "en"
      then input.preferred_locale
      else "id";
  status = "active";
  email_verified = false;
  mfa_enabled = false;
  mfa_method = "";
  mfa_reset_required = false;
  require_password_change = input.require_password_change;
  failed_login_attempts = 0;
  locked_until = none;
  last_login_at = none;
  last_login_ip = "";
  password_changed_at = none;
  created_at = now;
  updated_at = now;
  deleted_at = none;
  created_by = "system";
  updated_by = "system";
}

-- An error of the hasher, or of a statement.
pub data CreateError : Type 0 where
  db_error hash_error : CreateError

abbrev pub or_db : {A : Type 0} → Result DbError A × Tables → Result CreateError A × Tables
or_db (ok a, t) = (ok a, t)
or_db (fail x, t) = (fail db_error, t)

abbrev pub stored : {A : Type 0} → Db A → Effect CreateError Tables A
stored call t = or_db (call t)

abbrev pub first_password : ℕ → Uuid → Uuid → String → UserCredential
first_password now id user hash = record {
  id = id;
  user_id = user;
  credential_type = "password";
  secret_hash = hash;
  created_at = now;
  expires_at = none;
}

unfoldable pub store_first_password :
    (String → Option String) → ℕ → Uuid → Uuid → String → Effect CreateError Tables (Unit {0})
unfolding create_credential
store_first_password hash now id user password = do
  secret ← found_or hash_error (hash password)
  stored (create_credential (first_password now id user secret))

unfoldable pub create_user :
    (String → Option String)
    → ℕ
    → Uuid
    → Uuid
    → Uuid
    → CreateUserInput
    → Effect CreateError Tables User
unfolding insert_user new_user store_first_password
create_user hash now id credential_id org input = do
  stored (insert_user (new_user now id org input))
  if str_eq input.password ""
      then return tt
      else store_first_password hash now credential_id id input.password
  return (new_user now id org input)

abbrev pub or_old : String → Option String → String
or_old old none = old
or_old old (some new) = new

unfoldable pub changed : ℕ → UpdateUserInput → User → User
changed now input u = record u {
  username = or_old u.username input.username;
  email = or_old u.email input.email;
  full_name = or_old u.full_name input.full_name;
  status = or_old u.status input.status;
  updated_at = now;
}

-- A read of the tables: `None` is the error of a row that is missing.
pub data FoundError : Type 0 where
  not_found not_stored : FoundError

abbrev pub or_stored :
    {A : Type 0} → A → Result DbError (Unit {0}) × Tables → Result FoundError A × Tables
or_stored a (ok done, t) = (ok a, t)
or_stored a (fail x, t) = (fail not_stored, t)

abbrev pub rewritten : (User → User) → Option User → Tables → Result FoundError User × Tables
rewritten f none t = (fail not_found, t)
rewritten f (some u) t = or_stored (f u) (write_user (f u) t)

unfoldable pub change_user : ℕ → Uuid → UpdateUserInput → Effect FoundError Tables User
unfolding get_user write_user changed
change_user now id input t = rewritten (changed now input) (get_user id t) t

unfoldable pub with_status : ℕ → String → User → User
with_status now status u = record u { status = status; updated_at = now }

unfoldable pub update_user_status : ℕ → Uuid → String → Effect FoundError Tables User
unfolding get_user write_user with_status
update_user_status now id status t = rewritten (with_status now status) (get_user id t) t

abbrev pub lock_user : ℕ → Uuid → Effect FoundError Tables User
lock_user now id = update_user_status now id "locked"

abbrev pub unlock_user : ℕ → Uuid → Effect FoundError Tables User
unlock_user now id = update_user_status now id "active"

abbrev pub suspend_user : ℕ → Uuid → Effect FoundError Tables User
suspend_user now id = update_user_status now id "suspended"
