-- ===== src/Account/Data.antt =====
-- Users and their credentials (internal/domain/entity.go), and the reads of
-- internal/store/postgres/repository.go, for a database that answers. A time is in seconds.
use auth.Base.{
  Bool, List, Option, String, Uuid, [], codes, false, if◌then◌else◌, ltb, map, none, not, some,
  str_eq, true, ℕ, ◌&&◌, ◌==◌, ◌∷◌,
}
use auth.Text.{trim_space}
use auth.Strings.{same_codes}

pub record User : Type 0 where
  pub id : Uuid
  pub org_id : Uuid
  pub username : String
  pub email : String
  pub full_name : String
  pub preferred_locale : String
  pub status : String
  pub email_verified : Bool
  pub mfa_enabled : Bool
  pub mfa_method : String
  pub mfa_reset_required : Bool
  pub require_password_change : Bool
  pub failed_login_attempts : ℕ
  pub locked_until : Option ℕ
  pub last_login_at : Option ℕ
  pub last_login_ip : String
  pub password_changed_at : Option ℕ
  pub created_at : ℕ
  pub updated_at : ℕ
  pub deleted_at : Option ℕ
  pub created_by : String
  pub updated_by : String

unfoldable pub is_locked : ℕ → User → Bool
is_locked now u = elim u.locked_until [ none ↦ false | some t ↦ ltb now t ]

unfoldable pub can_login : ℕ → User → Bool
unfolding is_locked
can_login now u = str_eq u.status "active" && not (is_locked now u)

pub record UserCredential : Type 0 where
  pub id : Uuid
  pub user_id : Uuid
  pub credential_type : String
  pub secret_hash : String
  pub created_at : ℕ
  pub expires_at : Option ℕ

abbrev pub is_live : Option ℕ → Bool
is_live none = true
is_live (some t) = false

-- The first row that satisfies the condition of a `SELECT`; a missing row is an error.
abbrev pub first_row : {A : Type 0} → (A → Bool) → List A → Option A
first_row p [] = none
first_row p (x ∷ xs) = let rest = first_row p xs in if p x then some x else rest

unfoldable pub get_by_username : List ℕ → List User → Option User
get_by_username name users =
    first_row (λ u. same_codes (codes u.username) name && is_live u.deleted_at) users

unfoldable pub get_by_email : List ℕ → List User → Option User
get_by_email email users =
    first_row (λ u. same_codes (codes u.email) email && is_live u.deleted_at) users

-- `strings.ToLower(strings.TrimSpace(email))`, with Unicode's lower case a parameter.
unfoldable pub normalize_email : (ℕ → ℕ) → List ℕ → List ℕ
unfolding trim_space
normalize_email lower email = map lower (trim_space email)

unfoldable pub get_current_by_user_id : Uuid → List UserCredential → Option UserCredential
get_current_by_user_id user rows =
    first_row (λ c. c.user_id == user && str_eq c.credential_type "password") rows
