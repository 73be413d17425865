-- ===== src/Account/Tables.antt =====
-- The tables of accounts (internal/store/postgres/repository.go), for a database that answers. A
-- table of history keeps its newest row first.
use auth.Base.{
  Bool, Effect, List, Option, String, Uuid, [], all, any, elem, fail, filter, if◌then◌else◌, ltb,
  map, none, not, ok, some, str_eq, ℕ, ◌&&◌, ◌++◌, ◌-◌, ◌==◌, ◌||◌, ◌∷◌,
}
use auth.Account.Data.{User, UserCredential, first_row, is_live}

pub record UserCredentialHistory : Type 0 where
  pub id : Uuid
  pub user_id : Uuid
  pub credential_type : String
  pub secret_hash : String
  pub retired_at : ℕ

pub record VerificationToken : Type 0 where
  pub id : Uuid
  pub user_id : Uuid
  pub token : String
  pub token_type : String
  pub expires_at : ℕ
  pub used_at : Option ℕ
  pub created_at : ℕ

unfoldable pub is_valid : ℕ → VerificationToken → Bool
is_valid now t = is_live t.used_at && ltb now t.expires_at

pub record Tables : Type 0 where
  pub users : List User
  pub credentials : List UserCredential
  pub history : List UserCredentialHistory
  pub tokens : List VerificationToken

pub data DbError : Type 0 where
  duplicate_key undefined_column invalid_enum : DbError

abbrev pub is_of : Uuid → String → Uuid → String → Bool
is_of user kind owner type_of = owner == user && str_eq type_of kind

unfoldable pub retire : ℕ → UserCredential → UserCredentialHistory
retire now c = record {
  id = c.id;
  user_id = c.user_id;
  credential_type = c.credential_type;
  secret_hash = c.secret_hash;
  retired_at = now;
}

unfoldable pub prune : ℕ → Uuid → String → List UserCredentialHistory → List UserCredentialHistory
prune keep user kind [] = []
prune keep user kind (h ∷ hs) =
    let own = is_of user kind h.user_id h.credential_type in
    let rest = prune (if own then keep - 1 else keep) user kind hs in
    if own && keep == 0 then rest else h ∷ rest

unfoldable pub renew : ℕ → Uuid → String → String → UserCredential → UserCredential
renew now user kind new_hash c =
    if is_of user kind c.user_id c.credential_type
    then record c { secret_hash = new_hash; created_at = now; expires_at = none }
    else c

unfoldable pub retired : ℕ → Uuid → String → List UserCredential → List UserCredentialHistory
unfolding retire
retired now user kind credentials =
    map (retire now) (filter (λ c. is_of user kind c.user_id c.credential_type) credentials)

abbrev pub is_taken : List UserCredentialHistory → List UserCredentialHistory → Bool
is_taken copied history = any (λ h. any (λ o. o.id == h.id) history) copied

-- A transaction: a failed statement leaves every table as it was.
unfoldable pub replace : ℕ → Uuid → String → String → ℕ → Effect DbError Tables (Unit {0})
unfolding retired prune renew
replace now user kind new_hash keep t =
    let copied = retired now user kind t.credentials in
    if is_taken copied t.history then (fail duplicate_key, t) else (
      ok tt,
      record t {
        history = prune keep user kind (copied ++ t.history);
        credentials = map (renew now user kind new_hash) t.credentials;
      },
    )

-- A user has one credential of a type.
unfoldable pub create_credential : UserCredential → Effect DbError Tables (Unit {0})
create_credential c t =
    if any (λ o. o.id == c.id || is_of c.user_id c.credential_type o.user_id o.credential_type)
      t.credentials
    then (fail duplicate_key, t)
    else (ok tt, record t { credentials = t.credentials ++ (c ∷ []) })

-- The columns of `verification_tokens` and the enum of `token_type` (migrations/20260613000009).
abbrev token_columns : List String
token_columns =
    "id" ∷ "user_id" ∷ "token_hash" ∷ "token_type" ∷ "expires_at" ∷ "used_at" ∷ "created_at" ∷ []

abbrev token_types : List String
token_types = "email_verify" ∷ "password_reset" ∷ []

-- A query is refused that names a column which the table lacks.
unfoldable pub names_columns : List String → Bool
names_columns named = all (λ c. elem c token_columns) named

-- The `INSERT`, for a user that is there.
unfoldable pub create_token : VerificationToken → Effect DbError Tables (Unit {0})
unfolding names_columns
create_token v t =
    if not
      (names_columns ("id" ∷ "user_id" ∷ "token" ∷ "token_type" ∷ "expires_at" ∷ "created_at" ∷ []))
    then (fail undefined_column, t)
    else if not (elem v.token_type token_types)
    then (fail invalid_enum, t)
    else if any (λ o. o.id == v.id || str_eq o.token v.token) t.tokens
    then (fail duplicate_key, t)
    else (ok tt, record t { tokens = t.tokens ++ (v ∷ []) })

-- `none` stands for an error, too.
unfoldable pub get_by_token : String → Tables → Option VerificationToken
unfolding names_columns
get_by_token token t =
    if names_columns
      ("id" ∷ "user_id" ∷ "token" ∷ "token_type" ∷ "expires_at" ∷ "used_at" ∷ "created_at" ∷ [])
    then first_row (λ v. str_eq v.token token) t.tokens
    else none

unfoldable pub mark_token : ℕ → Uuid → VerificationToken → VerificationToken
mark_token now id v = if v.id == id then record v { used_at = some now } else v

unfoldable pub mark_token_used : ℕ → Uuid → Effect DbError Tables (Unit {0})
unfolding mark_token
mark_token_used now id t = (ok tt, record t { tokens = map (mark_token now id) t.tokens })

unfoldable pub get_user : Uuid → Tables → Option User
get_user id t = first_row (λ u. u.id == id && is_live u.deleted_at) t.users

unfoldable pub set_user : User → User → User
set_user u row =
    if row.id == u.id && is_live row.deleted_at
    then record u {
      org_id = row.org_id;
      created_at = row.created_at;
      created_by = row.created_by;
      deleted_at = row.deleted_at;
    }
    else row

unfoldable pub update_user : User → Effect DbError Tables (Unit {0})
unfolding set_user
update_user u t = (ok tt, record t { users = map (set_user u) t.users })
