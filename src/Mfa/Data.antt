-- ===== src/Mfa/Data.antt =====
-- The factors that a user has set up (internal/domain/mfa.go), and the table that keeps them
-- (`MFAConfigRepository` of internal/store/postgres/repository.go), for a database that answers.
use auth.Base.{
  Bool, List, Option, Result, String, Uuid, [], fail, if◌then◌else◌, length, ltb, ok, some, ℕ, ◌&&◌,
  ◌==◌, ◌||◌, ◌∷◌,
}

pub record MfaConfig : Type 0 where
  pub id : Uuid
  pub user_id : Uuid
  pub totp_secret_encrypted : List ℕ
  pub totp_secret_iv : List ℕ
  pub is_totp_enabled : Bool
  pub is_email_otp_enabled : Bool
  pub is_backup_codes_enabled : Bool
  pub backup_codes_hash : List String
  pub mfa_enabled_at : Option ℕ
  pub created_at : ℕ
  pub updated_at : ℕ

unfoldable pub has_totp : MfaConfig → Bool
has_totp m = m.is_totp_enabled && ltb 0 (length m.totp_secret_encrypted)

unfoldable pub has_backup_codes : MfaConfig → Bool
has_backup_codes m = m.is_backup_codes_enabled && ltb 0 (length m.backup_codes_hash)

unfoldable pub is_fully_enabled : MfaConfig → Bool
is_fully_enabled m =
    (m.is_totp_enabled && ltb 0 (length m.totp_secret_encrypted))
    || m.is_email_otp_enabled
    || (m.is_backup_codes_enabled && ltb 0 (length m.backup_codes_hash))

pub data MfaError : Type 0 where
  read_random hash_code get_config config_not_found not_enabled invalid_code : MfaError
  generate_key encrypt_secret not_enrolled decrypt_secret already_used set_replay : MfaError
  rate_limit_check rate_limited cache_code create_code_record get_cached unknown_method
        check_step_up :
      MfaError

abbrev pub Answer : Type 0 → Type 0
Answer A = Result MfaError A

-- The rows of `mfa_configs`; `user_id` is unique.
abbrev pub Table : Type 0
Table = List MfaConfig

-- `SELECT … WHERE user_id = $1`; a missing row is an error.
unfoldable pub get_by_user_id : Uuid → Table → Answer (Option MfaConfig)
get_by_user_id user [] = fail get_config
get_by_user_id user (m ∷ rows) =
    let rest = get_by_user_id user rows in if m.user_id == user then ok (some m) else rest

-- `UPDATE … WHERE user_id = $1`: the columns that it sets.
unfoldable pub update_row : ℕ → MfaConfig → MfaConfig → MfaConfig
update_row now new old = record new {
  id = old.id;
  user_id = old.user_id;
  created_at = old.created_at;
  updated_at = now;
}

unfoldable pub update : ℕ → MfaConfig → Table → Table
unfolding update_row
update now new [] = []
update now new (m ∷ rows) =
    (if m.user_id == new.user_id then update_row now new m else m) ∷ update now new rows

unfoldable pub create : MfaConfig → Table → Table
create m rows = m ∷ rows
