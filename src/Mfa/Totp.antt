-- ===== src/Mfa/Totp.antt =====
-- One-time passwords by time (internal/service/mfa/totp.go and encryptor.go). AES-GCM and the TOTP
-- library are parameters.
use auth.Base.{
  Bool, List, Option, String, Uuid, [], false, found_or, if◌then◌else◌, length, nil_uuid, none, not,
  ok, refuse_if, some, true, ℕ, ◌==◌, ◌>>=◌, ◌>>◌, ◌||◌, ◌∷◌,
}
use auth.Redis.{Redis, Reply, down, hit, nil}
use auth.Mfa.Data.{
  MfaConfig, already_used, create, decrypt_secret, encrypt_secret, generate_key, get_by_user_id,
  invalid_code, not_enabled, not_enrolled, set_replay, update,
}
use auth.Mfa.Backup.{config_for}
use auth.Mfa.State.{MfaKey, MfaM, MfaState, MfaValue, one, put, read_config, replay}

-- `seal` draws the nonce; `validate` is `totp.Validate` at the given time.
pub record Totp : Type 0 where
  pub nonce_size : ℕ
  pub seal : List ℕ → Option (List ℕ × List ℕ)
  pub open_sealed : List ℕ → List ℕ → Option (List ℕ)
  pub secret_of : List ℕ → Option (List ℕ)
  pub validate : ℕ → String → List ℕ → Bool

unfoldable pub decrypt : Totp → List ℕ → List ℕ → Option (List ℕ)
decrypt t ciphertext iv =
    let plain = t.open_sealed iv ciphertext in if length iv == t.nonce_size then plain else none

-- `make([]byte, 20)`
unfoldable pub blank_secret : List ℕ
blank_secret = 0 ∷ 0 ∷ 0 ∷ 0 ∷ 0 ∷ 0 ∷ 0 ∷ 0 ∷ 0 ∷ 0 ∷ 0 ∷ 0 ∷ 0 ∷ 0 ∷ 0 ∷ 0 ∷ 0 ∷ 0 ∷ 0 ∷ 0 ∷ []

unfoldable pub is_seen : Reply MfaValue → Bool
is_seen (hit v) = true
is_seen nil = false
is_seen down = false

module _ (r : Redis MfaKey MfaValue) (t : Totp) where
  unfoldable pub store_config : ℕ → MfaConfig → MfaState r.State → MfaState r.State
  unfolding create update
  store_config now m s = record s {
    configs = if m.id == nil_uuid then create m s.configs else update now m s.configs;
  }

  -- The secret, which is also shown as a QR code.
  unfoldable pub enroll : ℕ → Uuid → Uuid → MfaM r.State (List ℕ)
  unfolding blank_secret get_by_user_id config_for store_config
  enroll now new_id user = do
    secret ← found_or generate_key (t.secret_of blank_secret)
    found ← λ s. (get_by_user_id user s.configs, s)
    sealed ← found_or encrypt_secret (t.seal secret)
    λ s. (
      ok secret,
      store_config now
          (record (config_for now new_id user found) {
            totp_secret_encrypted = sealed.0;
            totp_secret_iv = sealed.1;
            is_totp_enabled = false;
            updated_at = now;
          })
          s,
    )

  -- A code that is valid for the secret and has no replay key; it gets one for 30 seconds.
  unfoldable pub accept_once : ℕ → Uuid → String → MfaConfig → MfaM r.State (Unit {0})
  unfolding decrypt is_seen put
  accept_once now user code m = do
    secret ← found_or decrypt_secret (decrypt t m.totp_secret_encrypted m.totp_secret_iv)
    refuse_if (not (t.validate now code secret)) invalid_code
    λ s. refuse_if (is_seen (r.get (replay user code) s.redis)) already_used s
    put r set_replay (replay user code) one 30

  unfoldable pub enable : ℕ → Uuid → String → MfaM r.State (Unit {0})
  unfolding accept_once read_config update
  enable now user code = do
    m ← read_config user
    refuse_if (length m.totp_secret_encrypted == 0) not_enrolled
    accept_once now user code m
    λ s. (
      ok tt,
      record s {
        configs =
            update now
              (record m { is_totp_enabled = true; mfa_enabled_at = some now; updated_at = now })
              s.configs;
      },
    )

  unfoldable pub verify_totp : ℕ → Uuid → String → MfaM r.State (Unit {0})
  unfolding accept_once read_config
  verify_totp now user code = do
    m ← read_config user
    refuse_if (not m.is_totp_enabled || length m.totp_secret_encrypted == 0) not_enabled
    accept_once now user code m
