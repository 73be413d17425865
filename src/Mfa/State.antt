-- ===== src/Mfa/State.antt =====
-- What the second factors keep: the table of configurations, the codes sent by e-mail, and the keys of
-- internal/service/mfa in Redis.
use auth.Base.{Effect, List, Option, String, Uuid, fail, if◌then◌else◌, none, ok, pos, some, ℕ}
use auth.Redis.{Redis}
use auth.Mfa.Data.{Answer, MfaConfig, MfaError, Table, config_not_found, get_by_user_id}

-- A key by its format: "mfa:totp:replay:%s:%s", "mfa:email_otp:code:%s:%s" and "mfa:stepup:%s"; the
-- first text is that of a user's id, which has a fixed length.
pub data MfaKey : Type 0 where
  replay : Uuid → String → MfaKey
  email_code : Uuid → String → MfaKey
  step_up : Uuid → MfaKey

-- "1", or the text of a hash.
pub data MfaValue : Type 0 where
  one : MfaValue
  hash : String → MfaValue

-- internal/domain/mfa.go
pub record EmailOtpCode : Type 0 where
  pub id : Uuid
  pub user_id : Uuid
  pub code : String
  pub purpose : String
  pub expires_at : ℕ
  pub used_at : Option ℕ
  pub attempts : ℕ
  pub created_at : ℕ

pub record MfaState (R : Type 0) : Type 0 where
  pub configs : Table
  pub otps : List EmailOtpCode
  pub redis : R

abbrev pub MfaM : Type 0 → Type 0 → Type 0
MfaM R A = Effect MfaError (MfaState R) A

unfoldable pub config_of : Answer (Option MfaConfig) → Answer MfaConfig
config_of (fail e) = fail e
config_of (ok none) = fail config_not_found
config_of (ok (some m)) = ok m

-- `GetByUserID`, and the test for nil that follows it.
unfoldable pub read_config : {R : Type 0} → Uuid → MfaM R MfaConfig
unfolding config_of get_by_user_id
read_config user s = (config_of (get_by_user_id user s.configs), s)

module _ (r : Redis MfaKey MfaValue) where
  -- `SET` with a time to live in seconds.
  unfoldable pub put : MfaError → MfaKey → MfaValue → ℕ → MfaM r.State (Unit {0})
  put e k v ttl s =
      let (redis, accepted) = r.set k v (pos ttl) s.redis in
      (if accepted then ok tt else fail e, record s { redis = redis })

  unfoldable pub del : MfaKey → MfaM r.State (Unit {0})
  del k s = (ok tt, record s { redis = (r.del k s.redis).0 })
