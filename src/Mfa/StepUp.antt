-- ===== src/Mfa/StepUp.antt =====
-- Step-up authentication (`StepUpAuth`, `IsStepUpRequired` and `GetMFAConfig` of
-- internal/service/mfa/service.go).
use auth.Base.{
  Bool, String, Uuid, codes, dropped, fail, found_or, if◌then◌else◌, ok, return, str_eq, throw, ℕ,
  ◌>>=◌, ◌>>◌,
}
use auth.Redis.{Redis}
use auth.Mfa.Data.{Answer, check_step_up, is_fully_enabled, set_replay, unknown_method}
use auth.Mfa.State.{MfaKey, MfaM, MfaValue, del, one, put, read_config, step_up}
use auth.Mfa.Backup.{Bcrypt, remaining, verify}
use auth.Mfa.Backup as Backup
use auth.Mfa.Totp.{Totp, verify_totp}
use auth.Mfa.Email.{verify_email}

pub record MfaConfigOutput : Type 0 where
  pub is_totp_enabled : Bool
  pub is_email_otp_enabled : Bool
  pub is_backup_codes_enabled : Bool
  pub backup_codes_remaining : ℕ

-- An error counts as zero.
abbrev pub or_zero : Answer ℕ → ℕ
or_zero (ok n) = n
or_zero (fail e) = 0

unfoldable pub get_mfa_config : {R : Type 0} → Uuid → MfaM R MfaConfigOutput
unfolding read_config remaining
get_mfa_config user = do
  m ← read_config user
  λ s. (
    ok (record {
      is_totp_enabled = m.is_totp_enabled;
      is_email_otp_enabled = m.is_email_otp_enabled;
      is_backup_codes_enabled = m.is_backup_codes_enabled;
      backup_codes_remaining = or_zero (remaining user s.configs);
    }),
    s,
  )

module _ (r : Redis MfaKey MfaValue) (t : Totp) (b : Bcrypt) where
  unfoldable pub verify_backup : ℕ → Uuid → String → MfaM r.State (Unit {0})
  unfolding Backup.verify
  verify_backup now user code s =
      let (o, rows) = Backup.verify b now user (codes code) s.configs in
      (o, record s { configs = rows })

  unfoldable pub verify_by : ℕ → Uuid → String → String → MfaM r.State (Unit {0})
  unfolding verify_totp verify_email verify_backup
  verify_by now user method code =
      if str_eq method "totp"
      then verify_totp r t now user code
      else if str_eq method "email_otp"
      then verify_email r b now user (codes code) "mfa_login"
      else if str_eq method "backup"
      then verify_backup now user code
      else throw unknown_method

  unfoldable pub step_up_enabled : ℕ → Uuid → String → String → MfaM r.State String
  unfolding put verify_by del
  step_up_enabled now user method code = do
    dropped (put r set_replay (step_up user) one 900)
    verify_by now user method code
    del r (step_up user)
    return "step-up successful"

  unfoldable pub step_up_auth : ℕ → Uuid → String → String → MfaM r.State String
  unfolding read_config is_fully_enabled step_up_enabled
  step_up_auth now user method code = do
    m ← read_config user
    if is_fully_enabled m then step_up_enabled now user method code else return "mfa not configured"

  unfoldable pub is_step_up_required : Uuid → MfaM r.State Bool
  is_step_up_required user s = found_or check_step_up (r.exists (step_up user) s.redis) s
