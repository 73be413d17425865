-- ===== src/Examples/MfaState.antt =====
-- Second factors in Redis at concrete inputs, with a code that is valid when it is the time.
use auth.Base.{
  Bool, List, Result, String, [], arith, codes, eq_iff, fail, false, none, not, ok, refl, some,
  str_eq, true, ℕ, ◌&&◌, ◌==◌, ◌↔◌, ◌∷◌, ◌≡◌, ◌≢◌,
}
use auth.Redis.{Available, Redis}
use auth.Mfa.Data.{
  MfaConfig, MfaError, create_code_record, get_by_user_id, get_cached, is_fully_enabled,
}
use auth.Mfa.State.{MfaKey, MfaState, MfaValue, email_code, replay, step_up}
use auth.Mfa.Backup.{Bcrypt}
use auth.Mfa.Alphabet.{Verifies}
use auth.Mfa.Totp.{Totp, verify_totp}
use auth.Mfa.Email.{generate_email, verify_email}
use auth.Mfa.StepUp.{is_step_up_required, step_up_auth, verify_by}
use auth.Mfa.Replay.{IsValidTotp, verify_email-generate, verify_totp-once}
use auth.Mfa.StepUpLaws.{is_step_up_required-step_up_auth, started, succeeded}
use auth.Examples.Map.{lookup, map_redis, map_redis-Available}

abbrev same_key : MfaKey → MfaKey → Bool
same_key (replay u c) (replay v d) = u == v && str_eq c d
same_key (email_code u p) (email_code v q) = u == v && str_eq p q
same_key (step_up u) (step_up v) = u == v
same_key j k = false

same_key_iff : (j k : MfaKey) → (same_key j k ≡ true) ↔ (j ≡ k)
same_key_iff (replay u c) (replay v d) = ground (arith, eq_iff c d)
same_key_iff (email_code u p) (email_code v q) = ground (arith, eq_iff p q)
same_key_iff (step_up u) (step_up v) = ground arith
same_key_iff j k = ground arith

abbrev redis : Redis MfaKey MfaValue
redis = map_redis same_key

redis-Available : Available redis
redis-Available = map_redis-Available same_key same_key_iff

abbrev totp : Totp
totp = record {
  nonce_size = 1;
  seal = λ plain. some (plain, 0 ∷ []);
  open_sealed = λ iv sealed. some sealed;
  secret_of = λ bytes. some bytes;
  validate = λ now code secret. str_eq code "123456";
}

abbrev bcrypt : Bcrypt
bcrypt = record {
  generate_from_password = λ i code. some "h";
  compare_hash_and_password = λ h code. str_eq h "h";
}

bcrypt-Verifies : Verifies bcrypt
bcrypt-Verifies i code h made = ground (arith, eq_iff h "h")

abbrev config : MfaConfig
config = record {
  id = 5;
  user_id = 7;
  totp_secret_encrypted = 1 ∷ [];
  totp_secret_iv = 0 ∷ [];
  is_totp_enabled = true;
  is_email_otp_enabled = false;
  is_backup_codes_enabled = false;
  backup_codes_hash = [];
  mfa_enabled_at = none;
  created_at = 0;
  updated_at = 0;
}

abbrev state : MfaState redis.State
state = record { configs = config ∷ []; otps = []; redis = record { values = []; sets = [] } }

verify_totp-once_example :
    IsValidTotp totp 100 7 "123456" (config ∷ [])
    × ((verify_totp redis totp 105 7 "123456" (verify_totp redis totp 100 7 "123456" state).1).0
        ≢ ok tt)
unfolding verify_totp lookup
verify_totp-once_example = verify_totp-once redis-Available totp 100 105 7 "123456" state refl

abbrev sent : Result MfaError (List ℕ) × MfaState redis.State
sent =
    generate_email redis bcrypt (some true) (some (1 ∷ 2 ∷ 3 ∷ 4 ∷ 5 ∷ 6 ∷ [])) 100 9 7 "login"
      state

verify_email-generate_example :
    (sent.0 ≡ fail create_code_record)
    × ((verify_email redis bcrypt 160 7 (codes "123456") "login" sent.1).0 ≡ ok tt)
    × ((verify_email redis bcrypt 170 7
          (codes "123456")
          "login"
          (verify_email redis bcrypt 160 7 (codes "123456") "login" sent.1).1).0
        ≡ fail get_cached)
verify_email-generate_example =
    verify_email-generate redis-Available bcrypt (1 ∷ 2 ∷ 3 ∷ 4 ∷ 5 ∷ 6 ∷ []) 100 160 170 9 7
      "login" {h = "h"} state bcrypt-Verifies refl

abbrev attempt : Result MfaError String × MfaState redis.State
attempt = step_up_auth redis totp bcrypt 100 7 "totp" "000000" state

is_step_up_required-step_up_auth_example :
    (succeeded attempt.0
      ≡ succeeded (verify_by redis totp bcrypt 100 7 "totp" "000000" (started redis 7 state)).0)
    × ((is_step_up_required redis totp bcrypt 7 attempt.1).0 ≡ ok (not (succeeded attempt.0)))
unfolding auth.Mfa.Data.get_by_user_id auth.Mfa.Data.is_fully_enabled
is_step_up_required-step_up_auth_example =
    is_step_up_required-step_up_auth redis-Available totp bcrypt 100 7 "totp" "000000" {m = config}
      state refl refl
