-- ===== src/Mfa/Email.antt =====
-- Codes sent by e-mail (internal/service/mfa/email.go), and the table of internal/store/postgres for a
-- database that answers. The limiter, an interface of the source, answers `none` on an error.
use auth.Base.{
  Bool, List, Option, String, Uuid, [], all, any, elem, fail, false, filter, found_or,
  if◌then◌else◌, ltb, map, none, not, ok, refuse_if, return, some, suc, true, ℕ, ◌%◌, ◌&&◌, ◌+◌,
  ◌==◌, ◌>>=◌, ◌>>◌, ◌∷◌,
}
use auth.Redis.{Redis, Reply, down, hit, nil}
use auth.Mfa.Data.{
  Answer, cache_code, create_code_record, get_cached, invalid_code, rate_limit_check, rate_limited,
  read_random,
}
use auth.Mfa.State.{EmailOtpCode, MfaKey, MfaM, MfaState, MfaValue, del, email_code, hash, one, put}
use auth.Mfa.Backup.{Bcrypt, hashed}

-- Six decimal digits, from numbers below ten; `none` where the random source fails.
unfoldable pub email_code_of : Option (List ℕ) → Answer (List ℕ)
email_code_of none = fail read_random
email_code_of (some draws) = ok (map (λ n. b'0' + n % 10) draws)

abbrev is_unused : Option ℕ → Bool
is_unused none = true
is_unused (some t) = false

-- The columns of `email_otp_codes` (migrations/20260613000008), and those that the queries name.
abbrev otp_columns : List String
otp_columns =
    "id" ∷ "user_id" ∷ "code_hash" ∷ "purpose" ∷ "expires_at" ∷ "used_at" ∷ "attempts"
    ∷ "created_at" ∷ []

abbrev named_columns : List String
named_columns =
    "id" ∷ "user_id" ∷ "code" ∷ "purpose" ∷ "expires_at" ∷ "used_at" ∷ "attempts" ∷ "created_at"
    ∷ []

-- The queries name no column that the table lacks.
unfoldable has_named_columns : Bool
has_named_columns = all (λ c. elem c otp_columns) named_columns

-- The enum of the column `purpose`.
abbrev otp_purposes : List String
otp_purposes = "login" ∷ "reset" ∷ "verify" ∷ []

-- `EmailOTPCodeRepository.Create`, of a code for a user that is there.
unfoldable pub create_code : {R : Type 0} → EmailOtpCode → MfaM R (Unit {0})
unfolding has_named_columns
create_code o s =
    if has_named_columns && elem o.purpose otp_purposes && not (any (λ x. x.id == o.id) s.otps)
    then (ok tt, record s { otps = o ∷ s.otps })
    else (fail create_code_record, s)

-- The rows, newest first: `ORDER BY created_at DESC LIMIT 1` of those that are live and unused.
unfoldable newest_active : ℕ → Uuid → List EmailOtpCode → Option EmailOtpCode
newest_active now user [] = none
newest_active now user (o ∷ rows) =
    let rest = newest_active now user rows in
    if o.user_id == user && ltb now o.expires_at && is_unused o.used_at then some o else rest

-- `none` stands for an error, too.
unfoldable pub get_active_by_user_id : ℕ → Uuid → List EmailOtpCode → Option EmailOtpCode
unfolding has_named_columns newest_active
get_active_by_user_id now user rows =
    if has_named_columns then newest_active now user rows else none

unfoldable pub mark_otp_used : ℕ → Uuid → List EmailOtpCode → List EmailOtpCode
mark_otp_used now id rows =
    map (λ o. if o.id == id then record o { used_at = some now } else o) rows

unfoldable pub increment_attempts : Uuid → List EmailOtpCode → List EmailOtpCode
increment_attempts id rows =
    map (λ o. if o.id == id then record o { attempts = suc o.attempts } else o) rows

unfoldable pub mark_active : ℕ → Option EmailOtpCode → List EmailOtpCode → List EmailOtpCode
unfolding mark_otp_used
mark_active now none rows = rows
mark_active now (some o) rows = mark_otp_used now o.id rows

unfoldable pub hash_of : Reply MfaValue → Option String
hash_of (hit (hash h)) = some h
hash_of (hit one) = some "1"
hash_of nil = none
hash_of down = none

module _ (r : Redis MfaKey MfaValue) (b : Bcrypt) where
  unfoldable pub generate_email :
      Option Bool → Option (List ℕ) → ℕ → Uuid → Uuid → String → MfaM r.State (List ℕ)
  unfolding email_code_of put hashed create_code
  generate_email allowed draws now id user purpose = do
    granted ← found_or rate_limit_check allowed
    refuse_if (not granted) rate_limited
    code ← λ s. (email_code_of draws, s)
    h ← λ s. (hashed (b.generate_from_password 0 code), s)
    put r cache_code (email_code user purpose) (hash h) 600
    create_code (record {
      id = id;
      user_id = user;
      code = h;
      purpose = purpose;
      expires_at = now + 600;
      used_at = none;
      attempts = 0;
      created_at = now;
    })
    return code

  unfoldable pub verify_email : ℕ → Uuid → List ℕ → String → MfaM r.State (Unit {0})
  unfolding hash_of del mark_active get_active_by_user_id
  verify_email now user code purpose = do
    h ← λ s. found_or get_cached (hash_of (r.get (email_code user purpose) s.redis)) s
    refuse_if (not (b.compare_hash_and_password h code)) invalid_code
    del r (email_code user purpose)
    λ s. (ok tt, record s { otps = mark_active now (get_active_by_user_id now user s.otps) s.otps })

-- `CleanupExpired`, which deletes every code of the user.
unfoldable pub cleanup_expired : {R : Type 0} → Uuid → MfaState R → MfaState R
cleanup_expired user s = record s { otps = filter (λ o. not (o.user_id == user)) s.otps }
