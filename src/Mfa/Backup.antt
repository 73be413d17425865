-- ===== src/Mfa/Backup.antt =====
-- Backup codes (internal/service/mfa/backup.go). A code is a list of characters.
use auth.Base.{
  Bool, List, Option, String, Uuid, [], bind, codes, fail, false, if◌then◌else◌, length, map,
  nil_uuid, none, not, ok, some, suc, true, zero, ℕ, ◌%◌, ◌==◌, ◌||◌, ◌∷◌,
}
use auth.Text.{char_at, to_upper, trim_space}
use auth.Mfa.Data.{
  Answer, MfaConfig, Table, config_not_found, create, get_by_user_id, hash_code, invalid_code,
  not_enabled, read_random, update,
}

-- bcrypt, which is not under src/: the hash of the code drawn in the given round, and the comparison.
pub record Bcrypt : Type 0 where
  pub generate_from_password : ℕ → List ℕ → Option String
  pub compare_hash_and_password : String → List ℕ → Bool

unfoldable pub chars : List ℕ
chars = codes "ABCDEFGHJKLMNPQRSTUVWXYZ23456789"

-- `rand.Read` fills ten bytes, or fails.
unfoldable pub generate_code : Option (List ℕ) → Answer (List ℕ)
unfolding chars char_at
generate_code none = fail read_random
generate_code (some bytes) = ok (map (λ b. char_at chars (b % length chars)) bytes)

unfoldable pub hashed : Option String → Answer String
hashed none = fail hash_code
hashed (some h) = ok h

-- The loop: `n` rounds from round `i` on, each a code and its hash.
unfoldable pub new_codes : Bcrypt → (ℕ → Option (List ℕ)) → ℕ → ℕ → Answer (List (List ℕ × String))
unfolding generate_code hashed
new_codes b random zero i = ok []
new_codes b random (suc n) i =
    let rest = new_codes b random n (suc i) in
    bind
      (λ code.
        bind (λ hash. bind (λ more. ok ((code, hash) ∷ more)) rest)
          (hashed (b.generate_from_password i code)))
      (generate_code (random i))

-- The configuration that is written; a user without one gets a new one.
unfoldable pub config_for : ℕ → Uuid → Uuid → Option MfaConfig → MfaConfig
config_for now new_id user none = record {
  id = new_id;
  user_id = user;
  totp_secret_encrypted = [];
  totp_secret_iv = [];
  is_totp_enabled = false;
  is_email_otp_enabled = false;
  is_backup_codes_enabled = false;
  backup_codes_hash = [];
  mfa_enabled_at = none;
  created_at = now;
  updated_at = 0;
}
config_for now new_id user (some m) = m

unfoldable pub store_codes :
    ℕ
    → Uuid
    → Uuid
    → Answer (List (List ℕ × String))
    → Answer (Option MfaConfig)
    → Table
    → Answer (List (List ℕ)) × Table
unfolding config_for create update
store_codes now new_id user (fail e) found rows = (fail e, rows)
store_codes now new_id user (ok drawn) (fail e) rows = (fail e, rows)
store_codes now new_id user (ok drawn) (ok found) rows =
    let m = record (config_for now new_id user found) {
      backup_codes_hash = map (λ d. d.1) drawn;
      is_backup_codes_enabled = true;
      updated_at = now;
    } in
    (ok (map (λ d. d.0) drawn), if m.id == nil_uuid then create m rows else update now m rows)

unfoldable pub generate :
    Bcrypt → (ℕ → Option (List ℕ)) → ℕ → Uuid → Uuid → Table → Answer (List (List ℕ)) × Table
unfolding new_codes get_by_user_id store_codes
generate b random now new_id user rows =
    store_codes now new_id user (new_codes b random 10 0) (get_by_user_id user rows) rows

-- `strings.ToUpper(strings.TrimSpace(code))`
unfoldable pub normalise : List ℕ → List ℕ
unfolding trim_space to_upper
normalise code = map to_upper (trim_space code)

abbrev pub cons_rest : String → Option (List String) → Option (List String)
cons_rest h none = none
cons_rest h (some rest) = some (h ∷ rest)

-- The hashes without the first that matches; `none` if none does.
unfoldable pub take_match : (String → Bool) → List String → Option (List String)
take_match p [] = none
take_match p (h ∷ hs) = let rest = take_match p hs in if p h then some hs else cons_rest h rest

unfoldable pub consume : ℕ → MfaConfig → Option (List String) → Table → Answer (Unit {0}) × Table
unfolding update
consume now m none rows = (fail invalid_code, rows)
consume now m (some rest) rows =
    (ok tt, update now (record m { backup_codes_hash = rest; updated_at = now }) rows)

unfoldable pub verify_config :
    Bcrypt → ℕ → List ℕ → Answer (Option MfaConfig) → Table → Answer (Unit {0}) × Table
unfolding normalise take_match consume
verify_config b now code (fail e) rows = (fail e, rows)
verify_config b now code (ok none) rows = (fail config_not_found, rows)
verify_config b now code (ok (some m)) rows =
    if not m.is_backup_codes_enabled || length m.backup_codes_hash == 0
    then (fail not_enabled, rows)
    else consume now m
        (take_match (λ h. b.compare_hash_and_password h (normalise code)) m.backup_codes_hash) rows

unfoldable pub verify : Bcrypt → ℕ → Uuid → List ℕ → Table → Answer (Unit {0}) × Table
unfolding verify_config get_by_user_id
verify b now user code rows = verify_config b now code (get_by_user_id user rows) rows

unfoldable pub codes_left : Answer (Option MfaConfig) → Answer ℕ
codes_left (fail e) = fail e
codes_left (ok none) = fail config_not_found
codes_left (ok (some m)) = ok (length m.backup_codes_hash)

unfoldable pub remaining : Uuid → Table → Answer ℕ
unfolding codes_left get_by_user_id
remaining user rows = codes_left (get_by_user_id user rows)
