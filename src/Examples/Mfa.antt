-- ===== src/Examples/Mfa.antt =====
-- Backup codes at concrete inputs, with a bcrypt whose hash is the round's number.
use auth.Base.{
  List, Option, String, [], arith, codes, eq_iff, false, inl, none, refl, some, str_eq, suc, true,
  ℕ, ◌∷◌, ◌≡◌, ◌≢◌, ok,
}
use auth.Mfa.Data.{Answer, MfaConfig, Table, get_by_user_id}
use auth.Mfa.Backup.{Bcrypt, generate, verify, remaining}
use auth.Mfa.Once.{verify-once}
use auth.Mfa.Alphabet.{Verifies}
use auth.Mfa.Generated.{verify-generate}

-- Accepts every code for a known hash, so that it is lawful; the second accepts one code.
abbrev lenient : Bcrypt
lenient = record {
  generate_from_password = λ i code. some "h";
  compare_hash_and_password = λ h code. str_eq h "h";
}

lenient-Verifies : Verifies lenient
lenient-Verifies i code h made = ground (arith, eq_iff h "h")

abbrev config : List String → MfaConfig
config hashes = record {
  id = 5;
  user_id = 7;
  totp_secret_encrypted = [];
  totp_secret_iv = [];
  is_totp_enabled = false;
  is_email_otp_enabled = false;
  is_backup_codes_enabled = true;
  backup_codes_hash = hashes;
  mfa_enabled_at = none;
  created_at = 0;
  updated_at = 0;
}

abbrev rows : List String → Table
rows hashes = config hashes ∷ []

found : (hashes : List String) → get_by_user_id 7 (rows hashes) ≡ ok (some (config hashes))
unfolding get_by_user_id
found hashes = refl

abbrev typed : List ℕ
typed = codes " abc "

abbrev spent : Answer (Unit {0}) × Table
spent = verify lenient 10 7 typed (rows ("x" ∷ "h" ∷ []))

verify-once_example :
    ((n : ℕ) × (remaining 7 (rows ("x" ∷ "h" ∷ [])) ≡ ok (suc n)) × (remaining 7 spent.1 ≡ ok n))
    × ((verify lenient 20 7 typed spent.1).0 ≢ ok tt)
unfolding verify
verify-once_example =
    verify-once lenient 10 20 7 typed (rows ("x" ∷ "h" ∷ [])) {m = config ("x" ∷ "h" ∷ [])}
      (found ("x" ∷ "h" ∷ [])) (omega arith) refl

abbrev bytes : ℕ → Option (List ℕ)
bytes i = some (0 ∷ 33 ∷ 66 ∷ 99 ∷ 132 ∷ 165 ∷ 198 ∷ 231 ∷ 255 ∷ i ∷ [])

abbrev drawn : Answer (List (List ℕ)) × Table
drawn = generate lenient bytes 10 0 7 (rows [])

abbrev drawn_code : ℕ → List ℕ
drawn_code last = b'A' ∷ b'B' ∷ b'C' ∷ b'D' ∷ b'E' ∷ b'F' ∷ b'G' ∷ b'H' ∷ b'9' ∷ last ∷ []

verify-generate_example : (verify lenient 20 7 (drawn_code b'A') drawn.1).0 ≡ ok tt
unfolding generate
verify-generate_example =
    verify-generate lenient bytes 10 20 0 7 (rows []) (drawn_code b'A') {m = config []}
      {given = drawn_code b'A'
        ∷ drawn_code b'B'
        ∷ drawn_code b'C'
        ∷ drawn_code b'D'
        ∷ drawn_code b'E'
        ∷ drawn_code b'F'
        ∷ drawn_code b'G'
        ∷ drawn_code b'H'
        ∷ drawn_code b'J'
        ∷ drawn_code b'K'
        ∷ []}
      lenient-Verifies (found []) (ground arith) refl (inl refl)
