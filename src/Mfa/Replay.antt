-- ===== src/Mfa/Replay.antt =====
-- A one-time password and a code sent by e-mail are good for one use (internal/service/mfa/totp.go and
-- email.go).
use auth.Base.{
  List, Option-cases, Result-cases, String, Uuid, ap, arith, fail, false, inl, inr, length, map,
  none, not, ok, pos, refl, some, sym, true, ℕ, ◌%◌, ◌+◌, ◌==◌, ◌||◌, ◌∙◌, ◌≡◌, ◌≢◌,
}
use auth.Redis.{Available, Redis, hit, nil}
use auth.Mfa.Data.{MfaConfig, Table, create_code_record, get_by_user_id, get_cached}
use auth.Mfa.State.{
  MfaKey, MfaState, MfaValue, config_of, del, email_code, hash, one, put, read_config, replay,
}
use auth.Mfa.Email.{create_code, email_code_of, generate_email, hash_of, verify_email}
use auth.Mfa.Backup.{Bcrypt, hashed}
use auth.Mfa.Alphabet.{Verifies}
use auth.Mfa.Totp.{Totp, accept_once, decrypt, is_seen, verify_totp}

-- The user has enabled the factor, and the code is valid now for the secret that was enrolled.
abbrev pub IsValidTotp : Totp → ℕ → Uuid → String → Table → Type 0
IsValidTotp t now user code rows =
    (m : MfaConfig) × (get_by_user_id user rows ≡ ok (some m))
    × (m.is_totp_enabled ≡ true)
    × ((secret : List ℕ) × (decrypt t m.totp_secret_encrypted m.totp_secret_iv ≡ some secret)
        × (t.validate now code secret ≡ true))

module _ {r : Redis MfaKey MfaValue} (a : Available r) where
  module _ (t : Totp) where
    accepted :
        (now : ℕ) (user : Uuid) (code : String) (m : MfaConfig) (s : MfaState r.State)
        → (accept_once r t now user code m s).0 ≡ ok tt
        → ((secret : List ℕ) × (decrypt t m.totp_secret_encrypted m.totp_secret_iv ≡ some secret)
            × (t.validate now code secret ≡ true))
          × (r.get (replay user code) (accept_once r t now user code m s).1.redis ≡ hit one)
    unfolding accept_once put is_seen
    accepted now user code m s done =
        elim (Option-cases (decrypt t m.totp_secret_encrypted m.totp_secret_iv)) [
          | inl broken ↦ absurd (ground (arith, broken))
          | inr (secret, plain) ↦
              let valid : t.validate now code secret ≡ true = ground (arith, plain) in
              let fresh : is_seen (r.get (replay user code) s.redis) ≡ false =
                ground (arith, plain, valid) in
              (
                (secret, plain, valid),
                rw (plain, valid, fresh)
                    (a.get-set_self (replay user code) one 30 s.redis (omega arith)),
              )
        ]

    seen_refused :
        (now : ℕ) (user : Uuid) (code : String) (m : MfaConfig) (s : MfaState r.State)
        → r.get (replay user code) s.redis ≡ hit one
        → (accept_once r t now user code m s).0 ≢ ok tt
    unfolding accept_once is_seen
    seen_refused now user code m s seen done = ground (arith, seen)

    opened :
        (now : ℕ) (user : Uuid) (code : String) (s : MfaState r.State)
        → (verify_totp r t now user code s).0 ≡ ok tt
        → (m : MfaConfig) × (get_by_user_id user s.configs ≡ ok (some m))
          × (m.is_totp_enabled ≡ true)
          × (verify_totp r t now user code s ≡ accept_once r t now user code m s)
    unfolding verify_totp read_config config_of
    opened now user code s done = elim (Result-cases (get_by_user_id user s.configs)) [
      | inr (e, missing) ↦ absurd (ground (arith, missing))
      | inl (none, empty) ↦ absurd (ground (arith, empty))
      | inl (some m, held) ↦
          let guard : (not m.is_totp_enabled || length m.totp_secret_encrypted == 0) ≡ false =
            ground (arith, held) in
          (m, held, ground (arith, guard), rw held (rw guard refl))
    ]

    refused_seen :
        (now : ℕ) (user : Uuid) (code : String) (s : MfaState r.State)
        → r.get (replay user code) s.redis ≡ hit one
        → (verify_totp r t now user code s).0 ≢ ok tt
    refused_seen now user code s seen done =
        let (m, held, enabled, same) = opened now user code s done in
        seen_refused now user code m s seen (ap (λ p. p.0) (sym same) ∙ done)

    -- A one-time password is accepted only if the user has enabled the factor and the code is valid now
    -- for the secret that was enrolled; and then it is not accepted again while its key is in Redis,
    -- whatever the time is by then.
    pub verify_totp-once :
        (now later : ℕ) (user : Uuid) (code : String) (s : MfaState r.State)
        → (verify_totp r t now user code s).0 ≡ ok tt
        → IsValidTotp t now user code s.configs
          × ((verify_totp r t later user code (verify_totp r t now user code s).1).0 ≢ ok tt)
    verify_totp-once now later user code s done =
        let (m, held, enabled, same) = opened now user code s done in
        let (valid, kept) = accepted now user code m s (ap (λ p. p.0) (sym same) ∙ done) in
        let kept' : r.get (replay user code) (verify_totp r t now user code s).1.redis ≡ hit one =
          rw same kept in
        ((m, held, enabled, valid), refused_seen later user code _ kept')

  module _ (b : Bcrypt) where
    generate_email_lem :
        (draws : List ℕ) (now : ℕ) (id user : Uuid) (purpose : String) {h : String}
        (s : MfaState r.State)
        → b.generate_from_password 0 (map (λ n. b'0' + n % 10) draws) ≡ some h
        → let (answer, s') = generate_email r b (some true) (some draws) now id user purpose s in
          (answer ≡ fail create_code_record)
          × (r.get (email_code user purpose) s'.redis ≡ hit (hash h))
    unfolding generate_email put hashed email_code_of create_code
    generate_email_lem draws now id user purpose {h} s made =
        let written = a.set_ok (email_code user purpose) (hash h) (pos 600) s.redis in
        rw made (
          rw written
            (refl, a.get-set_self (email_code user purpose) (hash h) 600 s.redis (omega arith)))

    verified_email :
        (now : ℕ) (user : Uuid) (code : List ℕ) (purpose : String) {h : String}
        (s : MfaState r.State)
        → r.get (email_code user purpose) s.redis ≡ hit (hash h)
        → b.compare_hash_and_password h code ≡ true
        → ((verify_email r b now user code purpose s).0 ≡ ok tt)
          × (r.get (email_code user purpose) (verify_email r b now user code purpose s).1.redis
              ≡ nil)
    unfolding verify_email hash_of del
    verified_email now user code purpose s held matches =
        rw (held, matches) (refl, a.get-del_self (email_code user purpose) s.redis)

    missing_email :
        (now : ℕ) (user : Uuid) (code : List ℕ) (purpose : String) (s : MfaState r.State)
        → r.get (email_code user purpose) s.redis ≡ nil
        → (verify_email r b now user code purpose s).0 ≡ fail get_cached
    unfolding verify_email hash_of
    missing_email now user code purpose s gone = rw gone refl

    -- A code whose hash was made and that the limiter grants is not handed out, since its record cannot
    -- be written; yet it is in force: with a hash that accepts what it was made of, it is accepted for
    -- the user and the purpose that it was made for, and then refused, until another is generated.
    pub verify_email-generate :
        (draws : List ℕ) (now later again : ℕ) (id user : Uuid) (purpose : String) {h : String}
        (s : MfaState r.State)
        → Verifies b
        → b.generate_from_password 0 (map (λ n. b'0' + n % 10) draws) ≡ some h
        → let code : List ℕ = map (λ n. b'0' + n % 10) draws in
          let (answer, s') = generate_email r b (some true) (some draws) now id user purpose s in
          let (checked, s'') = verify_email r b later user code purpose s' in
          (answer ≡ fail create_code_record)
          × (checked ≡ ok tt)
          × ((verify_email r b again user code purpose s'').0 ≡ fail get_cached)
    verify_email-generate draws now later again id user purpose {h} s verifies made =
        let code : List ℕ = map (λ n. b'0' + n % 10) draws in
        let (refused, held) = generate_email_lem draws now id user purpose s made in
        let (checked, gone) =
          verified_email later user code purpose _ held (verifies 0 code h made) in
        (refused, checked, missing_email again user code purpose _ gone)
