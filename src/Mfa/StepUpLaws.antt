-- ===== src/Mfa/StepUpLaws.antt =====
-- When a step-up is required (`StepUpAuth` and `IsStepUpRequired` of internal/service/mfa/service.go).
use auth.Base.{
  Bool, Bool-cases, List, Result, Result-cases, String, Uuid, arith, codes, fail, false,
  if◌then◌else◌, inl, inr, length, not, ok, pos, refl, some, str_eq, true, ℕ, ◌==◌, ◌||◌, ◌∙◌, ◌≡◌,
  ◌≢◌,
}
use auth.Redis.{Available, Redis, hit, nil}
use auth.Mfa.Data.{MfaConfig, MfaError, get_by_user_id, is_fully_enabled, set_replay}
use auth.Mfa.StepUp.{is_step_up_required, step_up_auth, step_up_enabled, verify_backup, verify_by}
use auth.Mfa.State.{
  MfaKey, MfaState, MfaValue, config_of, del, email_code, one, put, read_config, replay, step_up,
}
use auth.Mfa.Backup.{Bcrypt}
use auth.Mfa.Totp.{Totp, accept_once, verify_totp}
use auth.Mfa.Email.{verify_email}

abbrev pub succeeded : {E A : Type 0} → Result E A → Bool
succeeded (ok a) = true
succeeded (fail e) = false

-- The state in which the factor is tried: the key of the step-up is set.
abbrev pub started : (r : Redis MfaKey MfaValue) → Uuid → MfaState r.State → MfaState r.State
started r user s = record s { redis = (r.set (step_up user) one (pos 900) s.redis).0 }

module _ {r : Redis MfaKey MfaValue} (a : Available r) (t : Totp) (b : Bcrypt) where
  get-put_ne :
      (e : MfaError) (j k : MfaKey) (v : MfaValue) (n : ℕ) (s : MfaState r.State)
      → j ≢ k
      → r.get j (put r e k v n s).1.redis ≡ r.get j s.redis
  unfolding put
  get-put_ne e j k v n s other = a.get-set_ne j k v (pos n) s.redis other

  get-accept_once :
      (now : ℕ) (user : Uuid) (code : String) (m : MfaConfig) (s : MfaState r.State)
      → r.get (step_up user) (accept_once r t now user code m s).1.redis
        ≡ r.get (step_up user) s.redis
  unfolding accept_once
  get-accept_once now user code m s =
      let kept = get-put_ne set_replay (step_up user) (replay user code) one 30 s (ground arith) in
      ground (arith, kept)

  get-verify_email :
      (now : ℕ) (user : Uuid) (code : List ℕ) (purpose : String) (s : MfaState r.State)
      → r.get (step_up user) (verify_email r b now user code purpose s).1.redis
        ≡ r.get (step_up user) s.redis
  unfolding verify_email del
  get-verify_email now user code purpose s =
      let kept = a.get-del_ne (step_up user) (email_code user purpose) s.redis (ground arith) in
      ground (arith, kept)

  get-verify_totp :
      (now : ℕ) (user : Uuid) (code : String) (s : MfaState r.State)
      → r.get (step_up user) (verify_totp r t now user code s).1.redis
        ≡ r.get (step_up user) s.redis
  unfolding verify_totp read_config
  get-verify_totp now user code s =
      elim (Result-cases (config_of (get_by_user_id user s.configs))) [
        | inr (e, missing) ↦ rw missing refl
        | inl (m, held) ↦
            elim (Bool-cases (not m.is_totp_enabled || length m.totp_secret_encrypted == 0)) [
              | inl off ↦ rw held (rw off refl)
              | inr on ↦ rw held (rw on (get-accept_once now user code m s))
            ]
      ]

  -- No factor touches the key of the step-up.
  get-verify_by :
      (now : ℕ) (user : Uuid) (method code : String) (s : MfaState r.State)
      → r.get (step_up user) (verify_by r t b now user method code s).1.redis
        ≡ r.get (step_up user) s.redis
  unfolding verify_by verify_backup
  get-verify_by now user method code s = elim (Bool-cases (str_eq method "totp")) [
    | inl totp ↦ rw totp (get-verify_totp now user code s)
    | inr other ↦ elim (Bool-cases (str_eq method "email_otp")) [
      | inl email ↦ rw (other, email) (get-verify_email now user (codes code) "mfa_login" s)
      | inr neither ↦ elim (Bool-cases (str_eq method "backup")) [
        | inl backup ↦ rw (other, neither, backup) refl
        | inr unknown ↦ rw (other, neither, unknown) refl
      ]
    ]
  ]

  enabled_step_up :
      (now : ℕ) (user : Uuid) (method code : String) {m : MfaConfig} (s : MfaState r.State)
      → get_by_user_id user s.configs ≡ ok (some m)
      → is_fully_enabled m ≡ true
      → step_up_auth r t b now user method code s ≡ step_up_enabled r t b now user method code s
  unfolding step_up_auth read_config config_of
  enabled_step_up now user method code s held enabled = rw held (rw enabled refl)

  attempt_ok :
      (now : ℕ) (user : Uuid) (method code : String) {done : Unit {0}} (s : MfaState r.State)
      → (verify_by r t b now user method code (started r user s)).0 ≡ ok done
      → step_up_enabled r t b now user method code s ≡ (
        ok "step-up successful",
        (del r (step_up user) (verify_by r t b now user method code (started r user s)).1).1,
      )
  unfolding step_up_enabled put del
  attempt_ok now user method code s accepted = ground (arith, accepted)

  attempt_fail :
      (now : ℕ) (user : Uuid) (method code : String) {e : MfaError} (s : MfaState r.State)
      → (verify_by r t b now user method code (started r user s)).0 ≡ fail e
      → step_up_enabled r t b now user method code s
        ≡ (fail e, (verify_by r t b now user method code (started r user s)).1)
  unfolding step_up_enabled put del
  attempt_fail now user method code s refused = ground (arith, refused)

  -- What is left of an attempt.
  attempted :
      (now : ℕ) (user : Uuid) (method code : String) (s : MfaState r.State)
      → let (answer, s') = step_up_enabled r t b now user method code s in
        (succeeded answer ≡ succeeded (verify_by r t b now user method code (started r user s)).0)
        × (r.get (step_up user) s'.redis ≡ (if succeeded answer then nil else hit one))
  unfolding del
  attempted now user method code s =
      elim (Result-cases (verify_by r t b now user method code (started r user s)).0) [
        | inl (done, accepted) ↦
            rw (attempt_ok now user method code s accepted)
              (rw accepted refl, a.get-del_self (step_up user) _)
        | inr (e, refused) ↦ rw (attempt_fail now user method code s refused) (
          rw refused refl,
          get-verify_by now user method code (started r user s)
              ∙ a.get-set_self (step_up user) one 900 s.redis (omega arith),
        )
      ]

  -- For a user who has a factor set up, an attempt at a step-up succeeds exactly if the named factor
  -- accepts the code, and from then on a step-up is required exactly if the attempt failed.
  pub is_step_up_required-step_up_auth :
      (now : ℕ) (user : Uuid) (method code : String) {m : MfaConfig} (s : MfaState r.State)
      → get_by_user_id user s.configs ≡ ok (some m)
      → is_fully_enabled m ≡ true
      → let (answer, s') = step_up_auth r t b now user method code s in
        (succeeded answer ≡ succeeded (verify_by r t b now user method code (started r user s)).0)
        × ((is_step_up_required r t b user s').0 ≡ ok (not (succeeded answer)))
  unfolding is_step_up_required
  is_step_up_required-step_up_auth now user method code s held enabled =
      let (agrees, left) = attempted now user method code s in
      rw (enabled_step_up now user method code s held enabled) (
        agrees,
        rw (a.exists-get (step_up user) _, left)
            (elim (Bool-cases (succeeded (step_up_enabled r t b now user method code s).0)) [
              | inl done ↦ rw done refl
              | inr refused ↦ rw refused refl
            ]),
      )
