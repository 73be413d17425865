-- ===== src/Mfa/Generated.antt =====
-- A user who is given backup codes can use each of them (internal/service/mfa/backup.go).
use auth.Base.{
  Any, Bool, List, Option, Result-cases, String, Uuid, ap, arith, false, inl, inr, length, map,
  nil_uuid, ok, ok_injective, refl, some, subst, sym, true, ℕ, ◌==◌, ◌∙◌, ◌≡◌, ◌≢◌,
}
use auth.Mfa.Data.{MfaConfig, Table, get_by_user_id, update, update_row}
use auth.Mfa.Backup.{
  Bcrypt, new_codes, config_for, store_codes, generate, normalise, take_match, consume,
  verify_config, verify,
}
use auth.Mfa.Once.{get-user_id, get-update, length-take_match}
use auth.Mfa.Alphabet.{Verifies, new_codes-Accepted, take_match-some, any-drawn}

config_accepts :
    (b : Bcrypt) (now : ℕ) (code : List ℕ) (rows : Table) (m : MfaConfig) {rest : List String}
    → m.is_backup_codes_enabled ≡ true
    → normalise code ≡ code
    → take_match (λ h. b.compare_hash_and_password h code) m.backup_codes_hash ≡ some rest
    → (verify_config b now code (ok (some m)) rows).0 ≡ ok tt
unfolding verify_config consume
config_accepts b now code rows m {rest} enabled clean taken =
    let (whole, kept) =
      length-take_match (λ h. b.compare_hash_and_password h code) m.backup_codes_hash taken in
    let some_left : (length m.backup_codes_hash == 0) ≡ false = ground (arith, whole) in
    rw (enabled, some_left, clean) (rw taken refl)

-- With a bcrypt that accepts the code that a hash was made of: codes that are given to a user
-- whose configuration exists and has an ID are accepted, each of them, by the table that the
-- generation leaves.
pub verify-generate :
    (b : Bcrypt) (random : ℕ → Option (List ℕ)) (now later : ℕ) (new_id user : Uuid) (rows : Table)
    (code : List ℕ) {m : MfaConfig} {given : List (List ℕ)}
    → Verifies b
    → get_by_user_id user rows ≡ ok (some m)
    → m.id ≢ nil_uuid
    → (generate b random now new_id user rows).0 ≡ ok given
    → Any (λ c. c ≡ code) given
    → (verify b later user code (generate b random now new_id user rows).1).0 ≡ ok tt
unfolding generate store_codes config_for verify update_row
verify-generate b random now later new_id user rows code {m} {given} verifies found named done
      listed =
    elim (Result-cases (new_codes b random 10 0)) [
      | inr (x, e) ↦ absurd (ground (arith, e, done))
      | inl (drawn, e) ↦
          let stored : MfaConfig = record m {
            backup_codes_hash = map (λ d. d.1) drawn;
            is_backup_codes_enabled = true;
            updated_at = now;
          } in
          let matching : String → Bool = λ h. b.compare_hash_and_password h code in
          let hashes : List String = map (λ d. d.1) drawn in
          let other : (m.id == nil_uuid) ≡ false = ground arith in
          let written : (generate b random now new_id user rows)
              ≡ (ok (map (λ d. d.0) drawn), update now stored rows) =
            rw e (rw found (rw other refl)) in
          let same : map (λ d. d.0) drawn ≡ given =
            ok_injective (sym (ap (λ a. a.0) written) ∙ done) in
          let (clean, matches) =
            any-drawn b drawn code (new_codes-Accepted b random 10 0 verifies e)
              (subst (Any (λ c. c ≡ code)) (sym same) listed) in
          let (rest, taken) = take_match-some matching hashes matches in
          let found' = get-update now user stored rows (get-user_id user rows found) found in
          rw written (
            rw found' (
              config_accepts b later code (update now stored rows) (update_row now stored m) refl
                clean taken))
    ]
