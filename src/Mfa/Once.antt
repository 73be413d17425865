-- ===== src/Mfa/Once.antt =====
-- Each backup code is good for one use (internal/service/mfa/backup.go).
use auth.Base.{
  Bool, Bool-cases, List, Option-cases, String, Uuid, [], ap, arith, false, filter, inl, inr,
  length, none, not, ok, refl, some, suc, sym, true, ℕ, ◌==◌, ◌||◌, ◌∙◌, ◌∷◌, ◌≡◌, ◌≢◌, ◌≤◌,
}
use auth.Mfa.Data.{MfaConfig, Table, get_by_user_id, update, update_row}
use auth.Mfa.Backup.{
  Bcrypt, normalise, take_match, consume, verify_config, verify, remaining, codes_left,
}

pub get-user_id :
    (user : Uuid) (rows : Table) {m : MfaConfig}
    → get_by_user_id user rows ≡ ok (some m)
    → m.user_id ≡ user
unfolding get_by_user_id
get-user_id user [] found = absurd (ground arith)
get-user_id user (x ∷ rows) {m} found = elim (Bool-cases (x.user_id == user)) [
  | inl same ↦ let here : x ≡ m = ground arith in ap (λ y. y.user_id) (sym here) ∙ ground arith
  | inr other ↦ get-user_id user rows {m = m} (ground arith)
]

-- The row of the user after it is written.
pub get-update :
    (now : ℕ) (user : Uuid) (new : MfaConfig) (rows : Table) {m : MfaConfig}
    → new.user_id ≡ user
    → get_by_user_id user rows ≡ ok (some m)
    → get_by_user_id user (update now new rows) ≡ ok (some (update_row now new m))
unfolding get_by_user_id update update_row
get-update now user new [] same found = absurd (ground arith)
get-update now user new (x ∷ rows) {m} same found = elim (Bool-cases (x.user_id == user)) [
  | inl own ↦
      let here : x ≡ m = ground arith in
      let written : (x.user_id == new.user_id) ≡ true = rw same own in
      rw written (rw own (ap (λ y. ok (some (update_row now new y))) here))
  | inr other ↦
      let kept : (x.user_id == new.user_id) ≡ false = rw same other in
      rw kept (rw other (get-update now user new rows {m = m} same (ground arith)))
]

pub length-take_match :
    (p : String → Bool) (hs : List String) {rest : List String}
    → take_match p hs ≡ some rest
    → (length hs ≡ suc (length rest)) × (length (filter p hs) ≡ suc (length (filter p rest)))
unfolding take_match
length-take_match p [] found = absurd (ground arith)
length-take_match p (h ∷ hs) {rest} found = elim (Option-cases (take_match p hs)) [
  | inl e ↦ ground (arith, e)
  | inr (r, e) ↦ let (whole, kept) = length-take_match p hs e in ground (arith, e, whole, kept)
]

take_match-none :
    (p : String → Bool) (hs : List String) → length (filter p hs) ≡ 0 → take_match p hs ≡ none
unfolding take_match
take_match-none p [] h = refl
take_match-none p (x ∷ hs) h = ground (arith, take_match-none p hs)

config_verified :
    (b : Bcrypt) (now : ℕ) (code : List ℕ) (rows : Table) (m : MfaConfig)
    → (verify_config b now code (ok (some m)) rows).0 ≡ ok tt
    → (rest : List String) × (take_match
          (λ h. b.compare_hash_and_password h (normalise code))
          m.backup_codes_hash
        ≡ some rest)
      × ((verify_config b now code (ok (some m)) rows).1
          ≡ update now (record m { backup_codes_hash = rest; updated_at = now }) rows)
unfolding verify_config consume
config_verified b now code rows m done =
    elim (Bool-cases (not m.is_backup_codes_enabled || length m.backup_codes_hash == 0)) [
      | inl off ↦ absurd (ground (arith, off))
      | inr on ↦
          elim (Option-cases (
            take_match (λ h. b.compare_hash_and_password h (normalise code)) m.backup_codes_hash)) [
              | inl missed ↦ absurd (ground (arith, on, missed))
              | inr (rest, taken) ↦ (rest, taken, rw on (rw taken refl))
            ]
    ]

-- A verification that succeeds takes the first matching hash out of an enabled configuration.
verified :
    (b : Bcrypt) (now : ℕ) (user : Uuid) (code : List ℕ) (rows : Table) {m : MfaConfig}
    → get_by_user_id user rows ≡ ok (some m)
    → (verify b now user code rows).0 ≡ ok tt
    → (rest : List String) × (take_match
          (λ h. b.compare_hash_and_password h (normalise code))
          m.backup_codes_hash
        ≡ some rest)
      × ((verify b now user code rows).1
          ≡ update now (record m { backup_codes_hash = rest; updated_at = now }) rows)
unfolding verify verify_config consume
verified b now user code rows {m} found done =
    let (rest, taken, after) =
      config_verified b now code rows m
        (ap (λ a. (verify_config b now code a rows).0) (sym found) ∙ done) in
    (rest, taken, ap (λ a. (verify_config b now code a rows).1) found ∙ after)

-- A backup code that is accepted is spent: one code fewer remains, and if no second hash matches
-- it, it is not accepted again by the table that is left.
pub verify-once :
    (b : Bcrypt) (now later : ℕ) (user : Uuid) (code : List ℕ) (rows : Table) {m : MfaConfig}
    → get_by_user_id user rows ≡ ok (some m)
    → length (filter (λ h. b.compare_hash_and_password h (normalise code)) m.backup_codes_hash) ≤ 1
    → (verify b now user code rows).0 ≡ ok tt
    → let rows' = (verify b now user code rows).1 in
      ((n : ℕ) × (remaining user rows ≡ ok (suc n)) × (remaining user rows' ≡ ok n))
      × ((verify b later user code rows').0 ≢ ok tt)
unfolding remaining codes_left update_row
verify-once b now later user code rows {m} found alone done =
    let matching : String → Bool = λ h. b.compare_hash_and_password h (normalise code) in
    let (rest, taken, after) = verified b now user code rows found done in
    let (whole, kept) = length-take_match matching m.backup_codes_hash taken in
    let new : MfaConfig = record m { backup_codes_hash = rest; updated_at = now } in
    let found' : get_by_user_id user (verify b now user code rows).1
        ≡ ok (some (update_row now new m)) =
      rw after (get-update now user new rows (get-user_id user rows found) found) in
    (
      (length rest, rw found (ap (λ n. ok n) whole), rw found' refl),
      λ again.
          let (rest', taken', after') = verified b later user code _ found' again in
          let gone : take_match matching rest ≡ none =
            take_match-none matching rest (omega (arith, kept)) in
          ground (arith, gone, taken'),
    )
