-- ===== src/Keys/Rotation.antt =====
-- What becomes of an access token when the keys are rotated (internal/service/jwt).
use text.Mathlib.TextLemmas.{append-eq-nil_iff}
use auth.Base.{
  All, Bool-cases, List, Option, String, [], ap, arith, eq_iff, eq_refl, false, if◌then◌else◌, inl,
  inr, none, refl, some, str_eq, ℕ, ◌∙◌, ◌∷◌, ◌≡◌, ◌≢◌,
}
use auth.Keys.Jwt.{Jwt}
use auth.Keys.Manager.{
  KeyManager, active_key, generate_new_key, get_key, key_at, key_id, new_key_manager, put_key,
}
use auth.Keys.Tokens.{Service, new_service, rotate_key}

module _ (j : Jwt) (month : ℕ → String) where
  pub key_at-put_key :
      (kid other : String) (km : KeyManager j) (keys : List (String × KeyManager j))
      → key_at j kid (put_key j other km keys)
        ≡ (if str_eq other kid then some km else key_at j kid keys)
  unfolding key_at put_key
  key_at-put_key kid other km [] = ground arith
  key_at-put_key kid other km ((k, old) ∷ rest) =
      ground
        (arith, key_at-put_key kid other km rest, eq_iff k other, eq_iff k kid, eq_iff other kid)

  -- The keys are rotated at each of the times.
  abbrev pub rotate_all : List (Option j.PrivateKey × ℕ) → Service j month → Service j month
  rotate_all [] s = s
  rotate_all ((key, time) ∷ rest) s = rotate_all rest (rotate_key j month key time s).1

  -- The active key is there, under its own id.
  abbrev pub IsReady : Service j month → Type 0
  IsReady s =
      (km : KeyManager j) × (active_key j s.key_manager ≡ some km)
      × (km.kid ≡ s.key_manager.active_kid)

  pub rotate_key-get_key :
      (kid : String) (key : Option j.PrivateKey) (time : ℕ) (s : Service j month)
      → str_eq (key_id j month time) kid ≡ false
      → get_key j kid (rotate_key j month key time s).1.key_manager ≡ get_key j kid s.key_manager
  unfolding rotate_key generate_new_key new_key_manager get_key
  rotate_key-get_key kid none time s other = refl
  rotate_key-get_key kid (some key) time s other =
      key_at-put_key kid (key_id j month time) _ s.key_manager.keys ∙ rw other refl

  pub rotate_all-get_key :
      (kid : String) (later : List (Option j.PrivateKey × ℕ)) (s : Service j month)
      → All (λ r. str_eq (key_id j month r.1) kid ≡ false) later
      → get_key j kid (rotate_all later s).key_manager ≡ get_key j kid s.key_manager
  rotate_all-get_key kid [] s others = refl
  rotate_all-get_key kid ((key, time) ∷ rest) s (other, others) =
      rotate_all-get_key kid rest (rotate_key j month key time s).1 others
      ∙ rotate_key-get_key kid key time s other

  pub key_id-nonempty : (time : ℕ) → str_eq (key_id j month time) "" ≡ false
  key_id-nonempty time = elim (Bool-cases (str_eq (key_id j month time) "")) [
    | inl empty ↦
        let prefix = (append-eq-nil_iff.0 ((eq_iff (key_id j month time) "").0 empty)).0 in
        absurd (ground (arith, (eq_iff "auth7-" "").1 prefix))
    | inr full ↦ full
  ]

  -- The key manager that is made of a key.
  abbrev pub made : j.PrivateKey → ℕ → KeyManager j
  made key time = record {
    private_key = key;
    kid = key_id j month time;
    algorithm = "RS256";
    created_at = time;
  }

  rotate_key-IsReady :
      (key : Option j.PrivateKey) (time : ℕ) (s : Service j month)
      → IsReady s
      → IsReady (rotate_key j month key time s).1
  unfolding rotate_key generate_new_key new_key_manager active_key get_key
  rotate_key-IsReady none time s ready = ready
  rotate_key-IsReady (some key) time s ready = (
    made key time,
    rw (key_id-nonempty time) (
        key_at-put_key (key_id j month time) (key_id j month time) (made key time)
          s.key_manager.keys
        ∙ rw (eq_refl (key_id j month time)) refl),
    refl,
  )

  -- A service is ready however often its keys are rotated.
  pub rotate_all-IsReady :
      (later : List (Option j.PrivateKey × ℕ)) (s : Service j month)
      → IsReady s
      → IsReady (rotate_all later s)
  rotate_all-IsReady [] s ready = ready
  rotate_all-IsReady ((key, time) ∷ rest) s ready =
      rotate_all-IsReady rest _ (rotate_key-IsReady key time s ready)

  pub new_service-IsReady :
      (key : j.PrivateKey) (now : ℕ) (issuer : String) (audience : List String) (ttl : ℕ)
      → IsReady (new_service j month (some key) now issuer audience ttl)
  unfolding new_service generate_new_key new_key_manager put_key active_key get_key key_at
  new_service-IsReady key now issuer audience ttl =
      (made key now, rw (key_id-nonempty now) (rw (eq_refl (key_id j month now)) refl), refl)

  -- Another key than the given one is kept under the id.
  abbrev pub IsReplaced : j.PrivateKey → String → Service j month → Type 0
  IsReplaced old kid s =
      (km : KeyManager j) × (get_key j kid s.key_manager ≡ some km) × (km.private_key ≢ old)

  rotate_key-IsReplaced :
      (old : j.PrivateKey) (kid : String) (key : Option j.PrivateKey) (time : ℕ)
      (s : Service j month)
      → key ≢ some old
      → IsReplaced old kid s
      → IsReplaced old kid (rotate_key j month key time s).1
  unfolding rotate_key generate_new_key new_key_manager get_key
  rotate_key-IsReplaced old kid none time s fresh kept = kept
  rotate_key-IsReplaced old kid (some key) time s fresh (km, held, other) =
      let written = key_at-put_key kid (key_id j month time) (made key time) s.key_manager.keys in
      elim (Bool-cases (str_eq (key_id j month time) kid)) [
        | inl same ↦ (made key time, written ∙ rw same refl, λ e. fresh (ap some e))
        | inr apart ↦ (km, written ∙ rw apart held, other)
      ]

  -- A key that was replaced does not come back unless it is generated again.
  pub rotate_all-IsReplaced :
      (old : j.PrivateKey) (kid : String) (later : List (Option j.PrivateKey × ℕ))
      (s : Service j month)
      → All (λ r. r.0 ≢ some old) later
      → IsReplaced old kid s
      → IsReplaced old kid (rotate_all later s)
  rotate_all-IsReplaced old kid [] s fresh kept = kept
  rotate_all-IsReplaced old kid ((key, time) ∷ rest) s (fresh, others) kept =
      rotate_all-IsReplaced old kid rest (rotate_key j month key time s).1 others
        (rotate_key-IsReplaced old kid key time s fresh kept)
