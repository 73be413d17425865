-- ===== src/Keys/Verified.antt =====
-- The access tokens that are accepted after the keys were rotated (internal/service/jwt).
use auth.Base.{
  All, Bool-cases, List, Option, String, Uuid, ap, arith, eq_refl, fail, false, if◌then◌else◌, inl,
  inr, ok, refl, some, str_eq, sym, true, ℕ, ◌+◌, ◌<◌, ◌∙◌, ◌≡◌, ◌≢◌,
}
use auth.Session.Data.{Claims}
use auth.Keys.Jwt.{Jwt, SignedClaims, Signs}
use auth.Keys.Manager.{
  KeyManager, active_key, bad_token, generate_new_key, get_key, key_id, new_key_manager,
}
use auth.Keys.Tokens.{
  AccessToken, Service, access_claims, issue_access_token, key_of, rotate_key, verify_access_token,
}
use auth.Keys.Rotation.{
  IsReady, key_at-put_key, made, rotate_all, rotate_all-IsReplaced, rotate_all-get_key,
}

module _ {j : Jwt} (signs : Signs j) (month : ℕ → String) (uuid_string : Uuid → String) where
  verify_access_token_lem :
      (now : ℕ) (t : j.Token) (s : Service j month) {kid : String} {km : KeyManager j}
      {c : SignedClaims}
      → j.is_rsa t ≡ true
      → j.kid t ≡ some kid
      → get_key j kid s.key_manager ≡ some km
      → j.claims_of t ≡ some c
      → (verify_access_token j month now t s).0
        ≡ (if j.verifies (j.public_key km.private_key) t now then ok c else fail bad_token)
  unfolding verify_access_token key_of
  verify_access_token_lem now t s {kid} {km} {c} rsa named known read =
      elim (Bool-cases (j.verifies (j.public_key km.private_key) t now)) [
        | inl good ↦ rw (rsa, named, known, read, good) refl
        | inr bad ↦ rw (rsa, named, known, read, bad) refl
      ]

  active_key-get_key :
      (s : Service j month) {km : KeyManager j}
      → active_key j s.key_manager ≡ some km
      → get_key j s.key_manager.active_kid s.key_manager ≡ some km
  unfolding active_key
  active_key-get_key s active = ground (arith, active)

  -- A token is issued with the active key, and the service stays as it is.
  issue_access_token_lem :
      (s : Service j month) (now : ℕ) (token_id sid : String) (user org : Uuid) (c : Claims)
      {km : KeyManager j}
      → active_key j s.key_manager ≡ some km
      → (t : j.Token) × (a : AccessToken) × (issue_access_token j month uuid_string now token_id sid
            user org c s
          ≡ (ok (t, a), s))
        × (j.sign km.private_key km.kid
              (access_claims j month uuid_string s now token_id sid user org c)
            ≡ some t)
  unfolding issue_access_token
  issue_access_token_lem s now token_id sid user org c {km} active =
      let (t, signed) =
        signs.sign_ok km.private_key km.kid
          (access_claims j month uuid_string s now token_id sid user org c) in
      (
        t,
        record {
          token_id = token_id;
          session_id = sid;
          user_id = user;
          org_id = org;
          client_id = c.client_id;
          expires_at = now + s.token_ttl;
          issued_at = now;
        },
        rw (active, signed) refl,
        signed,
      )

  -- If a service has its active key, it issues a token, which it accepts with its claims until the token
  -- expires, however often the keys are rotated in other months.
  pub verify_access_token-issue :
      (s : Service j month) (later : List (Option j.PrivateKey × ℕ)) (now at : ℕ)
      (token_id sid : String) (user org : Uuid) (c : Claims)
      → IsReady j month s
      → All (λ r. str_eq (key_id j month r.1) s.key_manager.active_kid ≡ false) later
      → at < now + s.token_ttl
      → (t : j.Token) × (a : AccessToken) × (issue_access_token j month uuid_string now token_id sid
            user org c s
          ≡ (ok (t, a), s))
        × ((verify_access_token j month at t (rotate_all j month later s)).0
            ≡ ok (access_claims j month uuid_string s now token_id sid user org c))
  unfolding access_claims
  verify_access_token-issue s later now at token_id sid user org c (km, active, filed) others live =
      let (t, a, issued, signed) = issue_access_token_lem s now token_id sid user org c active in
      let written = access_claims j month uuid_string s now token_id sid user org c in
      let known =
        rotate_all-get_key j month s.key_manager.active_kid later s others
        ∙ active_key-get_key s active in
      let named = signs.kid-sign km.private_key km.kid written signed ∙ ap some filed in
      let good = signs.verifies-sign km.private_key km.kid written at signed live in
      (
        t,
        a,
        issued,
        verify_access_token_lem at t _ (signs.is_rsa-sign km.private_key km.kid written signed)
              named known (signs.claims_of-sign km.private_key km.kid written signed)
            ∙ rw good refl,
      )

  -- If the keys are rotated to another key in the month of the active key, a token that the active key
  -- signed before is refused after that rotation and after any later ones, as long as none of them
  -- generates the replaced key again.
  pub verify_access_token-rotate_key :
      (s : Service j month) (later : List (Option j.PrivateKey × ℕ)) (key : j.PrivateKey)
      (time now at : ℕ) (token_id sid : String) (user org : Uuid) (c : Claims) {km : KeyManager j}
      → active_key j s.key_manager ≡ some km
      → km.kid ≡ s.key_manager.active_kid
      → key_id j month time ≡ s.key_manager.active_kid
      → key ≢ km.private_key
      → All (λ r. r.0 ≢ some km.private_key) later
      → (t : j.Token) × (a : AccessToken) × (issue_access_token j month uuid_string now token_id sid
            user org c s
          ≡ (ok (t, a), s))
        × ((verify_access_token j month at t
              (rotate_all j month later (rotate_key j month (some key) time s).1)).0
            ≡ fail bad_token)
  unfolding rotate_key generate_new_key new_key_manager get_key
  verify_access_token-rotate_key s later key time now at token_id sid user org c {km} active filed
        same other fresh =
      let (t, a, issued, signed) = issue_access_token_lem s now token_id sid user org c active in
      let written = access_claims j month uuid_string s now token_id sid user org c in
      let id = key_id j month time in
      let named =
        signs.kid-sign km.private_key km.kid written signed ∙ ap some (filed ∙ sym same) in
      let replaced =
        key_at-put_key j month id id (made j month key time) s.key_manager.keys
        ∙ rw (eq_refl id) refl in
      let (held, known, differs) =
        rotate_all-IsReplaced j month km.private_key id later
          (rotate_key j month (some key) time s).1 fresh (made j month key time, replaced, other) in
      let bad =
        signs.verifies-other km.private_key held.private_key km.kid written at signed differs in
      (
        t,
        a,
        issued,
        verify_access_token_lem at t
              (rotate_all j month later (rotate_key j month (some key) time s).1) {km = held}
              (signs.is_rsa-sign km.private_key km.kid written signed) named known
              (signs.claims_of-sign km.private_key km.kid written signed)
            ∙ rw bad refl,
      )
