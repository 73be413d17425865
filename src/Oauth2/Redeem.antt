-- ===== src/Oauth2/Redeem.antt =====
-- When an authorization code is taken (`ExchangeAuthCode` of internal/service/oauth2/authcode.go).
use auth.Base.{
  String, arith, eq_iff, fail, false, ltb, not, ok, refl, some, str_eq, true, ℕ, ◌&&◌, ◌≡◌, ◌≤◌,
  ◌⊎◌,
}
use auth.Oauth2.Data.{AuthCode, Crypto, OauthError, code_already_used}
use auth.Oauth2.Store.{AuthCodeStore}
use auth.Oauth2.Codes.{exchange_auth_code, verify_code_challenge}

-- The code is unused, not expired, and its challenge, if it has one, is the verifier's digest.
abbrev pub IsRedeemable : Crypto → ℕ → String → AuthCode → Type 0
IsRedeemable k now verifier a =
    (a.code_used ≡ false)
    × (now ≤ a.expires_at)
    × ((a.code_challenge ≡ "") ⊎ (k.base64_raw_url (k.sha256 verifier) ≡ a.code_challenge))

module _ (c : AuthCodeStore) (k : Crypto) where
  pub exchanged :
      (now : ℕ) (code verifier : String) {a : AuthCode} (s : c.State)
      → c.get_by_code code s ≡ some a
      → IsRedeemable k now verifier a
      → exchange_auth_code c k now code verifier s ≡ (ok a, (c.mark_used code s).0)
  unfolding exchange_auth_code verify_code_challenge
  exchanged now code verifier {a} s found (unused, live, proof) =
      let fresh : ltb a.expires_at now ≡ false = ground arith in
      let proved : (not (str_eq a.code_challenge "")
            && not (str_eq (k.base64_raw_url (k.sha256 verifier)) a.code_challenge))
          ≡ false =
        ground (
          arith,
          eq_iff a.code_challenge "",
          eq_iff (k.base64_raw_url (k.sha256 verifier)) a.code_challenge,
        ) in
      rw (found, unused, fresh, proved) refl

  pub exchanged_only :
      (now : ℕ) (code verifier : String) {a b : AuthCode} (s : c.State)
      → c.get_by_code code s ≡ some a
      → (exchange_auth_code c k now code verifier s).0 ≡ ok b
      → IsRedeemable k now verifier a × (b ≡ a)
  unfolding exchange_auth_code verify_code_challenge
  exchanged_only now code verifier {a} {b} s found done = ground (
    arith,
    found,
    eq_iff a.code_challenge "",
    eq_iff (k.base64_raw_url (k.sha256 verifier)) a.code_challenge,
  )

  -- A code that is taken was there, and is marked.
  pub exchanged_from :
      (now : ℕ) (code verifier : String) {a : AuthCode} (s : c.State)
      → (exchange_auth_code c k now code verifier s).0 ≡ ok a
      → (c.get_by_code code s ≡ some a)
        × ((exchange_auth_code c k now code verifier s).1 ≡ (c.mark_used code s).0)
  unfolding exchange_auth_code verify_code_challenge
  exchanged_from now code verifier {a} s done = ground arith

  -- A code that is refused leaves the store as it was.
  pub refused-state :
      (now : ℕ) (code verifier : String) {x : OauthError} (s : c.State)
      → (exchange_auth_code c k now code verifier s).0 ≡ fail x
      → (exchange_auth_code c k now code verifier s).1 ≡ s
  unfolding exchange_auth_code verify_code_challenge
  refused-state now code verifier s refused = ground arith

  pub used_refused :
      (now : ℕ) (code verifier : String) {a : AuthCode} (s : c.State)
      → c.get_by_code code s ≡ some a
      → a.code_used ≡ true
      → exchange_auth_code c k now code verifier s ≡ (fail code_already_used, s)
  unfolding exchange_auth_code
  used_refused now code verifier s found used = rw (found, used) refl
