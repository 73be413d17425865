-- ===== src/Oauth2/Codes.antt =====
-- Authorization codes (`AuthorizationCodeService` of internal/service/oauth2/authcode.go).
use auth.Base.{
  Bool, Effect, Option, Result, String, fail, false, found_or, if◌then◌else◌, ltb, none, not, ok,
  refuse_if, some, str_eq, ℕ, ◌&&◌, ◌+◌, ◌>>=◌, ◌>>◌,
}
use auth.Oauth2.Data.{
  AuthCode, AuthCodeParams, Crypto, OauthError, code_already_used, code_expired,
  invalid_code_verifier, random_failed, store_failed,
}
use auth.Oauth2.Store.{AuthCodeStore}

unfoldable pub verify_code_challenge : Crypto → String → String → Bool
verify_code_challenge k verifier challenge = str_eq (k.base64_raw_url (k.sha256 verifier)) challenge

unfoldable pub five_minutes : ℕ
five_minutes = 300

unfoldable pub new_code : ℕ → String → AuthCodeParams → AuthCode
unfolding five_minutes
new_code now code p = record {
  code = code;
  client_id = p.client_id;
  redirect_uri = p.redirect_uri;
  scope = p.scope;
  user_id = p.user_id;
  username = p.username;
  email = p.email;
  org_id = p.org_id;
  roles = p.roles;
  branch_id = p.branch_id;
  code_challenge = p.code_challenge;
  code_challenge_method = p.code_challenge_method;
  expires_at = now + five_minutes;
  code_used = false;
}

abbrev pub stored : {S : Type 0} → AuthCode → S × Bool → Result OauthError AuthCode × S
stored a (s, accepted) = (if accepted then ok a else fail store_failed, s)

module _ (c : AuthCodeStore) where
  -- `drawn` is the random code, `none` if the random source fails.
  unfoldable pub create_auth_code :
      ℕ → Option String → AuthCodeParams → Effect OauthError c.State AuthCode
  unfolding new_code
  create_auth_code now none p s = (fail random_failed, s)
  create_auth_code now (some code) p s = let a = new_code now code p in stored a (c.create a s)

  unfoldable pub exchange_auth_code :
      Crypto → ℕ → String → String → Effect OauthError c.State AuthCode
  unfolding verify_code_challenge
  exchange_auth_code k now code code_verifier = do
    a ← λ s. found_or store_failed (c.get_by_code code s) s
    refuse_if a.code_used code_already_used
    refuse_if (ltb a.expires_at now) code_expired
    refuse_if
        (not (str_eq a.code_challenge "")
          && not (verify_code_challenge k code_verifier a.code_challenge))
        invalid_code_verifier
    λ s. (ok a, (c.mark_used code s).0)
