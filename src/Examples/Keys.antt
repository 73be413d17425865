-- ===== src/Examples/Keys.antt =====
-- Keys and access tokens at concrete inputs: a key is a number, and a token is what is signed.
use auth.Base.{
  String, Uuid, [], arith, fail, if◌then◌else◌, ltb, none, ok, refl, some, true, ℕ, ◌&&◌, ◌==◌, ◌∷◌,
  ◌≡◌,
}
use auth.Session.Data.{Claims}
use auth.Keys.Jwt.{Jwt, SignedClaims, Signs}
use auth.Keys.Manager.{active_key, bad_token}
use auth.Keys.Tokens.{
  AccessToken, Service, access_claims, issue_access_token, new_service, rotate_key,
  verify_access_token,
}
use auth.Keys.Rotation.{new_service-IsReady, rotate_all}
use auth.Keys.Verified.{verify_access_token-issue, verify_access_token-rotate_key}

pub record Signed : Type 0 where
  pub key : ℕ
  pub key_name : String
  pub written : SignedClaims

abbrev jwt : Jwt
jwt = record {
  PrivateKey = ℕ;
  PublicKey = ℕ;
  Token = Signed;
  public_key = λ k. k;
  modulus = λ k. "n";
  exponent = λ k. "e";
  sign = λ k kid c. some (record { key = k; key_name = kid; written = c });
  is_rsa = λ t. true;
  kid = λ t. some t.key_name;
  claims_of = λ t. some t.written;
  verifies = λ k t now. k == t.key && ltb now t.written.claims.expires_at;
}

jwt-Signs : Signs jwt
jwt-Signs = record {
  sign_ok = λ k kid c. (record { key = k; key_name = kid; written = c }, refl);
  is_rsa-sign = λ k kid c signed. refl;
  kid-sign = λ k kid c {t} signed. ground (arith, signed);
  claims_of-sign = λ k kid c {t} signed. ground (arith, signed);
  verifies-sign = λ k kid c now {t} signed live. ground (arith, signed, live);
  verifies-other = λ k other kid c now {t} signed ne. ground (arith, signed, ne);
}

abbrev month : ℕ → String
month time = if ltb time 1000 then "2026-06" else "2026-07"

abbrev service : Service jwt month
service = new_service jwt month (some 5) 10 "https://auth7" ("core7" ∷ []) 900

abbrev claims : Claims
claims = record {
  subject = "";
  session_id = "";
  org_id = "";
  client_id = "web";
  roles = [];
  scope = "";
  branch_id = "";
  username = "ada";
  email = "";
  branch_code = "";
  issued_at = 0;
  expires_at = 0;
  act = none;
}

abbrev uuid_string : Uuid → String
uuid_string id = if id == 7 then "user-7" else "org-1"

verify_access_token-issue_example :
    (t : Signed) × (a : AccessToken) × (issue_access_token jwt month uuid_string 900 "t1" "s1" 7 1
        claims service
      ≡ (ok (t, a), service))
    × ((verify_access_token jwt month 1200 t (rotate_all jwt month ((some 6, 1100) ∷ []) service)).0
        ≡ ok (access_claims jwt month uuid_string service 900 "t1" "s1" 7 1 claims))
unfolding new_service
verify_access_token-issue_example =
    verify_access_token-issue jwt-Signs month uuid_string service ((some 6, 1100) ∷ []) 900 1200
      "t1" "s1" 7 1 claims (new_service-IsReady jwt month 5 10 "https://auth7" ("core7" ∷ []) 900)
      (refl, tt) (omega arith)

verify_access_token-rotate_key_example :
    (t : Signed) × (a : AccessToken) × (issue_access_token jwt month uuid_string 900 "t1" "s1" 7 1
        claims service
      ≡ (ok (t, a), service))
    × ((verify_access_token jwt month 950 t (
          rotate_all jwt month
            ((none, 942) ∷ (some 8, 945) ∷ [])
            (rotate_key jwt month (some 6) 940 service).1)).0
        ≡ fail bad_token)
unfolding auth.Keys.Manager.active_key new_service
verify_access_token-rotate_key_example =
    verify_access_token-rotate_key jwt-Signs month uuid_string service
      ((none, 942) ∷ (some 8, 945) ∷ []) 6 940 900 950 "t1" "s1" 7 1 claims refl refl refl
      (ground arith) (ground arith, (ground arith, tt))
