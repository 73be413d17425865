-- ===== src/Keys/Jwt.antt =====
-- What internal/service/jwt takes from the JWT library and from RSA.
use auth.Base.{Bool, List, Option, String, false, some, true, ℕ, ◌<◌, ◌≡◌, ◌≢◌}
use auth.Session.Data.{Claims}

-- The claims of a token: those of the program, and the registered ones that only this service writes.
pub record SignedClaims : Type 0 where
  pub issuer : String
  pub audience : List String
  pub id : String
  pub claims : Claims

-- A token is the text that is sent. `is_rsa`, `kid` and `claims_of` read it without a key; `verifies` is
-- the check of the signature and of the times, at a time in seconds.
pub record Jwt : Type 1 where
  pub PrivateKey : Type 0
  pub PublicKey : Type 0
  pub Token : Type 0
  pub public_key : PrivateKey → PublicKey
  pub modulus : PublicKey → String
  pub exponent : PublicKey → String
  pub sign : PrivateKey → String → SignedClaims → Option Token
  pub is_rsa : Token → Bool
  pub kid : Token → Option String
  pub claims_of : Token → Option SignedClaims
  pub verifies : PublicKey → Token → ℕ → Bool

-- A key signs, and a token that is signed carries its key's id and its claims, and its signature is accepted until it
-- expires, for the public key that belongs to its private key and for no other.
pub record Signs (j : Jwt) : Type 0 where
  pub sign_ok :
      (k : j.PrivateKey) (kid : String) (c : SignedClaims)
      → (t : j.Token) × (j.sign k kid c ≡ some t)
  pub is_rsa-sign :
      (k : j.PrivateKey) (kid : String) (c : SignedClaims) {t : j.Token}
      → j.sign k kid c ≡ some t
      → j.is_rsa t ≡ true
  pub kid-sign :
      (k : j.PrivateKey) (kid : String) (c : SignedClaims) {t : j.Token}
      → j.sign k kid c ≡ some t
      → j.kid t ≡ some kid
  pub claims_of-sign :
      (k : j.PrivateKey) (kid : String) (c : SignedClaims) {t : j.Token}
      → j.sign k kid c ≡ some t
      → j.claims_of t ≡ some c
  pub verifies-sign :
      (k : j.PrivateKey) (kid : String) (c : SignedClaims) (now : ℕ) {t : j.Token}
      → j.sign k kid c ≡ some t
      → now < c.claims.expires_at
      → j.verifies (j.public_key k) t now ≡ true
  pub verifies-other :
      (k other : j.PrivateKey) (kid : String) (c : SignedClaims) (now : ℕ) {t : j.Token}
      → j.sign k kid c ≡ some t
      → other ≢ k
      → j.verifies (j.public_key other) t now ≡ false
