-- ===== src/Keys/Manager.antt =====
-- internal/service/jwt/keys.go: the keys that tokens are signed with. A key that is generated, or `none`
-- for an error of the generator, is an argument, and `month` formats a time as "2006-01".
use auth.Base.{
  Effect, List, Option, Result, String, [], fail, if◌then◌else◌, ltb, map, none, ok, some, str_eq,
  ℕ, ◌∷◌,
}
use auth.Strings.{append}
use auth.Keys.Jwt.{Jwt}

pub data KeyError : Type 0 where
  key_too_small generation_failed : KeyError
  no_active_key signing_failed : KeyError
  bad_method missing_kid key_not_found bad_token : KeyError

pub record Jwk : Type 0 where
  pub kty : String
  pub alg : String
  pub use_of : String
  pub kid : String
  pub n : String
  pub e : String

module _ (j : Jwt) where
  pub record KeyManager : Type 0 where
    pub private_key : j.PrivateKey
    pub kid : String
    pub algorithm : String
    pub created_at : ℕ

  -- A map from the ids, as an association list in which an id stands once.
  pub record RotatedKeyManager : Type 0 where
    pub keys : List (String × KeyManager)
    pub active_kid : String

  -- `keys[kid]` and `keys[kid] = km`
  unfoldable pub key_at : String → List (String × KeyManager) → Option KeyManager
  key_at kid [] = none
  key_at kid ((k, km) ∷ rest) = if str_eq k kid then some km else key_at kid rest

  unfoldable pub put_key :
      String → KeyManager → List (String × KeyManager) → List (String × KeyManager)
  put_key kid km [] = (kid, km) ∷ []
  put_key kid km ((k, old) ∷ rest) =
      if str_eq k kid then (k, km) ∷ rest else (k, old) ∷ put_key kid km rest

  abbrev pub new_rotated_key_manager : RotatedKeyManager
  new_rotated_key_manager = record { keys = []; active_kid = "" }

  unfoldable pub get_key : String → RotatedKeyManager → Option KeyManager
  unfolding key_at
  get_key kid rm = key_at kid rm.keys

  unfoldable pub active_key : RotatedKeyManager → Option KeyManager
  unfolding get_key
  active_key rm = if str_eq rm.active_kid "" then none else get_key rm.active_kid rm

  unfoldable pub jwk : KeyManager → Jwk
  jwk km =
      let public = j.public_key km.private_key in
      record {
        kty = "RSA";
        alg = km.algorithm;
        use_of = "sig";
        kid = km.kid;
        n = j.modulus public;
        e = j.exponent public;
      }

  unfoldable pub jwks : RotatedKeyManager → List Jwk
  unfolding jwk
  jwks rm = map (λ entry. jwk entry.1) rm.keys

  module _ (month : ℕ → String) where
    abbrev pub key_id : ℕ → String
    key_id now = append "auth7-" (month now)

    unfoldable pub new_key_manager : ℕ → Option j.PrivateKey → ℕ → Result KeyError KeyManager
    new_key_manager bits none now =
        if ltb bits 2048 then fail key_too_small else fail generation_failed
    new_key_manager bits (some key) now =
        if ltb bits 2048
        then fail key_too_small
        else ok
            (record { private_key = key; kid = key_id now; algorithm = "RS256"; created_at = now })

    abbrev pub with_key :
        RotatedKeyManager
        → Result KeyError KeyManager
        → Result KeyError KeyManager × RotatedKeyManager
    with_key rm (fail x) = (fail x, rm)
    with_key rm (ok km) = (ok km, record { keys = put_key km.kid km rm.keys; active_kid = km.kid })

    unfoldable pub generate_new_key :
        Option j.PrivateKey → ℕ → Effect KeyError RotatedKeyManager KeyManager
    unfolding new_key_manager put_key
    generate_new_key key now rm = with_key rm (new_key_manager 2048 key now)
