-- ===== src/Oauth2/Once.antt =====
-- An authorization code gives tokens once (`ExchangeCodeForTokens` of internal/service/oauth2/token.go).
use auth.Base.{
  Bool, List, Result, Result-cases, String, [], ap, arith, fail, false, filter, inl, inr, length,
  ok, refl, some, true, ℕ, ◌∙◌, ◌∷◌, ◌≡◌, ◌≤◌,
}
use auth.Redis.{Redis}
use auth.Session.Data.{Env, Key, Value}
use auth.Oauth2.Data.{AuthCode, Crypto, OauthError, TokenResponse}
use auth.Oauth2.Store.{AuthCodeStore, Lawful, marked}
use auth.Oauth2.Codes.{exchange_auth_code}
use auth.Oauth2.Token.{Drawn, World, exchange_code_for_tokens}
use auth.Oauth2.Redeem.{exchanged_from, refused-state, used_refused}

-- What one request sends, and what it draws.
pub record Attempt : Type 0 where
  pub now : ℕ
  pub drawn : Drawn
  pub code_verifier : String
  pub redirect_uri : String

abbrev pub is_ok : {E A : Type 0} → Result E A → Bool
is_ok (ok a) = true
is_ok (fail e) = false

module _ (r : Redis Key Value) (e : Env) (ttl : ℕ) (c : AuthCodeStore) (k : Crypto) where
  abbrev pub redeem :
      String
      → Attempt
      → World c.State r.State
      → Result OauthError TokenResponse × World c.State r.State
  redeem code x w =
      exchange_code_for_tokens r e ttl c k x.now x.drawn code x.code_verifier x.redirect_uri w

  -- The exchanges of one code, in the order in which they come.
  unfoldable pub exchange_all :
      String → List Attempt → World c.State r.State → List (Result OauthError TokenResponse)
  exchange_all code [] w = []
  exchange_all code (x ∷ xs) w = (redeem code x w).0 ∷ exchange_all code xs (redeem code x w).1

  redeem-codes :
      (code : String) (x : Attempt) (w : World c.State r.State)
      → (redeem code x w).1.codes ≡ (exchange_auth_code c k x.now code x.code_verifier w.codes).1
  unfolding exchange_code_for_tokens
  redeem-codes code x w = ground arith

  redeem-fail :
      (code : String) (x : Attempt) {y : OauthError} (w : World c.State r.State)
      → (exchange_auth_code c k x.now code x.code_verifier w.codes).0 ≡ fail y
      → (redeem code x w).0 ≡ fail y
  unfolding exchange_code_for_tokens
  redeem-fail code x w refused = rw refused refl

  -- What a refused code leaves of the requests that follow.
  redeem-refused :
      (code : String) (x : Attempt) (xs : List Attempt) {y : OauthError} (w : World c.State r.State)
      → (exchange_auth_code c k x.now code x.code_verifier w.codes).0 ≡ fail y
      → ((redeem code x w).1.codes ≡ w.codes)
        × (length (filter is_ok (exchange_all code (x ∷ xs) w))
            ≡ length (filter is_ok (exchange_all code xs (redeem code x w).1)))
  unfolding exchange_all
  redeem-refused code x xs w refused = (
    redeem-codes code x w ∙ refused-state c k x.now code x.code_verifier w.codes refused,
    rw (redeem-fail code x w refused) refl,
  )

  spent :
      (code : String) (xs : List Attempt) {a : AuthCode} (w : World c.State r.State)
      → c.get_by_code code w.codes ≡ some a
      → a.code_used ≡ true
      → length (filter is_ok (exchange_all code xs w)) ≡ 0
  unfolding exchange_all
  spent code [] w found used = refl
  spent code (x ∷ xs) {a} w found used =
      let refused = used_refused c k x.now code x.code_verifier w.codes found used in
      let (kept, rest) = redeem-refused code x xs w (ap (λ p. p.0) refused) in
      rest ∙ spent code xs {a = a} (redeem code x w).1 (ap (c.get_by_code code) kept ∙ found) used

  module _ (l : Lawful c) where
    -- However often a code is sent to the token service, whoever sends it and whatever comes with
    -- it, tokens are given for it at most once, if the store of codes keeps its contract.
    pub exchange_all-once :
        (code : String) (xs : List Attempt) (w : World c.State r.State)
        → length (filter is_ok (exchange_all code xs w)) ≤ 1
    unfolding exchange_all
    exchange_all-once code [] w = omega arith
    exchange_all-once code (x ∷ xs) w =
        elim (Result-cases (exchange_auth_code c k x.now code x.code_verifier w.codes).0) [
          | inr (y, refused) ↦
              let (kept, rest) = redeem-refused code x xs w refused in
              omega (arith, rest, exchange_all-once code xs (redeem code x w).1)
          | inl (a, taken) ↦
              let (found, state) = exchanged_from c k x.now code x.code_verifier w.codes taken in
              let used : c.get_by_code code (redeem code x w).1.codes ≡ some (marked a) =
                rw (redeem-codes code x w) (rw state (l.get-mark_used code w.codes found)) in
              let none_left = spent code xs {a = marked a} (redeem code x w).1 used refl in
              ground (arith, none_left)
        ]
