-- ===== src/Oauth2/Exchange.antt =====
-- When a code gives tokens, and what becomes of their session (`ExchangeCodeForTokens` of
-- internal/service/oauth2/token.go).
use auth.Base.{
  List, Option-cases, Result-cases, String, ap, arith, eq_iff, inl, inr, ok, refl, some, true, ℕ,
  ◌↔◌, ◌∙◌, ◌≡◌,
}
use auth.Redis.{Redis}
use auth.Session.Data.{Env, Key, Value}
use auth.Session.Service.{store_session}
use auth.Oauth2.Data.{AuthCode, Client, Crypto, TokenResponse}
use auth.Oauth2.Client.{get_client, get_by_client_id}
use auth.Oauth2.Store.{AuthCodeStore}
use auth.Oauth2.Codes.{exchange_auth_code}
use auth.Oauth2.Token.{Drawn, World, exchange_code_for_tokens, code_claims, bearer}
use auth.Oauth2.Redeem.{IsRedeemable, exchanged, exchanged_only}

-- The client of the code is known and active, and the issuer gives a token for it.
abbrev pub IsIssuable : Env → Drawn → AuthCode → List Client → Type 0
IsIssuable e d a clients =
    (client : Client) × (get_client a.client_id clients ≡ some client)
    × (client.is_active ≡ true)
    × ((token : String) × (e.issue_access_token d.session_id a.user_id a.org_id
            (code_claims e client a)
          ≡ some token))

module _ (r : Redis Key Value) (e : Env) (ttl : ℕ) (c : AuthCodeStore) (k : Crypto) where
  pub exchange_ok :
      (now : ℕ) (d : Drawn) (code verifier uri : String) {a : AuthCode} (w : World c.State r.State)
      → c.get_by_code code w.codes ≡ some a
      → IsRedeemable k now verifier a
      → a.redirect_uri ≡ uri
      → (i : IsIssuable e d a w.clients)
      → (exchange_code_for_tokens r e ttl c k now d code verifier uri w).0
        ≡ ok (bearer r e ttl c k i.3.0 d.refresh_token a.scope)
  unfolding exchange_code_for_tokens get_by_client_id
  exchange_ok now d code verifier uri {a} w found redeemable same
        (client, known, active, (token, issued)) =
      let taken = exchanged c k now code verifier w.codes found redeemable in
      let uris = (eq_iff a.redirect_uri uri).1 same in
      rw taken (rw uris (rw known (rw active (rw issued refl))))

  issuable :
      (now : ℕ) (d : Drawn) (code verifier uri : String) {a : AuthCode} {given : TokenResponse}
      (w : World c.State r.State)
      → c.get_by_code code w.codes ≡ some a
      → (exchange_code_for_tokens r e ttl c k now d code verifier uri w).0 ≡ ok given
      → IsRedeemable k now verifier a × (a.redirect_uri ≡ uri) × IsIssuable e d a w.clients
  unfolding exchange_code_for_tokens get_by_client_id
  issuable now d code verifier uri {a} {given} w found done =
      elim (Result-cases (exchange_auth_code c k now code verifier w.codes).0) [
        | inr (x, refused) ↦ absurd (ground (arith, refused))
        | inl (b, taken) ↦
            let (redeemable, same) = exchanged_only c k now code verifier w.codes found taken in
            let own : (exchange_auth_code c k now code verifier w.codes).0 ≡ ok a =
              taken ∙ ap (λ x. ok x) same in
            (
              redeemable,
              ground (arith, own, eq_iff a.redirect_uri uri),
              elim (Option-cases (get_client a.client_id w.clients)) [
                | inl unknown ↦ absurd (ground (arith, own, unknown))
                | inr (client, known) ↦
                    elim (Option-cases (
                      e.issue_access_token d.session_id a.user_id a.org_id
                        (code_claims e client a))) [
                          | inl failed ↦ absurd (ground (arith, own, known, failed))
                          | inr (token, issued) ↦
                              (client, known, ground (arith, own, known), (token, issued))
                        ]
              ],
            )
      ]

  -- The token service gives tokens for a stored code exactly when the code is unused, not expired
  -- and matched by the verifier, the redirect URI is the one that the code was issued for, and the
  -- client of the code is known and active and the issuer does not fail.
  pub exchange_iff :
      (now : ℕ) (d : Drawn) (code verifier uri : String) {a : AuthCode} (w : World c.State r.State)
      → c.get_by_code code w.codes ≡ some a
      → ((given : TokenResponse) × ((exchange_code_for_tokens r e ttl c k now d code verifier uri
              w).0
            ≡ ok given))
        ↔ (IsRedeemable k now verifier a × (a.redirect_uri ≡ uri) × IsIssuable e d a w.clients)
  unfolding exchange_code_for_tokens get_by_client_id
  exchange_iff now d code verifier uri {a} w found = (
    λ (given, done). issuable now d code verifier uri w found done,
    λ (redeemable, same, i). (_, exchange_ok now d code verifier uri w found redeemable same i),
  )

  -- What tokens that are given leave in Redis.
  pub exchange-session :
      (now : ℕ) (d : Drawn) (code verifier uri : String) {a : AuthCode} {given : TokenResponse}
      (w : World c.State r.State)
      → c.get_by_code code w.codes ≡ some a
      → (exchange_code_for_tokens r e ttl c k now d code verifier uri w).0 ≡ ok given
      → (exchange_code_for_tokens r e ttl c k now d code verifier uri w).1.redis
        ≡ (store_session r e ttl now d.spare_id d.session_id
            (e.uuid_string a.user_id)
            (e.uuid_string a.org_id)
            w.redis).1
  unfolding exchange_code_for_tokens get_by_client_id
  exchange-session now d code verifier uri {a} w found done =
      let (redeemable, same, (client, known, active, (token, issued))) =
        issuable now d code verifier uri w found done in
      let taken = exchanged c k now code verifier w.codes found redeemable in
      let uris = (eq_iff a.redirect_uri uri).1 same in
      rw taken (rw uris (rw known (rw active (rw issued refl))))
