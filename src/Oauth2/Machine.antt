-- ===== src/Oauth2/Machine.antt =====
-- Tokens for machines (`handleClientCredentials` of internal/api/rest/oauth2.go and `ClientCredentials` of
-- internal/service/oauth2/token.go), and the clients that register for them (`handleDCR`).
use auth.Base.{
  List, Option-cases, String, Uuid, ap, arith, eq_iff, false, inl, inr, not, ok, refl, some, str_eq,
  sym, true, ℕ, ◌||◌, ◌↔◌, ◌∙◌, ◌≡◌, ◌≢◌, ◌⊎◌,
}
use auth.Redis.{Redis}
use auth.Session.Data.{Env, Key, Value}
use auth.Strings.{append}
use auth.Oauth2.Data.{Client, Crypto, TokenResponse}
use auth.Oauth2.Client.{allowed_grants, get_by_client_id, get_client, has_grant, is_confidential}
use auth.Oauth2.Store.{AuthCodeStore}
use auth.Oauth2.Token.{Drawn, World, bearer, client_credentials, machine_claims}
use auth.Oauth2.Http.{
  Deps, Form, answer_with, credentials, map_oauth_error, response, tokens, verify_client_secret,
}
use auth.Oauth2.TokenEndpoint.{
  authenticated_client, client_credentials_grant, handle_token, known_client,
}

-- The text is a digest of the secret, in hexadecimal or in base64.
abbrev pub IsDigest : Crypto → String → String → Type 0
IsDigest k secret digest =
    (digest ≢ "") × ((k.hex (k.sha256 secret) ≡ digest) ⊎ (k.base64_std (k.sha256 secret) ≡ digest))

verify_client_secret_iff :
    (k : Crypto) (secret digest : String)
    → (verify_client_secret k secret digest ≡ true) ↔ IsDigest k secret digest
unfolding verify_client_secret
verify_client_secret_iff k secret digest = ground (
  arith,
  eq_iff digest "",
  eq_iff (k.hex (k.sha256 secret)) digest,
  eq_iff (k.base64_std (k.sha256 secret)) digest,
)

-- A machine client that is active, authenticates itself with a secret, and is issued a token.
abbrev pub IsServed : Env → Crypto → Uuid → String → String → String → List Client → Type 0
IsServed e k user_id client_id secret scope clients =
    (client : Client) × (get_client client_id clients ≡ some client)
    × (client.is_active ≡ true)
    × IsDigest k secret client.client_secret_hash
    × (client.token_endpoint_auth_method ≢ "none")
    × (client.client_type ≡ "machine")
    × ((token : String) × (e.issue_access_token (append "m2m-" client_id) user_id client.org_id
            (machine_claims client_id scope)
          ≡ some token))

grant_iff :
    (client : Client)
    → (has_grant client "client_credentials" ≡ true) ↔ (client.client_type ≡ "machine")
unfolding has_grant allowed_grants
grant_iff client = ground (
  arith,
  eq_iff client.client_type "machine",
  eq_iff client.client_type "web",
  eq_iff client.client_type "spa",
  eq_iff client.client_type "native",
)

confidential_iff :
    (client : Client)
    → (is_confidential client ≡ true) ↔ (client.token_endpoint_auth_method ≢ "none")
unfolding is_confidential
confidential_iff client = ground (arith, eq_iff client.token_endpoint_auth_method "none")

module _ (r : Redis Key Value) (e : Env) (ttl : ℕ) (c : AuthCodeStore) (k : Crypto)
    (deps : Deps) where
  pub served :
      (user_id : Uuid) (form : Form) (header : String) (w : World c.State r.State)
      → deps.has_client_svc ≡ true
      → deps.has_token_svc ≡ true
      → (credentials k header form).0 ≢ ""
      → (credentials k header form).1 ≢ ""
      → (i : IsServed e k user_id
          (credentials k header form).0
          (credentials k header form).1
          form.scope
          w.clients)
      → client_credentials_grant r e ttl c k deps user_id form header w
        ≡ (ok (answer_with 200 (tokens (bearer r e ttl c k i.6.0 "" form.scope))), w)
  unfolding client_credentials_grant authenticated_client known_client get_by_client_id
      client_credentials
  served user_id form header w clients toks named secret
        (client, known, active, digest, method, kind, (token, issued)) =
      let present : (str_eq (credentials k header form).0 ""
            || str_eq (credentials k header form).1 "")
          ≡ false =
        ground (
          arith,
          named,
          secret,
          eq_iff (credentials k header form).0 "",
          eq_iff (credentials k header form).1 "",
        ) in
      let verified = (verify_client_secret_iff k _ _).1 digest in
      rw (present, clients, toks)
        (rw known (
          rw (active, verified)
            (rw known (
              rw ((confidential_iff client).1 method, (grant_iff client).1 kind)
                (rw issued refl)))))

  IsServed-only :
      (user_id : Uuid) (form : Form) (header : String) {given : TokenResponse}
      (w : World c.State r.State)
      → response (client_credentials_grant r e ttl c k deps user_id form header w).0
        ≡ answer_with 200 (tokens given)
      → ((credentials k header form).0 ≢ "")
        × ((credentials k header form).1 ≢ "")
        × IsServed e k user_id
            (credentials k header form).0
            (credentials k header form).1
            form.scope
            w.clients
  unfolding client_credentials_grant authenticated_client known_client get_by_client_id
      client_credentials map_oauth_error
  IsServed-only user_id form header {given} w done =
      let id : String = (credentials k header form).0 in
      let secret : String = (credentials k header form).1 in
      let present : (str_eq id "" || str_eq secret "") ≡ false = ground arith in
      let toks : (not deps.has_client_svc || not deps.has_token_svc) ≡ false =
        ground (arith, present) in
      (
        ground (arith, present, eq_iff id ""),
        ground (arith, present, eq_iff secret ""),
        elim (Option-cases (get_client id w.clients)) [
          | inl unknown ↦ absurd (ground (arith, present, toks, unknown))
          | inr (client, known) ↦
              let active : client.is_active ≡ true = ground (arith, present, toks, known) in
              let verified : verify_client_secret k secret client.client_secret_hash ≡ true =
                ground (arith, present, toks, known, active) in
              let confidential : is_confidential client ≡ true =
                ground (arith, present, toks, known, active, verified) in
              let granted : has_grant client "client_credentials" ≡ true =
                ground (arith, present, toks, known, active, verified, confidential) in
              elim (Option-cases (
                e.issue_access_token (append "m2m-" id) user_id client.org_id
                  (machine_claims id form.scope))) [
                    | inl failed ↦ absurd (
                        ground (
                          arith, present, toks, known, active, verified, confidential, granted,
                          failed,
                        ))
                    | inr (token, issued) ↦ (
                      client,
                      known,
                      active,
                      (verify_client_secret_iff k _ _).0 verified,
                      (confidential_iff client).0 confidential,
                      (grant_iff client).0 granted,
                      (token, issued),
                    )
                  ]
        ],
      )

  pub dispatched :
      (now : ℕ) (d : Drawn) (user_id : Uuid) (form : Form) (header : String)
      (w : World c.State r.State)
      → form.grant_type ≡ "client_credentials"
      → (handle_token r e ttl c k deps now d user_id form header w).0
        ≡ response (client_credentials_grant r e ttl c k deps user_id form header w).0
  unfolding handle_token
  dispatched now d user_id form header w kind = rw kind refl

  -- With the services present, a client credentials request is answered with tokens exactly when the
  -- credentials in its header, or else in its form, are those of a known, active and confidential
  -- client for machines, the secret's digest being the stored one, and the issuer does not fail.
  pub client_credentials_iff :
      (now : ℕ) (d : Drawn) (user_id : Uuid) (form : Form) (header : String)
      (w : World c.State r.State)
      → deps.has_client_svc ≡ true
      → deps.has_token_svc ≡ true
      → form.grant_type ≡ "client_credentials"
      → ((given : TokenResponse) × ((handle_token r e ttl c k deps now d user_id form header w).0
            ≡ answer_with 200 (tokens given)))
        ↔ (((credentials k header form).0 ≢ "")
            × ((credentials k header form).1 ≢ "")
            × IsServed e k user_id
                (credentials k header form).0
                (credentials k header form).1
                form.scope
                w.clients)
  client_credentials_iff now d user_id form header w clients toks kind =
      let same = dispatched now d user_id form header w kind in
      (
        λ (given, done). IsServed-only user_id form header w (sym same ∙ done),
        λ (named, secret, i). (
          bearer r e ttl c k i.6.0 "" form.scope,
          same ∙ ap (λ p. response p.0) (served user_id form header w clients toks named secret i),
        ),
      )
