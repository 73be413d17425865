-- ===== src/Oauth2/Registered.antt =====
-- The clients and the tokens that the endpoints for codes accept (`handleAuthorize` and
-- `handleAuthorizeWithSession` of internal/api/rest/oauth2.go).
use auth.Base.{
  Any, Bool-cases, List, Option, Option-cases, Result-cases, String, [], any, arith, false, inl,
  inr, not, ok, refl, some, str_eq, true, ℕ, ◌||◌, ◌∷◌, ◌≡◌,
}
use auth.Redis.{Redis}
use auth.Session.Access.{verify_access_token, verify_claims}
use auth.Session.Data.{Claims, Env, Key, Value}
use auth.Strings.{same_codes}
use auth.Oauth2.Data.{Client, Crypto}
use auth.Oauth2.Client.{get_by_client_id, get_client, normalise_uri, validate_redirect_uri}
use auth.Oauth2.Store.{AuthCodeStore}
use auth.Oauth2.Codes.{create_auth_code}
use auth.Oauth2.Token.{World}
use auth.Oauth2.Http.{Deps, answer_with, bearer_token, location}
use auth.Oauth2.Authorize.{
  AuthorizeRequest, code_location, handle_authorize, issue_code, registered_client, token_claims,
}

same_codes_eq : (s t : List ℕ) → same_codes s t ≡ true → s ≡ t
same_codes_eq [] [] h = refl
same_codes_eq [] (b ∷ t) h = absurd (ground arith)
same_codes_eq (a ∷ s) [] h = absurd (ground arith)
same_codes_eq (a ∷ s) (b ∷ t) h = ground (arith, same_codes_eq s t)

-- One of the client's URIs is the given one, but for blanks around it and slashes at its end.
abbrev pub IsRegistered : String → Client → Type 0
IsRegistered uri client =
    Any (λ allowed. normalise_uri allowed ≡ normalise_uri uri) client.allowed_redirect_uris

registered :
    (uri : String) (uris : List String)
    → any (λ allowed. same_codes (normalise_uri allowed) (normalise_uri uri)) uris ≡ true
    → Any (λ allowed. normalise_uri allowed ≡ normalise_uri uri) uris
registered uri [] h = absurd (ground arith)
registered uri (x ∷ xs) h = elim (Bool-cases (same_codes (normalise_uri x) (normalise_uri uri))) [
  | inl same ↦ inl (same_codes_eq _ _ same)
  | inr other ↦ inr (registered uri xs (ground arith))
]

module _ (r : Redis Key Value) (e : Env) (c : AuthCodeStore) (k : Crypto) (deps : Deps) where
  pub registered_client_ok :
      (client_id uri : String) {client : Client} (w : World c.State r.State)
      → (registered_client r e c k deps client_id uri w).0 ≡ ok client
      → (registered_client r e c k deps client_id uri w ≡ (ok client, w))
        × ((get_client client_id w.clients ≡ some client)
            × (client.is_active ≡ true)
            × IsRegistered uri client)
  unfolding registered_client get_by_client_id validate_redirect_uri
  registered_client_ok client_id uri {client} w done =
      let valid : (get_client client_id w.clients ≡ some client)
          × (client.is_active ≡ true)
          × (any (λ allowed. same_codes (normalise_uri allowed) (normalise_uri uri))
                client.allowed_redirect_uris
              ≡ true) =
        ground arith in
      (
        rw (valid.0, valid.1, valid.2) refl,
        (valid.0, valid.1, registered uri client.allowed_redirect_uris valid.2),
      )

  -- The endpoint redirects only to the URI of the request, with the drawn code and the state added,
  -- where a known and active client has registered that URI, but for blanks around it and slashes at
  -- its end.
  handle_authorize-IsRegistered :
      (now : ℕ) (drawn : Option String) (req : AuthorizeRequest) (header : String) {u : String}
      (w : World c.State r.State)
      → (handle_authorize r e c k deps now drawn req header w).0 ≡ answer_with 302 (location u)
      → ((client : Client) × (get_client req.client_id w.clients ≡ some client)
          × (client.is_active ≡ true)
          × IsRegistered req.redirect_uri client)
        × ((code : String) × (drawn ≡ some code)
            × (u ≡ code_location req.redirect_uri code req.state))
  unfolding handle_authorize issue_code create_auth_code
  handle_authorize-IsRegistered now drawn req header {u} w sent =
      let code_type : not (str_eq req.response_type "code") ≡ false = ground arith in
      let named : (str_eq req.client_id "" || str_eq req.redirect_uri "") ≡ false = ground arith in
      let served : not deps.has_client_svc ≡ false = ground arith in
      elim (Result-cases (registered_client r e c k deps req.client_id req.redirect_uri w).0) [
        | inr (x, refused) ↦ absurd (ground (arith, refused))
        | inl (client, found) ↦
            let (same, valid) = registered_client_ok req.client_id req.redirect_uri w found in
            let sends : (handle_authorize r e c k deps now drawn req header w).0
                  ≡ answer_with 302 (location u)
                → (code : String) × (drawn ≡ some code)
                  × (u ≡ code_location req.redirect_uri code req.state) =
              rw (code_type, named, served, same)
                (λ sent'. elim (Option-cases drawn) [
                  | inl nothing ↦ absurd (ground (arith, nothing))
                  | inr (code, given) ↦ (code, given, ground (arith, given))
                ]) in
            ((client, valid.0, valid.1, valid.2), sends sent)
      ]

  verify-state :
      (token : String) {claims : Claims} (s : r.State)
      → (verify_access_token r e token s).0 ≡ ok claims
      → verify_access_token r e token s ≡ (ok claims, s)
  unfolding verify_access_token verify_claims
  verify-state token s done = ground arith

  pub token_claims_from :
      (header : String) {token : String} {claims : Claims} (w : World c.State r.State)
      → deps.has_session_svc ≡ true
      → bearer_token header ≡ some token
      → (verify_access_token r e token w.redis).0 ≡ ok claims
      → token_claims r e c k deps header w ≡ (ok claims, w)
  unfolding token_claims
  token_claims_from header {token} w served given verified =
      rw (bearer_token, given) (rw (served, verify-state token w.redis verified) refl)

  pub token_claims_ok :
      (header : String) {claims : Claims} (w : World c.State r.State)
      → (token_claims r e c k deps header w).0 ≡ ok claims
      → (token_claims r e c k deps header w ≡ (ok claims, w))
        × ((token : String) × (bearer_token header ≡ some token)
            × ((verify_access_token r e token w.redis).0 ≡ ok claims))
  unfolding token_claims
  token_claims_ok header {claims} w done = elim (Option-cases (bearer_token header)) [
    | inl nothing ↦ absurd (ground (arith, nothing))
    | inr (token, given) ↦
        let served : deps.has_session_svc ≡ true = ground (arith, given) in
        let verified : (verify_access_token r e token w.redis).0 ≡ ok claims =
          ground (arith, given, served) in
        (token_claims_from header w served given verified, (token, given, verified))
  ]
