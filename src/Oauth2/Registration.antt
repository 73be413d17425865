-- ===== src/Oauth2/Registration.antt =====
-- A client that registers (`handleDCR` of internal/api/rest/oauth2.go) and asks for its first token.
use auth.Base.{
  Bool, Bool-cases, List, String, Uuid, [], any, arith, elem, eq_iff, eq_refl, false, inl, inr,
  length, refl, some, str_eq, subst, sym, true, ℕ, ◌==◌, ◌||◌, ◌∷◌, ◌≡◌, ◌≢◌,
}
use auth.Strings.{append}
use auth.Redis.{Redis}
use auth.Session.Data.{Claims, Env, Key, Value}
use auth.Oauth2.Data.{Client, Crypto, TokenResponse}
use auth.Oauth2.Client.{
  create_client, create_with_secret_hash, created, get_client, insert_client, is_admitted,
  new_client, new_row,
}
use auth.Oauth2.Store.{AuthCodeStore}
use auth.Oauth2.Token.{Drawn, World, answered, machine_claims}
use auth.Oauth2.Http.{
  DcrResponse, Deps, Form, answer_with, credentials, hash_client_secret, registered, tokens,
}
use auth.Oauth2.Machine.{IsServed, client_credentials_iff}
use auth.Oauth2.TokenEndpoint.{handle_token}
use auth.Oauth2.Register.{
  DcrRequest, Registration, dcr_params, handle_dcr, organisation, requested_grants,
}

module _ (has_org : Uuid → Bool) (e : Env) (k : Crypto) (deps : Deps) where
  -- The row of a client that registers.
  abbrev pub registered_row : ℕ → Registration → DcrRequest → Client
  registered_row now d req = new_row e.uuid_string (
      new_client now d.id (organisation e deps) (dcr_params d req)
        (hash_client_secret k d.plain_secret))

  abbrev registration_response : ℕ → Registration → DcrRequest → DcrResponse
  registration_response now d req = record {
    client_id = e.uuid_string d.id;
    client_secret = d.plain_secret;
    client_id_issued_at = now;
    client_secret_expires_at = 0;
    redirect_uris = req.redirect_uris;
    grant_types = requested_grants req;
    response_types = "code" ∷ [];
    scope = req.scope;
    token_endpoint_auth_method = (dcr_params d req).token_endpoint_auth_method;
  }

  registered_ok :
      {C R : Type 0} (now : ℕ) (d : Registration) (req : DcrRequest) (w : World C R)
      → deps.has_client_svc ≡ true
      → any (λ o. o.id == d.id || str_eq o.client_id (e.uuid_string d.id)) w.clients ≡ false
      → is_admitted has_org (registered_row now d req) ≡ true
      → handle_dcr has_org e k deps now d (some req) w ≡ (
        answer_with 201 (registered (registration_response now d req)),
        record w { clients = registered_row now d req ∷ w.clients },
      )
  unfolding handle_dcr create_with_secret_hash create_client created insert_client new_client
      dcr_params new_row
  registered_ok now d req w clients free admitted = rw clients (rw (free, admitted) refl)

elem-empty : (s : String) (xs : List String) → (length xs == 0) ≡ true → elem s xs ≡ false
elem-empty s [] empty = refl
elem-empty s (x ∷ xs) empty = absurd (ground arith)

machine_row :
    (d : Registration) (req : DcrRequest)
    → elem "client_credentials" req.grant_types ≡ true
    → req.token_endpoint_auth_method ≢ "none"
    → ((dcr_params d req).client_type ≡ "machine")
      × ((dcr_params d req).token_endpoint_auth_method ≢ "none")
unfolding dcr_params requested_grants
machine_row d req asks method = (
  elim (Bool-cases (length req.grant_types == 0)) [
    | inl empty ↦ absurd (ground (arith, elem-empty "client_credentials" req.grant_types empty))
    | inr some_asked ↦ rw (some_asked, asks) refl
  ],
  elim (Bool-cases (str_eq req.token_endpoint_auth_method "")) [
    | inl empty ↦ rw empty (ground (arith, eq_iff "client_secret_basic" "none"))
    | inr given ↦ rw given method
  ],
)

-- A registration under a new id, whose row the columns of the table and the organisations admit, is
-- answered with credentials that work: a client that asks for the client credentials grant and does
-- not refuse to authenticate is given a token by the endpoint when it sends them, whatever was
-- registered before, if the issuer does not fail.
pub token-register :
    (r : Redis Key Value) (has_org : Uuid → Bool) (e : Env) (ttl : ℕ) (c : AuthCodeStore)
    (k : Crypto) (deps : Deps) (now later : ℕ) (n : Registration) (req : DcrRequest) (d : Drawn)
    (user_id : Uuid) (form : Form) (header : String) (w : World c.State r.State)
    → deps.has_client_svc ≡ true
    → deps.has_token_svc ≡ true
    → any (λ o. o.id == n.id || str_eq o.client_id (e.uuid_string n.id)) w.clients ≡ false
    → is_admitted has_org (registered_row has_org e k deps now n req) ≡ true
    → e.uuid_string n.id ≢ ""
    → n.plain_secret ≢ ""
    → k.base64_std (k.sha256 n.plain_secret) ≢ ""
    → elem "client_credentials" req.grant_types ≡ true
    → req.token_endpoint_auth_method ≢ "none"
    → ((id : String) (u o : Uuid) (x : Claims)
        → (t : String) × (e.issue_access_token id u o x ≡ some t))
    → form.grant_type ≡ "client_credentials"
    → credentials k header form ≡ (e.uuid_string n.id, n.plain_secret)
    → let (answered, w') = handle_dcr has_org e k deps now n (some req) w in
      (given : DcrResponse) × (answered ≡ answer_with 201 (registered given))
      × ((given.client_id, given.client_secret) ≡ credentials k header form)
      × ((t : TokenResponse) × ((handle_token r e ttl c k deps later d user_id form header w').0
            ≡ answer_with 200 (tokens t)))
unfolding new_client hash_client_secret get_client new_row
token-register r has_org e ttl c k deps now later n req d user_id form header w clients toks free
      admitted named secret hashed asks method issues grant sent =
    let x : DcrResponse = registration_response has_org e k deps now n req in
    let row : Client = registered_row has_org e k deps now n req in
    let (kind, confidential) = machine_row n req asks method in
    let (t, issued) =
      issues (append "m2m-" (e.uuid_string n.id)) user_id (organisation e deps)
        (machine_claims (e.uuid_string n.id) form.scope) in
    let found : get_client (e.uuid_string n.id) (row ∷ w.clients) ≡ some row =
      rw (eq_refl (e.uuid_string n.id)) refl in
    let iff =
      client_credentials_iff r e ttl c k deps later d user_id form header
        (record w { clients = row ∷ w.clients }) clients toks grant in
    let given = iff.1 (
      subst
        (λ p. (p.0 ≢ "") × (p.1 ≢ "") × IsServed e k user_id p.0 p.1 form.scope (row ∷ w.clients))
        (sym sent)
        (named, secret, (row, found, refl, (hashed, inr refl), confidential, kind, (t, issued)))) in
    rw (registered_ok has_org e k deps now n req w clients free admitted) (x, refl, sym sent, given)
