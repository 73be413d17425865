-- ===== src/Oauth2/Flow.antt =====
-- The authorization code flow, from `handleAuthorizeWithSession` to `handleTokenExchange`
-- (internal/api/rest/oauth2.go).
use auth.Base.{
  String, Uuid, arith, codes, eq_iff, false, not, ok, refl, some, str_eq, sym, true, ℕ, ◌&&◌, ◌+◌,
  ◌||◌, ◌∙◌, ◌≡◌, ◌≢◌, ◌≤◌, ◌⊎◌,
}
use auth.Redis.{Redis}
use auth.Session.Data.{Claims, Env, Key, Value}
use auth.Session.Access.{verify_access_token}
use auth.Oauth2.Data.{AuthCode, Client, Crypto, TokenResponse}
use auth.Oauth2.Client.{get_by_client_id, get_client, is_confidential, validate_redirect_uri}
use auth.Oauth2.Store.{AuthCodeStore, Lawful}
use auth.Oauth2.TokenEndpoint.{handle_token, known_client, token_exchange}
use auth.Oauth2.Codes.{create_auth_code, five_minutes, new_code, stored}
use auth.Oauth2.Exchange.{IsIssuable, exchange_ok}
use auth.Oauth2.Redeem.{IsRedeemable}
use auth.Oauth2.Token.{Drawn, World, bearer, code_claims}
use auth.Oauth2.Http.{
  Deps, Form, answer_with, bearer_token, credentials, redirect_url, tokens, verify_client_secret,
}
use auth.Oauth2.Authorize.{
  AuthorizeRequest, code_location, handle_authorize_with_session, issue_code, nonempty_or,
  registered_client,
}
use auth.Oauth2.Registered.{token_claims_from}

module _ (r : Redis Key Value) (e : Env) (c : AuthCodeStore) (k : Crypto) (deps : Deps) where
  -- The code that is stored for a request.
  abbrev pub code_for : ℕ → String → AuthorizeRequest → Claims → Client → AuthCode
  code_for now code req claims client = new_code now code (record {
    client_id = req.client_id;
    redirect_uri = req.redirect_uri;
    scope = nonempty_or "openid" req.scope;
    user_id = (e.parse_uuid claims.subject).0;
    username = claims.username;
    email = claims.email;
    org_id = client.org_id;
    roles = claims.roles;
    branch_id = claims.branch_id;
    code_challenge = req.code_challenge;
    code_challenge_method = nonempty_or "S256" req.code_challenge_method;
  })

  authorized :
      (now : ℕ) (code header : String) (req : AuthorizeRequest) {token : String} {claims : Claims}
      {client : Client} (w : World c.State r.State)
      → deps.has_client_svc ≡ true
      → deps.has_code_svc ≡ true
      → deps.has_session_svc ≡ true
      → bearer_token header ≡ some token
      → (verify_access_token r e token w.redis).0 ≡ ok claims
      → (e.parse_uuid claims.subject).1 ≡ true
      → req.client_id ≢ ""
      → req.redirect_uri ≢ ""
      → req.response_type ≡ "code"
      → get_client req.client_id w.clients ≡ some client
      → client.is_active ≡ true
      → validate_redirect_uri client req.redirect_uri ≡ true
      → (c.create (code_for now code req claims client) w.codes).1 ≡ true
      → handle_authorize_with_session r e c k deps now (some code) (some req) header w ≡ (
        answer_with 200 (redirect_url (code_location req.redirect_uri code req.state)),
        record w { codes = (c.create (code_for now code req claims client) w.codes).0 },
      )
  unfolding handle_authorize_with_session registered_client get_by_client_id issue_code
      create_auth_code
  authorized now code header req {token} {claims} {client} w clients codes sessions given verified
        subject named uri kind known active valid stored =
      let from = token_claims_from r e c k deps header w sessions given verified in
      let present : (str_eq req.client_id "" || str_eq req.redirect_uri "") ≡ false =
        ground (arith, named, uri, eq_iff req.client_id "", eq_iff req.redirect_uri "") in
      let code_type : (not (str_eq req.response_type "") && not (str_eq req.response_type "code"))
          ≡ false =
        rw kind refl in
      rw (from, subject, present, code_type, clients)
        (rw known (rw (active, valid, codes) (rw stored refl)))

module _ (r : Redis Key Value) (e : Env) (ttl : ℕ) {c : AuthCodeStore} (l : Lawful c) (k : Crypto)
    (deps : Deps) where
  redeemed :
      (now : ℕ) (d : Drawn) (user_id : Uuid) (form : Form) (header : String) {a : AuthCode}
      {client : Client} (w : World c.State r.State)
      → deps.has_client_svc ≡ true
      → deps.has_token_svc ≡ true
      → form.grant_type ≡ "authorization_code"
      → form.code ≢ ""
      → form.redirect_uri ≢ ""
      → (credentials k header form).0 ≢ ""
      → get_client (credentials k header form).0 w.clients ≡ some client
      → (is_confidential client
          && not (verify_client_secret k (credentials k header form).1 client.client_secret_hash))
        ≡ false
      → c.get_by_code form.code w.codes ≡ some a
      → IsRedeemable k now form.code_verifier a
      → a.redirect_uri ≡ form.redirect_uri
      → (i : IsIssuable e d a w.clients)
      → (handle_token r e ttl c k deps now d user_id form header w).0
        ≡ answer_with 200 (tokens (bearer r e ttl c k i.3.0 d.refresh_token a.scope))
  unfolding handle_token token_exchange known_client get_by_client_id
  redeemed now d user_id form header w clients toks kind code uri named known proved found
        redeemable same i =
      let present : (str_eq form.code ""
            || str_eq (credentials k header form).0 ""
            || str_eq form.redirect_uri "")
          ≡ false =
        ground (
          arith,
          code,
          named,
          uri,
          eq_iff form.code "",
          eq_iff (credentials k header form).0 "",
          eq_iff form.redirect_uri "",
        ) in
      rw kind (
        rw (present, toks, clients)
          (rw (known, proved)
            (rw
              (exchange_ok r e ttl c k now d form.code form.code_verifier form.redirect_uri w found
                redeemable same i)
              refl)))

  -- A code that a logged-in user is redirected with is good for tokens. All services are present and
  -- the store of codes keeps its contract; the request carries a valid access token whose subject is
  -- a user id, names a known and active client and a URI that it has registered, and asks for a
  -- code, which the store takes; the issuer does not fail. Then the endpoint answers with the URI,
  -- and whoever sends the code, the URI and the client's credentials within five minutes, with the
  -- verifier if there is a challenge, is given tokens of the scope that was asked for.
  pub token-authorize :
      (now later : ℕ) (d : Drawn) (user_id : Uuid) (header token_header : String)
      (req : AuthorizeRequest) (form : Form) {token : String} {claims : Claims} {client : Client}
      (w : World c.State r.State)
      → deps.has_client_svc ≡ true
      → deps.has_code_svc ≡ true
      → deps.has_token_svc ≡ true
      → deps.has_session_svc ≡ true
      → bearer_token header ≡ some token
      → (verify_access_token r e token w.redis).0 ≡ ok claims
      → (e.parse_uuid claims.subject).1 ≡ true
      → req.client_id ≢ ""
      → req.redirect_uri ≢ ""
      → req.response_type ≡ "code"
      → get_client req.client_id w.clients ≡ some client
      → client.is_active ≡ true
      → validate_redirect_uri client req.redirect_uri ≡ true
      → (c.create (code_for r e c k deps now form.code req claims client) w.codes).1 ≡ true
      → ((id : String) (u o : Uuid) (x : Claims)
          → (t : String) × (e.issue_access_token id u o x ≡ some t))
      → form.grant_type ≡ "authorization_code"
      → form.code ≢ ""
      → form.redirect_uri ≡ req.redirect_uri
      → (credentials k token_header form).0 ≡ req.client_id
      → (is_confidential client
          && not (
              verify_client_secret k (credentials k token_header form).1 client.client_secret_hash))
        ≡ false
      → (req.code_challenge ≡ "")
        ⊎ (k.base64_raw_url (k.sha256 form.code_verifier) ≡ req.code_challenge)
      → later ≤ now + 300
      → let (sent, w') =
          handle_authorize_with_session r e c k deps now (some form.code) (some req) header w in
        (sent ≡ answer_with 200 (redirect_url (code_location req.redirect_uri form.code req.state)))
        × ((given : TokenResponse) × ((handle_token r e ttl c k deps later d user_id form
                token_header w').0
              ≡ answer_with 200 (tokens given))
            × (given.scope ≡ nonempty_or "openid" req.scope))
  unfolding five_minutes new_code bearer
  token-authorize now later d user_id header token_header req form {token} {claims} {client} w
        has_clients has_codes has_tokens has_sessions bears verified subject named uri kind known
        active valid taken issues grant code same_uri own proved challenge in_time =
      let sent =
        authorized r e c k deps now form.code header req w has_clients has_codes has_sessions bears
          verified subject named uri kind known active valid taken in
      let a : AuthCode = code_for r e c k deps now form.code req claims client in
      let (t, issued) = issues d.session_id a.user_id a.org_id (code_claims e client a) in
      let w' : World c.State r.State = record w { codes = (c.create a w.codes).0 } in
      rw sent (
        refl,
        (
          _,
          redeemed later d user_id form token_header {a = a} {client = client} w' has_clients
              has_tokens grant code (λ x. uri (sym same_uri ∙ x)) (λ x. named (sym own ∙ x))
              (rw own known) proved (l.get-create a w.codes taken) (refl, in_time, challenge)
              (sym same_uri) (client, known, active, (t, issued)),
          refl,
        ),
      )
