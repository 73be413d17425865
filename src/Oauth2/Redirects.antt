-- ===== src/Oauth2/Redirects.antt =====
-- What becomes of the code that `handleAuthorizeWithSession` of internal/api/rest/oauth2.go issues.
use auth.Base.{
  Option, Result-cases, String, ap, arith, codes, false, inl, inr, none, not, ok, refl, return,
  some, str_eq, subst, sym, true, ℕ, ◌&&◌, ◌>>=◌, ◌||◌, ◌∙◌, ◌≡◌,
}
use auth.Redis.{Redis}
use auth.Session.Access.{verify_access_token}
use auth.Session.Data.{Claims, Env, Key, Value}
use auth.Oauth2.Data.{AuthCode, AuthCodeParams, Client, Crypto}
use auth.Oauth2.Client.{get_client}
use auth.Oauth2.Store.{AuthCodeStore, Lawful}
use auth.Oauth2.Codes.{create_auth_code, new_code}
use auth.Oauth2.Token.{World}
use auth.Oauth2.Http.{Deps, Response, answer, answer_with, bearer_token, redirect_url}
use auth.Oauth2.Authorize.{
  AuthorizeRequest, code_location, handle_authorize_with_session, issue_code, nonempty_or,
  registered_client, token_claims,
}
use auth.Oauth2.Registered.{IsRegistered, registered_client_ok, token_claims_ok}

module _ (r : Redis Key Value) (e : Env) (c : AuthCodeStore) (k : Crypto) (deps : Deps) where
  -- What the endpoint for users who have logged in issues a code for.
  abbrev session_params : AuthorizeRequest → Claims → Client → AuthCodeParams
  session_params req claims client = record {
    client_id = req.client_id;
    redirect_uri = req.redirect_uri;
    scope = nonempty_or "openid" req.scope;
    user_id = (e.parse_uuid claims.subject).0;
    username = claims.username;
    email = claims.email;
    org_id = client.org_id;
    roles = claims.roles;
    branch_id = claims.branch_id;
    code_challenge = req.code_challenge;
    code_challenge_method = nonempty_or "S256" req.code_challenge_method;
  }

  -- The answer of the endpoint once its checks are passed.
  unfoldable session_answer :
      ℕ
      → Option String
      → AuthorizeRequest
      → AuthCodeParams
      → World c.State r.State
      → Response × World c.State r.State
  session_answer now drawn req p = answer (do
    code ← issue_code r e c k deps now drawn p
    return (answer_with 200 (redirect_url (code_location req.redirect_uri code.code req.state))))

  session_continues :
      (now : ℕ) (drawn : Option String) (req : AuthorizeRequest) (header : String) {claims : Claims}
      {client : Client} (w : World c.State r.State)
      → token_claims r e c k deps header w ≡ (ok claims, w)
      → not (e.parse_uuid claims.subject).1 ≡ false
      → (str_eq req.client_id "" || str_eq req.redirect_uri "") ≡ false
      → (not (str_eq req.response_type "") && not (str_eq req.response_type "code")) ≡ false
      → not deps.has_client_svc ≡ false
      → registered_client r e c k deps req.client_id req.redirect_uri w ≡ (ok client, w)
      → handle_authorize_with_session r e c k deps now drawn (some req) header w
        ≡ session_answer now drawn req (session_params req claims client) w
  unfolding handle_authorize_with_session session_answer
  session_continues now drawn req header w verified subject named code_type served same =
      rw (verified, subject, named, code_type, served, same) refl

  session_claims :
      (now : ℕ) (drawn : Option String) (req : AuthorizeRequest) (header : String) {u : String}
      (w : World c.State r.State)
      → (handle_authorize_with_session r e c k deps now drawn (some req) header w).0
        ≡ answer_with 200 (redirect_url u)
      → (claims : Claims) × (token_claims r e c k deps header w ≡ (ok claims, w))
        × ((token : String) × (bearer_token header ≡ some token)
            × ((verify_access_token r e token w.redis).0 ≡ ok claims))
  unfolding handle_authorize_with_session
  session_claims now drawn req header w sent =
      elim (Result-cases (token_claims r e c k deps header w).0) [
        | inr (x, refused) ↦ absurd (ground (arith, refused))
        | inl (claims, given) ↦
            let (verified, from) = token_claims_ok r e c k deps header w given in
            (claims, verified, from)
      ]

  session_request :
      (now : ℕ) (drawn : Option String) (req : AuthorizeRequest) (header : String) {u : String}
      {claims : Claims} (w : World c.State r.State)
      → (handle_authorize_with_session r e c k deps now drawn (some req) header w).0
        ≡ answer_with 200 (redirect_url u)
      → token_claims r e c k deps header w ≡ (ok claims, w)
      → (not (e.parse_uuid claims.subject).1 ≡ false)
        × ((str_eq req.client_id "" || str_eq req.redirect_uri "") ≡ false)
        × ((not (str_eq req.response_type "") && not (str_eq req.response_type "code")) ≡ false)
        × (not deps.has_client_svc ≡ false)
  unfolding handle_authorize_with_session
  session_request now drawn req header {claims = claims} w sent verified =
      let subject : not (e.parse_uuid claims.subject).1 ≡ false = ground (arith, verified) in
      let named : (str_eq req.client_id "" || str_eq req.redirect_uri "") ≡ false =
        ground (arith, verified, subject) in
      let code_type : (not (str_eq req.response_type "") && not (str_eq req.response_type "code"))
          ≡ false =
        ground (arith, verified, subject, named) in
      (subject, named, code_type, ground (arith, verified, subject, named, code_type))

  session_client :
      (now : ℕ) (drawn : Option String) (req : AuthorizeRequest) (header : String) {u : String}
      {claims : Claims} (w : World c.State r.State)
      → (handle_authorize_with_session r e c k deps now drawn (some req) header w).0
        ≡ answer_with 200 (redirect_url u)
      → token_claims r e c k deps header w ≡ (ok claims, w)
      → (client : Client) × ((registered_client r e c k deps req.client_id req.redirect_uri w).0
          ≡ ok client)
  unfolding handle_authorize_with_session
  session_client now drawn req header w sent verified =
      let (subject, named, code_type, served) =
        session_request now drawn req header w sent verified in
      elim (Result-cases (registered_client r e c k deps req.client_id req.redirect_uri w).0) [
        | inr (x, refused) ↦
            absurd (ground (arith, verified, subject, named, code_type, served, refused))
        | inl found ↦ found
      ]

  session_answer_ok :
      Lawful c
      → (now : ℕ) (drawn : Option String) (req : AuthorizeRequest) (p : AuthCodeParams) {u : String}
        (w : World c.State r.State)
      → (session_answer now drawn req p w).0 ≡ answer_with 200 (redirect_url u)
      → (code : String) × (drawn ≡ some code)
        × (u ≡ code_location req.redirect_uri code req.state)
        × (c.get_by_code code (session_answer now drawn req p w).1.codes
            ≡ some (new_code now code p))
  unfolding session_answer issue_code create_auth_code new_code
  session_answer_ok l now none req p w sent = absurd (ground arith)
  session_answer_ok l now (some code) req p {u} w sent =
      let served : not deps.has_code_svc ≡ false = ground arith in
      let accepted : (c.create (new_code now code p) w.codes).1 ≡ true = ground (arith, served) in
      (
        code,
        refl,
        ground (arith, served, accepted),
        rw (served, accepted) (l.get-create (new_code now code p) w.codes accepted),
      )

  -- The code of the answer is kept for the client and the URI of the request, and for the user.
  abbrev pub IsKeptFor : AuthorizeRequest → Claims → Client → String → c.State → Type 0
  IsKeptFor req claims client code codes =
      (a : AuthCode) × (c.get_by_code code codes ≡ some a)
      × (a.user_id ≡ (e.parse_uuid claims.subject).0)
      × (a.org_id ≡ client.org_id)
      × (a.client_id ≡ req.client_id)
      × (a.redirect_uri ≡ req.redirect_uri)
      × (a.code_challenge ≡ req.code_challenge)

  -- If the endpoint for users who have logged in answers with a URL, an access token that is valid
  -- and not revoked came with the request; a known and active client has registered the URI of the
  -- request, but for blanks around it and slashes at its end; the URL is that URI with the drawn code
  -- and the state added; and the table, where it keeps its contract, then holds that code for the user
  -- who is the subject of the token, for the client, its organisation, the URI and the challenge.
  pub handle_authorize_with_session-IsRegistered :
      Lawful c
      → (now : ℕ) (drawn : Option String) (req : AuthorizeRequest) (header : String) {u : String}
        (w : World c.State r.State)
      → (handle_authorize_with_session r e c k deps now drawn (some req) header w).0
        ≡ answer_with 200 (redirect_url u)
      → (client : Client) × (claims : Claims) × (code : String) × ((get_client req.client_id
              w.clients
            ≡ some client)
          × (client.is_active ≡ true)
          × IsRegistered req.redirect_uri client)
        × ((token : String) × (bearer_token header ≡ some token)
            × ((verify_access_token r e token w.redis).0 ≡ ok claims))
        × ((drawn ≡ some code) × (u ≡ code_location req.redirect_uri code req.state))
        × IsKeptFor req claims client code
            (handle_authorize_with_session r e c k deps now drawn (some req) header w).1.codes
  unfolding new_code
  handle_authorize_with_session-IsRegistered l now drawn req header w sent =
      let (claims, verified, from) = session_claims now drawn req header w sent in
      let (subject, named, code_type, served) =
        session_request now drawn req header w sent verified in
      let (client, found) = session_client now drawn req header w sent verified in
      let (known, valid) =
        registered_client_ok r e c k deps req.client_id req.redirect_uri w found in
      let same =
        session_continues now drawn req header w verified subject named code_type served known in
      let (code, drew, url, held) =
        session_answer_ok l now drawn req (session_params req claims client) w
          (sym (ap (λ p. p.0) same) ∙ sent) in
      (
        client,
        claims,
        code,
        valid,
        from,
        (drew, url),
        subst (λ p. IsKeptFor req claims client code p.1.codes) (sym same)
            (
              new_code now code (session_params req claims client),
              held,
              refl,
              refl,
              refl,
              refl,
              refl,
            ),
      )
