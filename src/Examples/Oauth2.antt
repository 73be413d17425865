-- ===== src/Examples/Oauth2.antt =====
-- OAuth2 at concrete inputs.
use auth.Base.{
  Result, String, [], arith, filter, inr, length, none, ok, refl, some, str_eq, true, ◌↔◌, ◌∷◌, ◌≡◌,
  ◌≢◌, ◌≤◌,
}
use auth.Session.Data.{Claims}
use auth.Session.Access.{verify_access_token}
use auth.Oauth2.Client.{
  client_secret, get_client, is_admitted, is_confidential, new_client, new_row,
  validate_redirect_uri,
}
use auth.Oauth2.Http.{
  DcrResponse, Response, answer_with, bearer_token, credentials, hash_client_secret, redirect_url,
  registered, tokens, verify_client_secret,
}
use auth.Oauth2.Authorize.{code_location, handle_authorize_with_session}
use auth.Oauth2.TokenEndpoint.{handle_token}
use auth.Oauth2.Register.{dcr_params, handle_dcr, organisation}
use auth.Oauth2.Registered.{IsRegistered}
use auth.Oauth2.Redirects.{IsKeptFor, handle_authorize_with_session-IsRegistered}
use auth.Oauth2.Flow.{token-authorize}
use auth.Oauth2.Machine.{IsServed, client_credentials_iff}
use auth.Oauth2.Registration.{token-register}
use auth.Oauth2.Data.{Client, OauthError, TokenResponse}
use auth.Oauth2.Store.{Lawful, get_row, insert_row, postgres, postgres-Lawful}
use auth.Oauth2.Token.{World, exchange_code_for_tokens}
use auth.Oauth2.Redeem.{IsRedeemable}
use auth.Oauth2.Once.{exchange_all, exchange_all-once, is_ok}
use auth.Oauth2.Exchange.{IsIssuable, exchange_iff}
use auth.Examples.Map.{lookup}
use auth.Examples.Memory.{memory, env, store, differ}
use auth.Examples.Oauth2Data.{
  crypto, client, stored_code, pg, world, deps, drawn, attempt, form, request, bearer_claims,
  registration, dcr_request, has_org,
}

postgres-Lawful_example : Lawful (postgres (λ a. str_eq a.branch_id ""))
postgres-Lawful_example = postgres-Lawful (λ a. str_eq a.branch_id "")

exchange_all-once_example :
    length (
      filter is_ok (
        exchange_all memory env 900 pg crypto "abc"
          (attempt 200 ∷ attempt 201 ∷ [])
          (world (stored_code ∷ []))))
    ≤ 1
exchange_all-once_example =
    exchange_all-once memory env 900 pg crypto (postgres-Lawful (λ a. true)) "abc"
      (attempt 200 ∷ attempt 201 ∷ []) (world (stored_code ∷ []))

found_code : get_row "abc" (stored_code ∷ []) ≡ some stored_code
unfolding get_row
found_code = refl

exchange_iff_example :
    ((given : TokenResponse) × ((exchange_code_for_tokens memory env 900 pg crypto 200 drawn "abc"
          "verifier" "https://app/cb"
          (world (stored_code ∷ []))).0
        ≡ ok given))
    ↔ (IsRedeemable crypto 200 "verifier" stored_code
        × (stored_code.redirect_uri ≡ "https://app/cb")
        × IsIssuable env drawn stored_code (world []).clients)
exchange_iff_example =
    exchange_iff memory env 900 pg crypto 200 drawn "abc" "verifier" "https://app/cb"
      {a = stored_code} (world (stored_code ∷ [])) found_code

abbrev exchanged_now : Result OauthError TokenResponse × World pg.State memory.State
exchanged_now =
    exchange_code_for_tokens memory env 900 pg crypto 200 drawn "abc" "verifier" "https://app/cb"
      (world (stored_code ∷ []))

abbrev given_tokens : TokenResponse
given_tokens = record {
  access_token = "s9";
  token_type = "Bearer";
  expires_in = 900;
  refresh_token = "r9";
  scope = "openid";
  id_token = "";
}

gives : exchanged_now.0 ≡ ok given_tokens
unfolding exchange_code_for_tokens get_row
gives = refl

abbrev redirected : Response × World pg.State memory.State
redirected =
    handle_authorize_with_session memory env pg crypto deps 100 (some "abc") (some request)
      "Bearer s1" (world [])

handle_authorize_with_session-IsRegistered_example :
    (client : Client) × (claims : Claims) × (code : String) × ((get_client "c1" (world []).clients
        ≡ some client)
      × (client.is_active ≡ true)
      × IsRegistered "https://app/cb" client)
    × ((token : String) × (bearer_token "Bearer s1" ≡ some token)
        × ((verify_access_token memory env token (store none)).0 ≡ ok claims))
    × ((some "abc" ≡ some code)
        × (code_location "https://app/cb" "abc" "xyz" ≡ code_location "https://app/cb" code "xyz"))
    × IsKeptFor memory env pg crypto deps request claims client code redirected.1.codes
unfolding handle_authorize_with_session auth.Session.Refresh.is_session_revoked lookup insert_row
handle_authorize_with_session-IsRegistered_example =
    handle_authorize_with_session-IsRegistered memory env pg crypto deps
      (postgres-Lawful (λ a. true)) 100 (some "abc") request "Bearer s1"
      {u = "https://app/cb?code=abc&state=xyz"} (world []) refl

token-authorize_example :
    (redirected.0 ≡ answer_with 200 (redirect_url (code_location "https://app/cb" "abc" "xyz")))
    × ((given : TokenResponse) × ((handle_token memory env 900 pg crypto deps 200 drawn 7
            (form "authorization_code" "" "")
            "Basic YzE"
            redirected.1).0
          ≡ answer_with 200 (tokens given))
        × (given.scope ≡ "openid"))
unfolding bearer_token verify_access_token auth.Session.Refresh.is_session_revoked lookup get_client
    auth.Oauth2.Client.validate_redirect_uri insert_row credentials
    auth.Oauth2.Client.is_confidential auth.Oauth2.Http.verify_client_secret
token-authorize_example =
    token-authorize memory env 900 (postgres-Lawful (λ a. true)) crypto deps 100 200 drawn 7
      "Bearer s1" "Basic YzE" request (form "authorization_code" "" "") {token = "s1"}
      {claims = bearer_claims} {client = client "c1" "web"} (world []) refl refl refl refl refl refl
      refl (differ "c1" "" refl) (differ "https://app/cb" "" refl) refl refl refl refl refl
      (λ id u o x. (id, refl)) refl (differ "abc" "" refl) refl refl refl (inr refl) (omega arith)

client_credentials_iff_example :
    ((given : TokenResponse) × ((handle_token memory env 900 pg crypto deps 200 drawn 7
          (form "client_credentials" "m1" "s3cret")
          ""
          (world [])).0
        ≡ answer_with 200 (tokens given)))
    ↔ (((credentials crypto "" (form "client_credentials" "m1" "s3cret")).0 ≢ "")
        × ((credentials crypto "" (form "client_credentials" "m1" "s3cret")).1 ≢ "")
        × IsServed env crypto 7
            (credentials crypto "" (form "client_credentials" "m1" "s3cret")).0
            (credentials crypto "" (form "client_credentials" "m1" "s3cret")).1
            ""
            (world []).clients)
client_credentials_iff_example =
    client_credentials_iff memory env 900 pg crypto deps 200 drawn 7
      (form "client_credentials" "m1" "s3cret") "" (world []) refl refl refl

abbrev registers : Response × World pg.State memory.State
registers = handle_dcr has_org env crypto deps 100 registration (some dcr_request) (world [])

token-register_example :
    (given : DcrResponse) × (registers.0 ≡ answer_with 201 (registered given))
    × ((given.client_id, given.client_secret)
        ≡ credentials crypto "" (form "client_credentials" "user-7" "s3cret"))
    × ((t : TokenResponse) × ((handle_token memory env 900 pg crypto deps 200 drawn 7
            (form "client_credentials" "user-7" "s3cret")
            ""
            registers.1).0
          ≡ answer_with 200 (tokens t)))
unfolding get_client credentials auth.Oauth2.Client.is_admitted auth.Oauth2.Client.new_row
    auth.Oauth2.Client.new_client auth.Oauth2.Register.organisation auth.Oauth2.Register.dcr_params
    auth.Oauth2.Http.hash_client_secret
token-register_example =
    token-register memory has_org env 900 pg crypto deps 100 200 registration dcr_request drawn 7
      (form "client_credentials" "user-7" "s3cret") "" (world []) refl refl refl refl
      (differ "user-7" "" refl) (differ "s3cret" "" refl) (differ "digest" "" refl) refl
      (differ "" "none" refl) (λ id u o x. (id, refl)) refl refl
