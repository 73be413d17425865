-- ===== src/Oauth2/Client.antt =====
-- The clients: the methods of internal/domain/client.go, the table `oauth2_clients`
-- (`OAuth2ClientRepository` of internal/store/postgres/oauth2.go) for a database that answers, and
-- `ClientService` of internal/service/oauth2/client.go.
use auth.Base.{
  Bool, Effect, List, Option, Result, String, Uuid, [], all, any, codes, elem, fail, false, filter,
  found_or, if◌then◌else◌, leb, length, map, none, not, ok, some, str_eq, true, ℕ, ◌&&◌, ◌==◌,
  ◌>>=◌, ◌||◌, ◌∷◌,
}
use auth.Text.{trim_space}
use auth.Strings.{same_codes, trim_slashes}
use auth.Oauth2.Data.{Client, CreateClientParams, Crypto, OauthError, random_failed, store_failed}

unfoldable pub is_confidential : Client → Bool
is_confidential c = not (str_eq c.token_endpoint_auth_method "none")

unfoldable pub allowed_grants : Client → List String
allowed_grants c =
    if str_eq c.client_type "machine"
    then "client_credentials" ∷ []
    else if str_eq c.client_type "web"
        || str_eq c.client_type "spa"
        || str_eq c.client_type "native"
    then "authorization_code" ∷ "refresh_token" ∷ []
    else []

unfoldable pub has_grant : Client → String → Bool
unfolding allowed_grants
has_grant c grant = elem grant (allowed_grants c)

-- `strings.TrimRight(strings.TrimSpace(uri), "/")`
unfoldable pub normalise_uri : String → List ℕ
unfolding trim_space trim_slashes
normalise_uri uri = trim_slashes (trim_space (codes uri))

unfoldable pub validate_redirect_uri : Client → String → Bool
unfolding normalise_uri
validate_redirect_uri c uri =
    let normalized = normalise_uri uri in
    any (λ allowed. same_codes (normalise_uri allowed) normalized) c.allowed_redirect_uris

unfoldable pub validate_scope : Client → List String → Bool
validate_scope c requested = all (λ r. elem r c.allowed_scopes) requested

-- The rows of `oauth2_clients`; `client_id` is unique.
abbrev pub Clients : Type 0
Clients = List Client

-- `SELECT … WHERE client_id = $1`; a missing row is an error.
unfoldable pub get_client : String → Clients → Option Client
get_client client_id [] = none
get_client client_id (c ∷ rows) =
    let rest = get_client client_id rows in if str_eq c.client_id client_id then some c else rest

-- The row that `INSERT` writes: `client_id` is the id as text, and the columns that it does not name
-- are empty.
unfoldable pub new_row : (Uuid → String) → Client → Client
new_row uuid_string c = record c {
  client_id = uuid_string c.id;
  app_url = "";
  icon_name = "";
  icon_color = "";
  public_key_jwk = "";
}

-- A text for a column of so many characters. A text holds no zero; what is too long is refused,
-- also where the excess is blanks.
unfoldable pub is_varchar : ℕ → String → Bool
is_varchar n s = leb (length (codes s)) n && all (λ c. not (c == 0)) (codes s)

unfoldable pub are_texts : List String → Bool
are_texts texts = all (λ s. all (λ c. not (c == 0)) (codes s)) texts

abbrev pub client_types : List String
client_types = "web" ∷ "spa" ∷ "native" ∷ "machine" ∷ []

abbrev pub auth_methods : List String
auth_methods = "none" ∷ "client_secret_basic" ∷ "client_secret_post" ∷ "private_key_jwt" ∷ []

abbrev pub max_integer : ℕ
max_integer = 2147483647

-- The enums, lengths, integers and the foreign key of the columns (migrations/20260613000020), where
-- `has_org` tells the organisations that exist.
unfoldable pub is_admitted : (Uuid → Bool) → Client → Bool
unfolding is_varchar are_texts
is_admitted has_org c =
    has_org c.org_id
    && elem c.client_type client_types
    && elem c.token_endpoint_auth_method auth_methods
    && is_varchar 128 c.client_id
    && is_varchar 256 c.name
    && is_varchar 500 c.description
    && is_varchar 256 c.client_secret_hash
    && are_texts c.allowed_scopes
    && are_texts c.allowed_redirect_uris
    && are_texts c.allowed_origins
    && leb c.token_expiration max_integer
    && leb c.refresh_token_expiration max_integer

unfoldable pub insert_client : Bool → Client → Clients → Clients × Bool
insert_client false row rows = (rows, false)
insert_client true row rows = (row ∷ rows, true)

-- `INSERT`, with whether it is accepted: not a second time under an `id` or a `client_id`, and not
-- where the columns do not admit the row.
unfoldable pub create_client : (Uuid → Bool) → (Uuid → String) → Client → Clients → Clients × Bool
unfolding new_row insert_client is_admitted
create_client has_org uuid_string c rows =
    let row = new_row uuid_string c in
    let taken = any (λ o. o.id == row.id || str_eq o.client_id row.client_id) rows in
    insert_client (not taken && is_admitted has_org row) row rows

-- The columns that `UPDATE` sets.
unfoldable pub set_columns : Client → Client → Client
set_columns new old = record old {
  name = new.name;
  description = new.description;
  client_type = new.client_type;
  token_endpoint_auth_method = new.token_endpoint_auth_method;
  allowed_scopes = new.allowed_scopes;
  allowed_redirect_uris = new.allowed_redirect_uris;
  allowed_origins = new.allowed_origins;
  client_secret_hash = new.client_secret_hash;
  token_expiration = new.token_expiration;
  refresh_token_expiration = new.refresh_token_expiration;
  allow_multiple_tokens = new.allow_multiple_tokens;
  skip_consent_screen = new.skip_consent_screen;
  is_active = new.is_active;
  updated_at = new.updated_at;
}

-- `UPDATE`, with whether it is accepted; what the columns do not admit is refused, also where no row
-- is changed.
unfoldable pub update_client : (Uuid → String) → Client → Clients → Clients × Bool
unfolding set_columns is_admitted
update_client uuid_string new rows =
    if is_admitted (λ org. true) (record new { client_id = "" })
    then (
      map (λ c. if str_eq c.client_id (uuid_string new.id) then set_columns new c else c) rows,
      true,
    )
    else (rows, false)

unfoldable pub delete_client : String → Clients → Clients
delete_client client_id rows = filter (λ c. not (str_eq c.client_id client_id)) rows

unfoldable pub get_by_client_id : String → Effect OauthError Clients Client
unfolding get_client
get_by_client_id client_id rows = found_or store_failed (get_client client_id rows) rows

-- The client that `Create` and `CreateWithSecretHash` write.
unfoldable pub new_client : ℕ → Uuid → Uuid → CreateClientParams → String → Client
new_client now id org_id p secret_hash = record {
  id = id;
  client_id = "";
  org_id = org_id;
  name = p.name;
  description = p.description;
  app_url = "";
  icon_name = "";
  icon_color = "";
  client_type = p.client_type;
  token_endpoint_auth_method = p.token_endpoint_auth_method;
  allowed_scopes = p.allowed_scopes;
  allowed_redirect_uris = p.allowed_redirect_uris;
  allowed_origins = p.allowed_origins;
  client_secret_hash = secret_hash;
  public_key_jwk = "";
  token_expiration = p.token_expiration;
  refresh_token_expiration = p.refresh_token_expiration;
  allow_multiple_tokens = p.allow_multiple_tokens;
  skip_consent_screen = p.skip_consent_screen;
  is_active = true;
  created_at = now;
  updated_at = now;
}

unfoldable pub created : Client → Clients × Bool → Result OauthError Client × Clients
created c (rows, accepted) = (if accepted then ok c else fail store_failed, rows)

unfoldable pub create_with_secret_hash :
    (Uuid → Bool)
    → (Uuid → String)
    → ℕ
    → Uuid
    → Uuid
    → CreateClientParams
    → String
    → Effect OauthError Clients Client
unfolding new_client create_client created
create_with_secret_hash has_org uuid_string now id org_id p secret_hash rows =
    let c = new_client now id org_id p secret_hash in
    created c (create_client has_org uuid_string c rows)

-- The secret that is drawn, for a client that has one; `none` if the random source fails.
unfoldable pub client_secret : CreateClientParams → Option String → Option String
client_secret p drawn = if str_eq p.token_endpoint_auth_method "none" then some "" else drawn

unfoldable pub hash_secret : Crypto → String → String
hash_secret k secret = k.base64_std (k.sha256 secret)

-- `ClientService.Create`, with lists that are not nil.
unfoldable pub create :
    Crypto
    → (Uuid → Bool)
    → (Uuid → String)
    → Option String
    → ℕ
    → Uuid
    → Uuid
    → CreateClientParams
    → Effect OauthError Clients Client
unfolding client_secret hash_secret create_with_secret_hash
create k has_org uuid_string drawn now id org_id p = do
  secret ← found_or random_failed (client_secret p drawn)
  create_with_secret_hash has_org uuid_string now id org_id p
      (if str_eq secret "" then "" else hash_secret k secret)

-- `ClientService.Delete`, for a database that answers; it does not look at the organisation.
unfoldable pub delete : (Uuid → String) → Uuid → Uuid → Effect OauthError Clients (Unit {0})
unfolding delete_client
delete uuid_string client_id org_id rows = (ok tt, delete_client (uuid_string client_id) rows)

pub record AppEntry : Type 0 where
  pub client_id : String
  pub name : String
  pub description : String
  pub app_url : String
  pub icon_name : String
  pub icon_color : String

unfoldable pub is_listed : Client → Bool
is_listed c = c.is_active && str_eq c.client_type "web" && not (str_eq c.app_url "")

unfoldable pub app_entry : Client → AppEntry
app_entry c = record {
  client_id = c.client_id;
  name = c.name;
  description = c.description;
  app_url = c.app_url;
  icon_name = c.icon_name;
  icon_color = c.icon_color;
}

-- `by_name` is the order of the database's collation.
unfoldable pub list_apps : (List AppEntry → List AppEntry) → Clients → List AppEntry
unfolding is_listed app_entry
list_apps by_name rows = by_name (map app_entry (filter is_listed rows))
