-- ===== src/Developer.antt =====
-- The applications that developers register, with the addresses that a login may return to:
-- apps/api/src/developer/services/developer.service.ts.
pub mod Redirects
pub mod Clients
pub mod Tests
use moddery.Base.{
  ℕ, List, [], ◌∷◌, ◌++◌, Option, none, some, Text, text, teq, trim, is_empty, ◌==◌, ◌&&◌, ◌||◌,
  Bool, true, false, not, unique, keep_if, map, Result, ok, HttpError, bad_request, not_found,
  internal_error, ◌>>=◌, ◌>>◌, or_throw, throw_if, required_text, nullable_trim,
}
use moddery.Auth.Tokens.{normalize_credential_scopes, sort}
use moddery.Database.{Table}

pub data OauthClientStatus : Type 0 where
  active revoked : OauthClientStatus

pub record OauthClient : Type 0 where
  pub id : ℕ
  pub owner_id : ℕ
  pub client_id : Text
  pub client_secret_hash : Text
  pub name : Text
  pub description : Option Text
  pub homepage_url : Option Text
  pub status : OauthClientStatus
  pub scopes : List Text
  pub redirect_uris : List Text
  pub revoked_at : Option ℕ

pub record CreateOauthClientInput : Type 0 where
  pub description : Option Text
  pub homepage_url : Option Text
  pub name : Text
  pub redirect_uris : List Text
  pub scopes : Option (List Text)

pub data OauthClientEvent : Type 0 where
  oauth_client_created :
      (actor_id client_id : ℕ) (name : Text) (scopes : List Text) → OauthClientEvent
  oauth_client_revoked : (actor_id client_id : ℕ) (name : Text) → OauthClientEvent

pub record CreatedClient : Type 0 where
  pub client : OauthClient
  pub client_secret : Text
  pub event : OauthClientEvent

abbrev client_id_prefix : Text
client_id_prefix = text "mdy_client"

abbrev client_secret_prefix : Text
client_secret_prefix = text "mdy_secret"

abbrev pub is_full : Text → Bool
is_full uri = not (is_empty uri)

-- `[...new Set(redirectUris.map((uri) => uri.trim()))].filter(Boolean)`.
unfoldable pub trimmed_uris : List Text → List Text
trimmed_uris redirect_uris = keep_if is_full (unique (map trim redirect_uris))

abbrev pub is_nil : List Text → Bool
is_nil [] = true
is_nil (uri ∷ uris) = false

abbrev pub is_web : Text → Bool
is_web protocol = teq protocol (text "http:") || teq protocol (text "https:")

-- `protocol_of uri` is `new URL(uri).protocol`, and `none` where the constructor throws.
module _ (protocol_of : Text → Option Text) where
  unfoldable pub check_uris : List Text → Result (Unit {0})
  unfolding teq
  check_uris [] = ok tt
  check_uris (uri ∷ uris) = do
    protocol ← or_throw (protocol_of uri) (bad_request "Redirect URIs must be valid URLs")
    web ← throw_if (not (is_web protocol)) (bad_request "Redirect URIs must use http or https")
    check_uris uris

  unfoldable pub sanitize_redirect_uris : List Text → Result (List Text)
  unfolding trimmed_uris check_uris sort
  sanitize_redirect_uris redirect_uris = do
    let sanitized = trimmed_uris redirect_uris
    some_uri ← throw_if (is_nil sanitized) (bad_request "At least one redirect URI is required")
    checked ← check_uris sanitized
    ok (sort sanitized)

  -- `random_id` and `random_secret` are the texts of the random bytes, `id` the identifier that the
  -- database gives the row.
  unfoldable pub create_viewer_oauth_client :
      (t : Table OauthClient)
      → (Text → Text)
      → (Text → HttpError)
      → ℕ
      → Text
      → Text
      → CreateOauthClientInput
      → ℕ
      → t.Store
      → Result (t.Store × CreatedClient)
  unfolding sanitize_redirect_uris normalize_credential_scopes required_text
  create_viewer_oauth_client t hash_token unsupported id random_id random_secret input owner_id s =
      do
        name ← required_text input.name "Application name is required"
        redirect_uris ← sanitize_redirect_uris input.redirect_uris
        let client_secret = client_secret_prefix ++ (text "_" ++ random_secret)
        scopes ← normalize_credential_scopes unsupported input.scopes
        let client : OauthClient = record {
          id = id;
          owner_id = owner_id;
          client_id = client_id_prefix ++ (text "_" ++ random_id);
          client_secret_hash = hash_token client_secret;
          name = name;
          description = nullable_trim input.description;
          homepage_url = nullable_trim input.homepage_url;
          status = active;
          scopes = scopes;
          redirect_uris = redirect_uris;
          revoked_at = none;
        }
        ok (
          t.create client s,
          record {
            client = client;
            client_secret = client_secret;
            event = oauth_client_created owner_id id name scopes;
          },
        )

abbrev pub is_own_client : ℕ → ℕ → OauthClient → Bool
is_own_client client_id owner_id r = r.id == client_id && r.owner_id == owner_id

abbrev pub as_revoked : ℕ → OauthClient → OauthClient
as_revoked now r = record r { revoked_at = some now; status = revoked }

unfoldable pub revoke_viewer_oauth_client :
    (t : Table OauthClient)
    → ℕ
    → ℕ
    → ℕ
    → t.Store
    → Result (t.Store × OauthClient × OauthClientEvent)
revoke_viewer_oauth_client t now client_id owner_id s = do
  let mine = is_own_client client_id owner_id
  found ← throw_if (t.count mine s == 0) (not_found "Application not found")
  let clients = t.update mine (as_revoked now) s
  client ← or_throw (t.find_first (λ r. r.id == client_id) clients) (internal_error "Not found")
  ok (clients, client, oauth_client_revoked owner_id client.id client.name)
