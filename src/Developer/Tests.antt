-- ===== src/Developer/Tests.antt =====
-- An application of a developer, in a table kept in memory.
use moddery.Base.{
  List, [], ◌∷◌, ◌≡◌, ◌↔◌, ◌⊎◌, refl, inl, inr, Text, text, teq, trim, trim_start, is_space, Option,
  some, none, true, false, AreDistinct, Among, ok, err, bad_request, HttpError, nullable_trim,
  required_text, starts_with, if◌then◌else◌, ap, unique, ◌∙◌,
}
use moddery.Auth.Tokens.{allowed_credential_scopes}
use moddery.Database.Memory.{memory}
use moddery.Developer.{
  OauthClient, CreateOauthClientInput, CreatedClient, create_viewer_oauth_client, active, revoked,
  revoke_viewer_oauth_client, is_own_client, sanitize_redirect_uris, oauth_client_created,
  oauth_client_revoked,
}
use moddery.Developer.Redirects.{IsGiven, IsWeb, web_uris_are_taken}
use moddery.Developer.Clients.{create_viewer_oauth_client_sound, revoke_viewer_oauth_client_lem}

-- A parser that knows three schemes.
abbrev protocol_of : Text → Option Text
protocol_of uri =
    if starts_with uri (text "http:")
    then some (text "http:")
    else if starts_with uri (text "https:")
    then some (text "https:")
    else if starts_with uri (text "ftp:")
    then some (text "ftp:")
    else none

abbrev given : List Text
given = text " https://b" ∷ text "http://a" ∷ text "https://b" ∷ text " " ∷ []

taken : sanitize_redirect_uris protocol_of given ≡ ok (text "http://a" ∷ text "https://b" ∷ [])
unfolding sanitize_redirect_uris unique trim trim_start is_space teq starts_with
taken = refl

no_ftp :
    sanitize_redirect_uris protocol_of (text "ftp://a" ∷ [])
    ≡ err (bad_request "Redirect URIs must use http or https")
unfolding sanitize_redirect_uris unique trim trim_start is_space teq starts_with
no_ftp = refl

abbrev unsupported : Text → HttpError
unsupported scope = bad_request "Unsupported credential scope"

abbrev hash : Text → Text
hash s = s

abbrev input : CreateOauthClientInput
input = record {
  description = none;
  homepage_url = none;
  name = text "Map";
  redirect_uris = given;
  scopes = none;
}

abbrev map_client : OauthClient
map_client = record {
  id = 5;
  owner_id = 1;
  client_id = text "mdy_client_i";
  client_secret_hash = text "mdy_secret_s";
  name = text "Map";
  description = none;
  homepage_url = none;
  status = active;
  scopes = text "read:projects" ∷ [];
  redirect_uris = text "http://a" ∷ text "https://b" ∷ [];
  revoked_at = none;
}

abbrev map_created : CreatedClient
map_created = record {
  client = map_client;
  client_secret = text "mdy_secret_s";
  event = oauth_client_created 1 5 (text "Map") (text "read:projects" ∷ []);
}

create_viewer_oauth_client_sound_example :
    (map_client.owner_id ≡ 1)
    × (map_client.client_secret_hash ≡ hash map_created.client_secret)
    × (required_text (text "Map") "Application name is required" ≡ ok map_client.name)
    × AreDistinct map_client.redirect_uris
    × ((a : Text) → Among a map_client.redirect_uris ↔ IsGiven given a)
    × ((a : Text) → Among a map_client.redirect_uris → IsWeb protocol_of a)
    × ((a : Text) → Among a map_client.scopes → Among a allowed_credential_scopes)
    × ((r : OauthClient) → Among r (map_client ∷ []) ↔ ((r ≡ map_client) ⊎ Among r []))
unfolding create_viewer_oauth_client unique trim trim_start is_space teq nullable_trim starts_with
create_viewer_oauth_client_sound_example =
    create_viewer_oauth_client_sound protocol_of (memory OauthClient) hash unsupported 5 (text "i")
      (text "s") input 1 [] (map_client ∷ []) map_created refl

abbrev map_revoked : OauthClient
map_revoked = record map_client { status = revoked; revoked_at = some 9 }

revoke_viewer_oauth_client_lem_example :
    ((r : OauthClient)
      → Among r (map_revoked ∷ [])
      → is_own_client 5 1 r ≡ true
      → (r.status ≡ revoked) × (r.revoked_at ≡ some 9))
    × ((r : OauthClient)
        → is_own_client 5 1 r ≡ false
        → Among r (map_revoked ∷ []) ↔ Among r (map_client ∷ []))
unfolding revoke_viewer_oauth_client
revoke_viewer_oauth_client_lem_example =
    revoke_viewer_oauth_client_lem (memory OauthClient) 9 5 1 (map_client ∷ []) (map_revoked ∷ [])
      map_revoked (oauth_client_revoked 1 5 (text "Map")) refl

abbrev one : List Text
one = text "http://a" ∷ []

one-IsWeb : (b : Text) → IsGiven one b → IsWeb protocol_of b
unfolding trim trim_start is_space teq starts_with
one-IsWeb b (full, (r, inl e, same)) = (text "http:", ap protocol_of (same ∙ ap trim e), refl)
one-IsWeb b (full, (r, inr m, same)) = absurd m

web_uris_are_taken_example :
    (result : List Text) × (sanitize_redirect_uris protocol_of one ≡ ok result)
    × ((b : Text) → Among b result ↔ IsGiven one b)
unfolding trim trim_start is_space teq starts_with
web_uris_are_taken_example =
    web_uris_are_taken protocol_of one (text "http://a") (refl, (text "http://a", inl refl, refl))
      one-IsWeb
