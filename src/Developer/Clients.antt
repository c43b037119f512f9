-- ===== src/Developer/Clients.antt =====
-- What a developer that registers an application gets, and what the revocation of one touches:
-- createViewerOAuthClient and revokeViewerOAuthClient of
-- apps/api/src/developer/services/developer.service.ts.
use moddery.Base.{
  ℕ, List, ◌≡◌, ◌↔◌, ◌⊎◌, inl, inr, sym, ap, ◌∙◌, subst, Text, true, false, Option, some,
  AreDistinct, Among, ok, not_found, internal_error, throw_if, or_throw, >>=-eq-ok, ok-first,
  ok-second, ◌==◌, HttpError, required_text, ok-first_of_three,
}
use moddery.Auth.Tokens.{allowed_credential_scopes, normalize_credential_scopes}
use moddery.Auth.Tokens.Scopes.{normalize_credential_scopes_sound}
use moddery.Database.{Table}
use moddery.Developer.{
  OauthClient, CreateOauthClientInput, CreatedClient, create_viewer_oauth_client, revoked,
  revoke_viewer_oauth_client, is_own_client, as_revoked, OauthClientEvent, sanitize_redirect_uris,
}
use moddery.Developer.Redirects.{IsGiven, IsWeb, sanitize_redirect_uris_sound}

-- A new application is a new row beside the others: it belongs to the one who asked, has the trimmed
-- name, which is not blank, exactly the trimmed addresses that were given and are not blank, each once,
-- which all are addresses of the web, scopes that there are, and the digest of the secret.
pub create_viewer_oauth_client_sound :
    (protocol_of : Text → Option Text) (t : Table OauthClient) (hash_token : Text → Text)
    (unsupported : Text → HttpError) (id : ℕ) (random_id random_secret : Text)
    (input : CreateOauthClientInput) (owner_id : ℕ) (s after : t.Store) (reply : CreatedClient)
    → create_viewer_oauth_client protocol_of t hash_token unsupported id random_id random_secret
        input owner_id s
      ≡ ok (after, reply)
    → let c = reply.client in
      (c.owner_id ≡ owner_id)
      × (c.client_secret_hash ≡ hash_token reply.client_secret)
      × (required_text input.name "Application name is required" ≡ ok c.name)
      × AreDistinct c.redirect_uris
      × ((a : Text) → Among a c.redirect_uris ↔ IsGiven input.redirect_uris a)
      × ((a : Text) → Among a c.redirect_uris → IsWeb protocol_of a)
      × ((a : Text) → Among a c.scopes → Among a allowed_credential_scopes)
      × ((r : OauthClient) → t.Holds after r ↔ ((r ≡ c) ⊎ t.Holds s r))
unfolding create_viewer_oauth_client
create_viewer_oauth_client_sound protocol_of t hash_token unsupported id random_id random_secret
      input owner_id s after reply h =
    let (name, e₁, h₁) = >>=-eq-ok (required_text input.name "Application name is required") _ h in
    let (uris, e₂, h₂) = >>=-eq-ok (sanitize_redirect_uris protocol_of input.redirect_uris) _ h₁ in
    let (scopes, e₃, h₃) = >>=-eq-ok (normalize_credential_scopes unsupported input.scopes) _ h₂ in
    let moved = ok-first h₃ in
    let same = ok-second h₃ in
    let listed = ap (λ (x : CreatedClient). x.client.redirect_uris) same in
    let granted = ap (λ (x : CreatedClient). x.client.scopes) same in
    let created : after ≡ t.create reply.client s =
      moved ∙ sym (ap (λ (x : CreatedClient). t.create x.client s) same) in
    let (some_uri, apart, given, web) =
      sanitize_redirect_uris_sound protocol_of input.redirect_uris uris e₂ in
    let known = (normalize_credential_scopes_sound unsupported input.scopes scopes e₃).1 in
    (
      ap (λ (x : CreatedClient). x.client.owner_id) same,
      ap (λ (x : CreatedClient). x.client.client_secret_hash) same
          ∙ sym (ap (λ (x : CreatedClient). hash_token x.client_secret) same),
      e₁ ∙ sym (ap (λ (x : CreatedClient). ok x.client.name) same),
      subst AreDistinct (sym listed) apart,
      λ a.
          subst (λ (xs : List Text). Among a xs ↔ IsGiven input.redirect_uris a) (sym listed)
            (given a),
      λ a m. web a (subst (λ (xs : List Text). Among a xs) listed m),
      λ a m. known a (subst (λ (xs : List Text). Among a xs) granted m),
      λ r.
          subst (λ w. t.Holds w r ↔ ((r ≡ reply.client) ⊎ t.Holds s r)) (sym created)
            (t.holds_create reply.client s r),
    )

-- A revocation leaves no application of that identifier and that owner in force, and leaves every
-- other application as it was.
pub revoke_viewer_oauth_client_lem :
    (t : Table OauthClient) (now client_id owner_id : ℕ) (s after : t.Store) (c : OauthClient)
    (event : OauthClientEvent)
    → revoke_viewer_oauth_client t now client_id owner_id s ≡ ok (after, c, event)
    → ((r : OauthClient)
        → t.Holds after r
        → is_own_client client_id owner_id r ≡ true
        → (r.status ≡ revoked) × (r.revoked_at ≡ some now))
      × ((r : OauthClient)
          → is_own_client client_id owner_id r ≡ false
          → t.Holds after r ↔ t.Holds s r)
unfolding revoke_viewer_oauth_client
revoke_viewer_oauth_client_lem t now client_id owner_id s after c event h =
    let mine = is_own_client client_id owner_id in
    let (u, e₁, h₁) =
      >>=-eq-ok (throw_if (t.count mine s == 0) (not_found "Application not found")) _ h in
    let (r, e₂, h₂) =
      >>=-eq-ok
        (or_throw (t.find_first (λ r. r.id == client_id) (t.update mine (as_revoked now) s))
          (internal_error "Not found"))
        _ h₁ in
    let moved = ok-first_of_three h₂ in
    rw moved (
      (λ r held own. elim ((t.holds_update mine (as_revoked now) s r).0 held) [
        | inl (k, off) ↦ cc (own, off)
        | inr (q, k, on, e) ↦ (ap (λ x. x.status) e, ap (λ x. x.revoked_at) e)
      ]),
      λ r off. (
        λ held. elim ((t.holds_update mine (as_revoked now) s r).0 held) [
          | inl (k, miss) ↦ k
          | inr (q, k, on, e) ↦ cc (sym (ap mine e) ∙ off, on)
        ],
        λ k. (t.holds_update mine (as_revoked now) s r).1 (inl (k, off)),
      ),
    )
