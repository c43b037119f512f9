-- ===== src/Auth/Tokens/Lifetime.antt =====
-- A personal access token from its creation to its end: apps/api/src/auth/services/api-tokens.service.ts
-- with the check of apps/api/src/auth/services/auth-token.service.ts.
use moddery.Base.{
  ℕ, ◌++◌, ◌≡◌, inl, inr, refl, sym, ap, ◌∙◌, subst, Text, text, teq, teq_refl, trim, is_empty,
  ◌==◌, true, false, Option, none, some, Option-cases, ok, err, HttpError, bad_request,
  unauthorized, not_found, internal_error, or_throw, throw_if, >>=-eq-ok, ok-first, ok-second,
  ok-first_of_three, arith,
}
use moddery.Users.Accounts.{AccountRow, ApiTokenRow, is_active}
use moddery.Users.Admin.{Deps, State, find_account, is_live}
use moddery.Auth.Bearer.{
  TokenPayload, is_token_of, is_unexpired, active_account, token_user, verify_session_access_token,
  verify_personal_access_token, verify_bearer_token,
}
use moddery.Auth.Tokens.{
  CreateTokenInput, CreatedToken, TokenEvent, api_token_created, token_prefix, expires_at_from_days,
  normalize_credential_scopes, create_viewer_token, is_own_token, with_revocation,
  revoke_viewer_token,
}

module _ (d : Deps) (verify_jwt : Text → Option TokenPayload) (hash_token : Text → Text) where
  open d use {users, tokens}

  -- No row that the table holds has the hash of the token.
  abbrev pub IsFresh : Text → State d → Type 0
  IsFresh token s =
      (r : ApiTokenRow) → tokens.Holds s.tokens r → teq r.token_hash (hash_token token) ≡ false

  -- What a creation adds: one live row of the user, with the hash of the token.
  abbrev pub IsAdded : ℕ → ℕ → Text → State d → State d → CreatedToken → Type 0
  IsAdded id user_id secret s t reply =
      (t ≡ record s { tokens = tokens.create reply.summary s.tokens })
      × (reply.token ≡ token_prefix ++ (text "_" ++ secret))
      × (reply.summary.token_hash ≡ hash_token reply.token)
      × (reply.summary.id ≡ id)
      × (reply.summary.user_id ≡ user_id)
      × (reply.summary.revoked_at ≡ none)

  pub create_viewer_token-eq-ok :
      (set_date : ℕ → ℕ → ℕ) (unsupported : Text → HttpError) (now id : ℕ) (secret : Text)
      (input : CreateTokenInput) (user_id : ℕ) (s t : State d) (reply : CreatedToken)
      → create_viewer_token d hash_token set_date unsupported now id secret input user_id s
        ≡ ok (t, reply)
      → IsAdded id user_id secret s t reply
        × (normalize_credential_scopes unsupported input.scopes ≡ ok reply.summary.scopes)
        × (expires_at_from_days set_date now input.expires_in_days ≡ ok reply.summary.expires_at)
  unfolding create_viewer_token
  create_viewer_token-eq-ok set_date unsupported now id secret input user_id s t reply h =
      let (u, named, h₁) =
        >>=-eq-ok (throw_if (is_empty (trim input.name)) (bad_request "Token name is required")) _
          h in
      let (at, dated, h₂) =
        >>=-eq-ok (expires_at_from_days set_date now input.expires_in_days) _ h₁ in
      let (scopes, granted, h₃) =
        >>=-eq-ok (normalize_credential_scopes unsupported input.scopes) _ h₂ in
      let row : ApiTokenRow = record {
        id = id;
        user_id = user_id;
        name = trim input.name;
        token_hash = hash_token (token_prefix ++ (text "_" ++ secret));
        scopes = scopes;
        expires_at = at;
        revoked_at = none;
      } in
      let made : CreatedToken = record {
        token = token_prefix ++ (text "_" ++ secret);
        summary = row;
        event = api_token_created user_id at scopes id (trim input.name);
      } in
      let e : reply ≡ made = ok-second h₃ in
      let e₁ : t ≡ record s { tokens = tokens.create row s.tokens } = ok-first h₃ in
      subst
        (λ (x : CreatedToken).
          IsAdded id user_id secret s t x
          × (normalize_credential_scopes unsupported input.scopes ≡ ok x.summary.scopes)
          × (expires_at_from_days set_date now input.expires_in_days ≡ ok x.summary.expires_at))
        (sym e) ((e₁, refl, refl, refl, refl, refl), granted, dated)

  pub hash_of_found :
      (later : ℕ) (token : Text) (r : ApiTokenRow)
      → is_token_of d verify_jwt hash_token later token r ≡ true
      → teq r.token_hash (hash_token token) ≡ true
  hash_of_found later token r f = ground arith

  pub live_of_found :
      (later : ℕ) (token : Text) (r : ApiTokenRow)
      → is_token_of d verify_jwt hash_token later token r ≡ true
      → is_live r.revoked_at ≡ true
  live_of_found later token r f = ground arith

  -- Behind the new token stands the new row, and no other.
  pub only_added :
      (id user_id : ℕ) (secret : Text) (s t : State d) (reply : CreatedToken)
      → IsAdded id user_id secret s t reply
      → IsFresh reply.token s
      → (r : ApiTokenRow) → tokens.Holds t.tokens r
      → teq r.token_hash (hash_token reply.token) ≡ true
      → r ≡ reply.summary
  only_added id user_id secret s t reply (added, e₁, e₂, e₃, e₄, e₅) fresh r held same =
      let new_held : tokens.Holds (tokens.create reply.summary s.tokens) r =
        subst (λ (x : State d). tokens.Holds x.tokens r) added held in
      elim ((tokens.holds_create reply.summary s.tokens r).0 new_held) [
        | inl e ↦ e
        | inr old ↦ cc (fresh r old, same)
      ]

  active_of_found :
      (user_id : ℕ) (s : State d) (account : AccountRow)
      → find_account d user_id s.users ≡ some account
      → is_active account.status ≡ true
      → active_account d verify_jwt hash_token user_id s ≡ some account
  active_of_found user_id s account found on = rw (found, active_account) (rw on refl)

  no_session_of_no_jwt :
      (later : ℕ) (token : Text) (s : State d)
      → verify_jwt token ≡ none
      → verify_session_access_token d verify_jwt hash_token later token s ≡ none
  unfolding verify_session_access_token
  no_session_of_no_jwt later token s h = rw (h, verify_session_access_token) refl

  -- The bearer of a token that is no JSON web token is told by the row that is found.
  bearer_of_row :
      (later : ℕ) (token : Text) (s : State d) (r : ApiTokenRow) (account : AccountRow)
      → verify_jwt token ≡ none
      → tokens.find_first (is_token_of d verify_jwt hash_token later token) s.tokens ≡ some r
      → active_account d verify_jwt hash_token r.user_id s ≡ some account
      → verify_bearer_token d verify_jwt hash_token later token s
        ≡ ok (token_user d verify_jwt hash_token r account)
  unfolding verify_bearer_token verify_personal_access_token
  bearer_of_row later token s r account no_jwt first joined =
      rw (no_session_of_no_jwt later token s no_jwt, verify_bearer_token)
        (rw (first, verify_personal_access_token) (rw (joined, or_throw) refl))

  pub bearer_of_no_row :
      (later : ℕ) (token : Text) (s : State d)
      → verify_jwt token ≡ none
      → tokens.find_first (is_token_of d verify_jwt hash_token later token) s.tokens ≡ none
      → verify_bearer_token d verify_jwt hash_token later token s
        ≡ err (unauthorized "Invalid bearer token")
  unfolding verify_bearer_token verify_personal_access_token
  bearer_of_no_row later token s no_jwt miss =
      rw (no_session_of_no_jwt later token s no_jwt, verify_bearer_token)
        (rw (miss, verify_personal_access_token) refl)

  -- A new token is taken at once and until it expires, as the user that made it and with the scopes
  -- that its row was given, while the account is active: no other row has its hash, and it is no JSON
  -- web token.
  pub created_is_taken :
      (set_date : ℕ → ℕ → ℕ) (unsupported : Text → HttpError) (now id later : ℕ) (secret : Text)
      (input : CreateTokenInput) (user_id : ℕ) (s t : State d) (reply : CreatedToken)
      (account : AccountRow)
      → create_viewer_token d hash_token set_date unsupported now id secret input user_id s
        ≡ ok (t, reply)
      → IsFresh reply.token s
      → verify_jwt reply.token ≡ none
      → find_account d user_id s.users ≡ some account
      → is_active account.status ≡ true
      → is_unexpired d verify_jwt hash_token later reply.summary.expires_at ≡ true
      → verify_bearer_token d verify_jwt hash_token later reply.token t
        ≡ ok (token_user d verify_jwt hash_token reply.summary account)
  created_is_taken set_date unsupported now id later secret input user_id s t reply account h fresh
        no_jwt found on alive =
      let (is_added, granted, dated) =
        create_viewer_token-eq-ok set_date unsupported now id secret input user_id s t reply h in
      let (added, e₁, e₂, e₃, e₄, e₅) = is_added in
      let mine = is_token_of d verify_jwt hash_token later reply.token in
      let held : tokens.Holds t.tokens reply.summary =
        subst (λ (x : State d). tokens.Holds x.tokens reply.summary) (sym added)
          ((tokens.holds_create reply.summary s.tokens reply.summary).1 (inl refl)) in
      let hashed : teq reply.summary.token_hash (hash_token reply.token) ≡ true =
        rw e₂ (teq_refl (hash_token reply.token)) in
      let fits : mine reply.summary ≡ true = rw (hashed, e₅, alive) refl in
      elim (Option-cases (tokens.find_first mine t.tokens)) [
        | inl miss ↦ cc (tokens.find_complete mine t.tokens miss reply.summary held, fits)
        | inr (r, first) ↦
            let (k, f) = tokens.find_sound mine t.tokens first in
            let same = hash_of_found later reply.token r f in
            let e = only_added id user_id secret s t reply is_added fresh r k same in
            let first_row : tokens.find_first mine t.tokens ≡ some reply.summary =
              first ∙ ap some e in
            let same_users : find_account d reply.summary.user_id t.users ≡ some account =
              ap (λ (i : ℕ). find_account d i t.users) e₄
              ∙ ap (λ (x : State d). find_account d user_id x.users) added
              ∙ found in
            bearer_of_row later reply.token t reply.summary account no_jwt first_row
              (active_of_found reply.summary.user_id t account same_users on)
      ]

  pub revoke-tokens :
      (now token_id user_id : ℕ) (s t : State d) (row : ApiTokenRow) (event : TokenEvent)
      → revoke_viewer_token d now token_id user_id s ≡ ok (t, row, event)
      → t ≡ record s {
        tokens = tokens.update (is_own_token token_id user_id) (with_revocation now) s.tokens;
      }
  unfolding revoke_viewer_token
  revoke-tokens now token_id user_id s t row event h =
      let mine = is_own_token token_id user_id in
      let after = tokens.update mine (with_revocation now) s.tokens in
      let (e, found, h₁) =
        >>=-eq-ok (throw_if (tokens.count mine s.tokens == 0) (not_found "Token not found")) _ h in
      let (r, read, h₂) =
        >>=-eq-ok
          (or_throw (tokens.find_first (λ r. r.id == token_id) after) (internal_error "Not found"))
          _ h₁ in
      ok-first_of_three h₂
