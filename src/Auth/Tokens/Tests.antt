-- ===== src/Auth/Tokens/Tests.antt =====
-- A personal access token that ann makes, uses and revokes, in tables kept in memory. A token hashes to
-- itself, there are no JSON web tokens, and a day is one unit of time.
use moddery.Base.{
  ℕ, ◌+◌, ◌≡◌, ◌≢◌, refl, Option, none, some, List, [], ◌∷◌, ok, err, text, teq, trim, trim_start,
  is_space, Text, Among, HttpError, bad_request, unauthorized, not_found, whole, pos, unique,
  includes,
}
use moddery.Database.Memory.{memory}
use moddery.Users.Accounts.{active, user, AccountRow, SessionRow, ApiTokenRow}
use moddery.Users.Admin.{Deps, State}
use moddery.Auth.Bearer.{AuthenticatedUser, TokenPayload, verify_bearer_token, token_user}
use moddery.Auth.Tokens.{
  CreateTokenInput, CreatedToken, api_token_created, api_token_revoked, allowed_credential_scopes,
  normalize_credential_scopes, create_viewer_token, revoke_viewer_token, expires_at_from_days,
  scopes_or_default, normalized_scopes, check_scopes, sort, insert, text_leb, creates, revokes,
  ends_credentials, TokenRequest, token_run, token_step,
}
use moddery.Auth.Tokens.Scopes.{AreAskedFor, normalize_credential_scopes_sound}
use moddery.Auth.Tokens.Lifetime.{IsFresh, created_is_taken}
use moddery.Auth.Tokens.Revocation.{revoked_is_refused}

abbrev ann : AccountRow
ann = record {
  id = 1;
  username = text "ann";
  display_name = none;
  email = text "a@x";
  role = user;
  status = active;
}

abbrev deps : Deps
deps = record {
  users = memory AccountRow;
  sessions = memory SessionRow;
  tokens = memory ApiTokenRow;
}

abbrev before : State deps
before = record { users = ann ∷ []; sessions = []; tokens = []; events = [] }

abbrev no_jwt : Text → Option TokenPayload
no_jwt token = none

abbrev same : Text → Text
same token = token

abbrev unsupported : Text → HttpError
unsupported scope = bad_request "Unsupported credential scope"

abbrev asked : Option (List Text)
asked = some (text "write:projects" ∷ text " read:projects" ∷ [])

abbrev input : CreateTokenInput
input = record { expires_in_days = some (whole (pos 30)); name = text " ci "; scopes = asked }

abbrev granted : List Text
granted = text "read:projects" ∷ text "write:projects" ∷ []

abbrev made : CreatedToken
made = record {
  token = text "mdy_pat_xyz";
  summary = record {
    id = 5;
    user_id = 1;
    name = text "ci";
    token_hash = text "mdy_pat_xyz";
    scopes = granted;
    expires_at = some 37;
    revoked_at = none;
  };
  event = api_token_created 1 (some 37) granted 5 (text "ci");
}

abbrev after : State deps
after = record before { tokens = made.summary ∷ [] }

normalized_ok : normalize_credential_scopes unsupported asked ≡ ok granted
unfolding normalize_credential_scopes scopes_or_default normalized_scopes check_scopes sort insert
    text_leb unique includes trim trim_start is_space teq
normalized_ok = refl

-- Two texts that read the same without their white space are two scopes.
duplicate_scope :
    normalize_credential_scopes unsupported
      (some (text "read:projects" ∷ text "read:projects " ∷ []))
    ≡ ok (text "read:projects" ∷ text "read:projects" ∷ [])
unfolding normalize_credential_scopes scopes_or_default normalized_scopes check_scopes sort insert
    text_leb unique includes trim trim_start is_space teq
duplicate_scope = refl

normalize_credential_scopes_sound_example :
    (granted ≢ [])
    × ((a : Text) → Among a granted → Among a allowed_credential_scopes)
    × AreAskedFor asked granted
normalize_credential_scopes_sound_example =
    normalize_credential_scopes_sound unsupported asked granted normalized_ok

created :
    create_viewer_token deps same
      (λ now days. now + days)
      unsupported
      7
      5
      (text "xyz")
      input
      1
      before
    ≡ ok (after, made)
unfolding create_viewer_token expires_at_from_days normalize_credential_scopes scopes_or_default
    normalized_scopes check_scopes sort insert text_leb unique includes trim trim_start is_space teq
created = refl

fresh : IsFresh deps no_jwt same (text "mdy_pat_xyz") before
fresh r m = absurd m

abbrev ann_user : AuthenticatedUser
ann_user = token_user deps no_jwt same (made.summary) ann

created_is_taken_example :
    verify_bearer_token deps no_jwt same 36 (text "mdy_pat_xyz") after ≡ ok ann_user
created_is_taken_example =
    created_is_taken deps no_jwt same (λ now days. now + days) unsupported 7 5 36 (text "xyz") input
      1 before after made ann created fresh refl refl refl refl

abbrev revoked : State deps
revoked = record after { tokens = record made.summary { revoked_at = some 9 } ∷ [] }

revoked_ok :
    revoke_viewer_token deps 9 5 1 after
    ≡ ok (revoked, record made.summary { revoked_at = some 9 }, api_token_revoked 1 5 (text "ci"))
unfolding revoke_viewer_token
revoked_ok = refl

foreign_token : revoke_viewer_token deps 9 5 2 after ≡ err (not_found "Token not found")
unfolding revoke_viewer_token
foreign_token = refl

-- Another token is created before the revocation and after it, and one more revocation fails.
abbrev other_requests : List TokenRequest
other_requests = creates 8 6 (text "abc") input 1 ∷ revokes 8 9 1 ∷ []

abbrev now_and_days : ℕ → ℕ → ℕ
now_and_days now days = now + days

abbrev other_made : ApiTokenRow
other_made = record made.summary { id = 6; token_hash = text "mdy_pat_abc"; expires_at = some 38 }

abbrev with_other : State deps
with_other = record after { tokens = other_made ∷ record made.summary { revoked_at = some 9 } ∷ [] }

others_made :
    token_run deps same now_and_days unsupported other_requests after
    ≡ record after { tokens = other_made ∷ made.summary ∷ [] }
unfolding token_run token_step create_viewer_token revoke_viewer_token expires_at_from_days
    normalize_credential_scopes scopes_or_default normalized_scopes check_scopes sort insert
    text_leb unique includes trim trim_start is_space teq
others_made = refl

revoked_later :
    revoke_viewer_token deps 9 5 1
      (token_run deps same now_and_days unsupported other_requests after)
    ≡ ok
        (with_other, record made.summary { revoked_at = some 9 }, api_token_revoked 1 5 (text "ci"))
unfolding revoke_viewer_token
revoked_later = rw others_made refl

revoked_is_refused_example :
    verify_bearer_token deps no_jwt same 10 (text "mdy_pat_xyz") (
      token_run deps same now_and_days unsupported
        (ends_credentials 1 11 ∷ other_requests)
        with_other)
    ≡ err (unauthorized "Invalid bearer token")
unfolding teq
revoked_is_refused_example =
    revoked_is_refused deps no_jwt same now_and_days unsupported 7 5 (text "xyz") input 1 9 10
      other_requests (ends_credentials 1 11 ∷ other_requests) before after with_other made
      (record made.summary { revoked_at = some 9 }) (api_token_revoked 1 5 (text "ci")) created
      fresh refl (refl, (tt, tt)) revoked_later (tt, (refl, (tt, tt)))
