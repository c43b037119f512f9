-- ===== src/Auth/Tokens.antt =====
-- The personal access tokens of a user: createViewerToken and revokeViewerToken of
-- apps/api/src/auth/services/api-tokens.service.ts, with
-- apps/api/src/auth/services/credential-scopes.ts.
pub mod Scopes
pub mod Lifetime
pub mod Revocation
pub mod Tests
use moddery.Base.{
  ℕ, List, [], ◌∷◌, ◌++◌, Option, none, some, Text, text, teq, trim, is_empty, ltb, leb, ◌==◌, ◌&&◌,
  ◌||◌, Bool, true, false, not, if◌then◌else◌, unique, includes, keep_if, map, Number, whole,
  between, not_finite, pos, negsuc, Result, ok, err, HttpError, bad_request, not_found,
  internal_error, ◌>>=◌, ◌>>◌, or_throw, throw_if, String,
}
use moddery.Users.Accounts.{ApiTokenRow}
use moddery.Users.Admin.{Deps, State, revoke_credentials}

abbrev pub default_credential_scopes : List Text
default_credential_scopes = text "read:projects" ∷ []

abbrev pub allowed_credential_scopes : List Text
allowed_credential_scopes = text "read:projects" ∷ text "write:projects" ∷ []

-- The order of strings by their code units, in which `sort` puts them.
unfoldable pub text_leb : Text → Text → Bool
text_leb [] t = true
text_leb (a ∷ s) [] = false
text_leb (a ∷ s) (b ∷ t) = ltb a b || (a == b && text_leb s t)

unfoldable pub insert : Text → List Text → List Text
unfolding text_leb
insert s [] = s ∷ []
insert s (t ∷ ts) = let rest = insert s ts in if text_leb s t then s ∷ t ∷ ts else t ∷ rest

unfoldable pub sort : List Text → List Text
unfolding insert
sort [] = []
sort (s ∷ ts) = insert s (sort ts)

-- `scopes ?? defaultCredentialScopes`.
abbrev pub requested_or_default : Option (List Text) → List Text
requested_or_default none = default_credential_scopes
requested_or_default (some scopes) = scopes

unfoldable pub normalized_scopes : Option (List Text) → List Text
unfolding sort
normalized_scopes scopes =
    sort (keep_if (λ s. not (is_empty s)) (map trim (unique (requested_or_default scopes))))

-- The loop over the normalized scopes; `unsupported` is the error of a scope that there is not.
unfoldable pub check_scopes : (Text → HttpError) → List Text → Result (List Text)
unfolding includes
check_scopes unsupported [] = ok []
check_scopes unsupported (scope ∷ scopes) = do
  allowed ← throw_if (not (includes allowed_credential_scopes scope)) (unsupported scope)
  rest ← check_scopes unsupported scopes
  ok (scope ∷ rest)

-- `if (normalized.length === 0) return [...defaultCredentialScopes]`.
unfoldable pub scopes_or_default : (Text → HttpError) → List Text → Result (List Text)
unfolding check_scopes
scopes_or_default unsupported [] = ok default_credential_scopes
scopes_or_default unsupported (scope ∷ scopes) = check_scopes unsupported (scope ∷ scopes)

unfoldable pub normalize_credential_scopes :
    (Text → HttpError) → Option (List Text) → Result (List Text)
unfolding normalized_scopes scopes_or_default
normalize_credential_scopes unsupported scopes =
    scopes_or_default unsupported (normalized_scopes scopes)

-- `!Number.isInteger(days) || days <= 0 || days > 3660`.
abbrev pub days_in_range : Number → Option ℕ
days_in_range (whole (pos days)) = if leb 1 days && leb days 3660 then some days else none
days_in_range (whole (negsuc n)) = none
days_in_range (between below) = none
days_in_range not_finite = none

pub record CreateTokenInput : Type 0 where
  pub expires_in_days : Option Number
  pub name : Text
  pub scopes : Option (List Text)

pub data TokenEvent : Type 0 where
  api_token_created :
      (actor_id : ℕ) (expires_at : Option ℕ) (scopes : List Text) (token_id : ℕ) (name : Text)
      → TokenEvent
  api_token_revoked : (actor_id token_id : ℕ) (name : Text) → TokenEvent

pub record CreatedToken : Type 0 where
  pub token : Text
  pub summary : ApiTokenRow
  pub event : TokenEvent

abbrev pub token_prefix : Text
token_prefix = text "mdy_pat"

-- `set_date now days` is the time `days` days after `now` in the calendar of the server.
unfoldable pub expires_at_from_days : (ℕ → ℕ → ℕ) → ℕ → Option Number → Result (Option ℕ)
expires_at_from_days set_date now none = ok none
expires_at_from_days set_date now (some days) = do
  n ← or_throw (days_in_range days) (bad_request "Token expiry must be between 1 and 3660 days")
  ok (some (set_date now n))

module _ (d : Deps) (hash_token : Text → Text) (set_date : ℕ → ℕ → ℕ)
    (unsupported : Text → HttpError) where
  -- `secret` is the text of the random bytes, `id` the identifier that the database gives the row.
  unfoldable pub create_viewer_token :
      ℕ → ℕ → Text → CreateTokenInput → ℕ → State d → Result (State d × CreatedToken)
  unfolding expires_at_from_days normalize_credential_scopes
  create_viewer_token now id secret input user_id s = do
    let name = trim input.name
    named ← throw_if (is_empty name) (bad_request "Token name is required")
    let token = token_prefix ++ (text "_" ++ secret)
    expires_at ← expires_at_from_days set_date now input.expires_in_days
    scopes ← normalize_credential_scopes unsupported input.scopes
    let row : ApiTokenRow = record {
      id = id;
      user_id = user_id;
      name = name;
      token_hash = hash_token token;
      scopes = scopes;
      expires_at = expires_at;
      revoked_at = none;
    }
    ok (
      record s { tokens = d.tokens.create row s.tokens },
      record {
        token = token;
        summary = row;
        event = api_token_created user_id expires_at scopes id name;
      },
    )

abbrev pub is_own_token : ℕ → ℕ → ApiTokenRow → Bool
is_own_token token_id user_id r = r.id == token_id && r.user_id == user_id

abbrev pub with_revocation : ℕ → ApiTokenRow → ApiTokenRow
with_revocation now r = record r { revoked_at = some now }

unfoldable pub revoke_viewer_token :
    (d : Deps) → ℕ → ℕ → ℕ → State d → Result (State d × ApiTokenRow × TokenEvent)
revoke_viewer_token d now token_id user_id s = do
  let mine = is_own_token token_id user_id
  found ← throw_if (d.tokens.count mine s.tokens == 0) (not_found "Token not found")
  let tokens = d.tokens.update mine (with_revocation now) s.tokens
  row ← or_throw (d.tokens.find_first (λ r. r.id == token_id) tokens) (internal_error "Not found")
  ok (record s { tokens = tokens }, row, api_token_revoked user_id row.id row.name)

-- The requests that write API tokens, each with the times and the random values that it is served with.
-- `ends_credentials` is what a suspension and a reset of the password do to the user's tokens.
pub data TokenRequest : Type 0 where
  creates : (now id : ℕ) (secret : Text) (input : CreateTokenInput) (user_id : ℕ) → TokenRequest
  revokes : (now token_id user_id : ℕ) → TokenRequest
  ends_credentials : (user_id now : ℕ) → TokenRequest

module _ (d : Deps) (hash_token : Text → Text) (set_date : ℕ → ℕ → ℕ)
    (unsupported : Text → HttpError) where
  unfoldable pub token_step : TokenRequest → State d → State d
  token_step (creates now id secret input user_id) s =
      elim (create_viewer_token d hash_token set_date unsupported now id secret input user_id s) [
        | ok (t, reply) ↦ t
        | err error ↦ s
      ]
  token_step (revokes now token_id user_id) s =
      elim (revoke_viewer_token d now token_id user_id s) [ ok (t, row, event) ↦ t | err error ↦ s ]
  token_step (ends_credentials user_id now) s = revoke_credentials d user_id now s

  unfoldable pub token_run : List TokenRequest → State d → State d
  unfolding token_step
  token_run [] s = s
  token_run (request ∷ requests) s = token_run requests (token_step request s)
