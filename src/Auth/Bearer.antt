-- ===== src/Auth/Bearer.antt =====
-- Who a bearer token stands for, and what a personal access token may do:
-- apps/api/src/auth/services/auth-token.service.ts and apps/api/src/auth/guards/jwt-auth.guard.ts.
pub mod Revocation
pub mod Tests
use moddery.Base.{
  ℕ, ◌≡◌, List, [], ◌∷◌, Option, none, some, Text, text, teq, String, ◌==◌, ltb, ◌&&◌, ◌||◌, Bool,
  true, false, not, Result, ok, err, HttpError, unauthorized, forbidden, ◌>>=◌, ◌>>◌, or_throw,
  throw_if, if◌then◌else◌, includes,
}
use moddery.Users.Accounts.{AccountRow, AccountRole, SessionRow, ApiTokenRow, is_active}
use moddery.Users.Admin.{Deps, State, find_account, is_live}

pub data AuthMethod : Type 0 where
  api_token session : AuthMethod

pub record AuthenticatedUser : Type 0 where
  pub auth_method : AuthMethod
  pub credential_scopes : Option (List Text)
  pub id : ℕ
  pub role : AccountRole
  pub session_id : Option ℕ
  pub username : Text

-- The `sessionId` of a JSON web token that verifies.
pub record TokenPayload : Type 0 where
  pub session_id : Option ℕ

module _ (d : Deps) (verify_jwt : Text → Option TokenPayload) (hash_token : Text → Text) where
  -- The `where` clause of a session.
  abbrev pub is_session_of : ℕ → ℕ → Text → SessionRow → Bool
  is_session_of now session_id token r =
      ltb now r.expires_at
      && r.id == session_id
      && is_live r.revoked_at
      && teq r.token_hash (hash_token token)

  abbrev pub is_unexpired : ℕ → Option ℕ → Bool
  is_unexpired now none = true
  is_unexpired now (some at) = ltb now at

  abbrev pub is_token_of : ℕ → Text → ApiTokenRow → Bool
  is_token_of now token r =
      teq r.token_hash (hash_token token) && is_live r.revoked_at && is_unexpired now r.expires_at

  -- The account that a relation joins, where its status is `ACTIVE`.
  abbrev pub active_account : ℕ → State d → Option AccountRow
  active_account user_id s = elim (find_account d user_id s.users) [
    | none ↦ none
    | some user ↦ if is_active user.status then some user else none
  ]

  abbrev pub session_user : SessionRow → AccountRow → AuthenticatedUser
  session_user r user = record {
    auth_method = session;
    credential_scopes = none;
    id = user.id;
    role = user.role;
    session_id = some r.id;
    username = user.username;
  }

  -- Whatever is thrown becomes `null`.
  unfoldable pub verify_session_access_token : ℕ → Text → State d → Option AuthenticatedUser
  verify_session_access_token now token s = elim (verify_jwt token) [
    | none ↦ none
    | some payload ↦ elim payload.session_id [
      | none ↦ none
      | some id ↦ elim (d.sessions.find_first (is_session_of now id token) s.sessions) [
        | none ↦ none
        | some r ↦ elim (active_account r.user_id s) [
          | none ↦ none
          | some user ↦ some (session_user r user)
        ]
      ]
    ]
  ]

  abbrev pub token_user : ApiTokenRow → AccountRow → AuthenticatedUser
  token_user r user = record {
    auth_method = api_token;
    credential_scopes = some r.scopes;
    id = user.id;
    role = user.role;
    session_id = none;
    username = user.username;
  }

  unfoldable pub verify_personal_access_token : ℕ → Text → State d → Result AuthenticatedUser
  verify_personal_access_token now token s = do
    r ←
        or_throw (d.tokens.find_first (is_token_of now token) s.tokens)
          (unauthorized "Invalid bearer token")
    user ← or_throw (active_account r.user_id s) (unauthorized "Invalid bearer token")
    ok (token_user r user)

  unfoldable pub verify_bearer_token : ℕ → Text → State d → Result AuthenticatedUser
  unfolding verify_session_access_token verify_personal_access_token
  verify_bearer_token now token s = elim (verify_session_access_token now token s) [
    | some user ↦ ok user
    | none ↦ verify_personal_access_token now token s
  ]

-- The loop over the required scopes; `missing` is the message of a scope that was not granted.
unfoldable pub require_scopes : (Text → HttpError) → List Text → List Text → Result (Unit {0})
unfolding includes
require_scopes missing granted [] = ok tt
require_scopes missing granted (scope ∷ required) =
    if includes granted scope then require_scopes missing granted required else err (missing scope)

-- `user.credentialScopes ?? []`, and `undefined` required scopes as none.
abbrev pub scopes_or : Option (List Text) → List Text
scopes_or none = []
scopes_or (some scopes) = scopes

unfoldable pub assert_credential_scopes :
    (Text → HttpError) → AuthenticatedUser → Option (List Text) → Result (Unit {0})
unfolding require_scopes
assert_credential_scopes missing user required = elim user.auth_method [
  | session ↦ ok tt
  | api_token ↦ elim (scopes_or required) [
    | [] ↦ err (forbidden "Personal access token is not allowed for this operation")
    | scope ∷ rest ↦ require_scopes missing (scopes_or user.credential_scopes) (scope ∷ rest)
  ]
]
