-- ===== src/Auth/Bearer/Tests.antt =====
-- The tokens of an account that is suspended, in tables kept in memory. A token hashes to itself,
-- and the JSON web token "jwt" names the session 1.
use moddery.Base.{
  ◌≡◌, ◌≢◌, refl, Option, none, some, [], ◌∷◌, ok, err, text, teq, trim, upper_unit, Text,
  if◌then◌else◌, HttpError, forbidden, unauthorized,
}
use moddery.Database.Memory.{memory}
use moddery.Users.Accounts.{active, suspended, user, admin, AccountRow, SessionRow, ApiTokenRow}
use moddery.Users.Admin.{
  Deps, State, UpdateUserAccountInput, account_status, update_user_account, account_updated,
  credentials_revoked, revoked_session,
}
use moddery.Auth.Bearer.{AuthenticatedUser, api_token, session, TokenPayload, verify_bearer_token}
use moddery.Auth.Bearer.Revocation.{restricted_is_refused}

abbrev ann : AccountRow
ann = record {
  id = 1;
  username = text "ann";
  display_name = none;
  email = text "a@x";
  role = admin;
  status = active;
}

abbrev bob : AccountRow
bob = record ann { id = 2; username = text "bob"; role = user }

abbrev bob_session : SessionRow
bob_session = record {
  id = 1;
  user_id = 2;
  token_hash = text "jwt";
  expires_at = 90;
  revoked_at = none;
}

abbrev ann_token : ApiTokenRow
ann_token = record {
  id = 1;
  user_id = 1;
  name = text "ci";
  token_hash = text "pat";
  scopes = text "read:projects" ∷ [];
  expires_at = none;
  revoked_at = none;
}

abbrev deps : Deps
deps = record {
  users = memory AccountRow;
  sessions = memory SessionRow;
  tokens = memory ApiTokenRow;
}

abbrev before : State deps
before = record {
  users = ann ∷ bob ∷ [];
  sessions = bob_session ∷ [];
  tokens = ann_token ∷ [];
  events = [];
}

abbrev input : UpdateUserAccountInput
input = record { user_id = 2; role = none; status = some (text "SUSPENDED") }

abbrev suspended_bob : AccountRow
suspended_bob = record bob { status = suspended }

abbrev after : State deps
after = record {
  users = ann ∷ suspended_bob ∷ [];
  sessions = revoked_session 7 bob_session ∷ [];
  tokens = ann_token ∷ [];
  events = account_updated 1 2 user user active suspended ∷ credentials_revoked 1 2 1 0 ∷ [];
}

abbrev verify_jwt : Text → Option TokenPayload
verify_jwt token = if teq token (text "jwt") then some (record { session_id = some 1 }) else none

abbrev same : Text → Text
same token = token

abbrev bob_user : AuthenticatedUser
bob_user = record {
  auth_method = session;
  credential_scopes = none;
  id = 2;
  role = user;
  session_id = some 1;
  username = text "bob";
}

abbrev ann_user : AuthenticatedUser
ann_user = record {
  auth_method = api_token;
  credential_scopes = some (text "read:projects" ∷ []);
  id = 1;
  role = admin;
  session_id = none;
  username = text "ann";
}

bearer_test :
    (verify_bearer_token deps verify_jwt same 8 (text "jwt") before ≡ ok bob_user)
    × (verify_bearer_token deps verify_jwt same 8 (text "jwt") after
        ≡ err (unauthorized "Invalid bearer token"))
    × (verify_bearer_token deps verify_jwt same 95 (text "jwt") before
        ≡ err (unauthorized "Invalid bearer token"))
unfolding verify_bearer_token teq
bearer_test = (refl, refl, refl)

suspended_ok : update_user_account deps 7 input 1 before ≡ ok (after, suspended_bob)
unfolding update_user_account teq trim upper_unit
suspended_ok = refl

parsed : account_status (some (text "SUSPENDED")) ≡ ok (some suspended)
unfolding account_status teq trim upper_unit
parsed = refl

taken : verify_bearer_token deps verify_jwt same 8 (text "pat") after ≡ ok ann_user
unfolding verify_bearer_token teq
taken = refl

restricted_is_refused_example : ann_user.id ≢ input.user_id
restricted_is_refused_example =
    restricted_is_refused deps verify_jwt same 7 8 input 1 before after suspended_bob suspended
      (text "pat") ann_user suspended_ok parsed (λ e. cc) taken

abbrev missing : Text → HttpError
missing scope = forbidden "Personal access token lacks a scope"
