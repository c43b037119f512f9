-- ===== src/Users/Admin/Tests.antt =====
-- An administrator and an account with a session and a token, in tables kept in memory.
use moddery.Base.{
  ℕ, ◌≡◌, ◌≢◌, refl, inl, none, some, [], ◌∷◌, ok, err, text, teq, trim, upper_unit, Among,
  forbidden,
}
use moddery.Database.Memory.{memory}
use moddery.Users.Accounts.{active, suspended, user, admin, AccountRow, SessionRow, ApiTokenRow}
use moddery.Users.Admin.{
  Deps, State, UpdateUserAccountInput, account_updated, credentials_revoked, account_status,
  revoked_session, update_user_account, admin_user_where,
}
use moddery.Users.Admin.Restrictions.{restriction_revokes, admins_remain}

abbrev ann : AccountRow
ann = record {
  id = 1;
  username = text "ann";
  display_name = none;
  email = text "a@x";
  role = admin;
  status = active;
}

abbrev bob : AccountRow
bob = record ann { id = 2; username = text "bob"; role = user }

abbrev session : SessionRow
session = record { id = 1; user_id = 2; token_hash = text "h"; expires_at = 90; revoked_at = none }

abbrev token : ApiTokenRow
token = record {
  id = 1;
  user_id = 2;
  name = text "ci";
  token_hash = text "k";
  scopes = [];
  expires_at = none;
  revoked_at = some 3;
}

abbrev deps : Deps
deps = record {
  users = memory AccountRow;
  sessions = memory SessionRow;
  tokens = memory ApiTokenRow;
}

abbrev before : State deps
before = record {
  users = ann ∷ bob ∷ [];
  sessions = session ∷ [];
  tokens = token ∷ [];
  events = [];
}

abbrev input : ℕ → UpdateUserAccountInput
input user_id = record { user_id = user_id; role = none; status = some (text "suspended ") }

abbrev suspended_bob : AccountRow
suspended_bob = record bob { status = suspended }

abbrev after : State deps
after = record {
  users = ann ∷ suspended_bob ∷ [];
  sessions = revoked_session 7 session ∷ [];
  tokens = token ∷ [];
  events = account_updated 1 2 user user active suspended ∷ credentials_revoked 1 2 1 0 ∷ [];
}

suspended_ok : update_user_account deps 7 (input 2) 1 before ≡ ok (after, suspended_bob)
unfolding update_user_account teq trim upper_unit
suspended_ok = refl

own_account_test :
    update_user_account deps 7 (input 1) 1 before
    ≡ err (forbidden "Admins cannot restrict their own account")
unfolding update_user_account teq trim upper_unit
own_account_test = refl

search_test :
    admin_user_where teq (some (text " moderator")) bob ≡ admin_user_where teq (some (text "x")) bob
unfolding admin_user_where teq trim upper_unit
search_test = refl

parsed : account_status (some (text "suspended ")) ≡ ok (some suspended)
unfolding account_status teq trim upper_unit
parsed = refl

restriction_revokes_example :
    ((r : SessionRow)
      → Among r (revoked_session 7 session ∷ [])
      → r.user_id ≡ 2
      → r.revoked_at ≢ none)
    × ((r : ApiTokenRow) → Among r (token ∷ []) → r.user_id ≡ 2 → r.revoked_at ≢ none)
restriction_revokes_example =
    restriction_revokes deps 7 (input 2) 1 before after suspended_bob suspended suspended_ok parsed
      (λ e. cc)

admins_remain_example : Among ann (ann ∷ suspended_bob ∷ [])
admins_remain_example =
    admins_remain deps 7 (input 2) ann before after suspended_bob (inl refl) refl refl suspended_ok
