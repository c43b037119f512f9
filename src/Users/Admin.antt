-- ===== src/Users/Admin.antt =====
-- How an administrator changes the role and the status of an account:
-- apps/api/src/users/services/user-admin.service.ts.
pub mod Restrictions
pub mod Tests
use moddery.Base.{
  ℕ, ◌≡◌, List, [], ◌∷◌, ◌++◌, Option, none, some, Text, text, teq, trim, to_upper, is_empty, ◌==◌,
  ◌&&◌, ◌||◌, Bool, true, false, not, if◌then◌else◌, Result, ok, err, HttpError, not_found,
  forbidden, ◌>>=◌, ◌>>◌, or_throw, throw_if,
}
use moddery.Database.{Table}
use moddery.Users.Accounts.{
  AccountStatus, active, suspended, deleted, AccountRole, user, moderator, admin, AccountRow,
  SessionRow, ApiTokenRow, is_active, is_admin,
}

pub data AdminEvent : Type 0 where
  account_updated :
      (actor_id target_id : ℕ)
      → (before_role after_role : AccountRole) → (before_status after_status : AccountStatus)
      → AdminEvent
  credentials_revoked : (actor_id target_id sessions api_tokens : ℕ) → AdminEvent

pub record Deps : Type 1 where
  pub users : Table AccountRow
  pub sessions : Table SessionRow
  pub tokens : Table ApiTokenRow

pub record State (d : Deps) : Type 0 where
  pub users : d.users.Store
  pub sessions : d.sessions.Store
  pub tokens : d.tokens.Store
  pub events : List AdminEvent

pub record UpdateUserAccountInput : Type 0 where
  pub user_id : ℕ
  pub role : Option Text
  pub status : Option Text

unfoldable pub optional_account_role : Text → Option AccountRole
unfolding teq
optional_account_role value =
    let normalized = to_upper (trim value) in
    if teq normalized (text "USER")
    then some user
    else if teq normalized (text "MODERATOR")
    then some moderator
    else if teq normalized (text "ADMIN")
    then some admin
    else none

unfoldable pub optional_account_status : Text → Option AccountStatus
unfolding teq
optional_account_status value =
    let normalized = to_upper (trim value) in
    if teq normalized (text "ACTIVE")
    then some active
    else if teq normalized (text "SUSPENDED")
    then some suspended
    else if teq normalized (text "DELETED")
    then some deleted
    else none

-- An absent value is `ok none`.
unfoldable pub account_role : Option Text → Result (Option AccountRole)
unfolding teq
account_role none = ok none
account_role (some value) =
    let normalized = to_upper (trim value) in
    if teq normalized (text "USER")
    then ok (some user)
    else if teq normalized (text "MODERATOR")
    then ok (some moderator)
    else if teq normalized (text "ADMIN")
    then ok (some admin)
    else err (forbidden "Unsupported account role")

unfoldable pub account_status : Option Text → Result (Option AccountStatus)
unfolding teq
account_status none = ok none
account_status (some value) =
    let normalized = to_upper (trim value) in
    if teq normalized (text "ACTIVE")
    then ok (some active)
    else if teq normalized (text "SUSPENDED")
    then ok (some suspended)
    else if teq normalized (text "DELETED")
    then ok (some deleted)
    else err (forbidden "Unsupported account status")

-- `role !== undefined && role !== AccountRole.ADMIN`.
abbrev pub demotes : Option AccountRole → Bool
demotes none = false
demotes (some role) = not (is_admin role)

-- `status !== undefined && status !== AccountStatus.ACTIVE`.
abbrev pub restricts : Option AccountStatus → Bool
restricts none = false
restricts (some status) = not (is_active status)

-- `data: { role, status }`, where `undefined` leaves a column alone.
abbrev pub role_or : Option AccountRole → AccountRole → AccountRole
role_or none old = old
role_or (some role) old = role

abbrev pub status_or : Option AccountStatus → AccountStatus → AccountStatus
status_or none old = old
status_or (some status) old = status

abbrev pub with_access : Option AccountRole → Option AccountStatus → AccountRow → AccountRow
with_access role status r = record r {
  role = role_or role r.role;
  status = status_or status r.status;
}

abbrev pub is_live : Option ℕ → Bool
is_live none = true
is_live (some at) = false

abbrev pub is_live_session : ℕ → SessionRow → Bool
is_live_session user_id r = is_live r.revoked_at && r.user_id == user_id

abbrev pub is_live_token : ℕ → ApiTokenRow → Bool
is_live_token user_id r = is_live r.revoked_at && r.user_id == user_id

abbrev pub revoked_session : ℕ → SessionRow → SessionRow
revoked_session now r = record r { revoked_at = some now }

abbrev pub revoked_token : ℕ → ApiTokenRow → ApiTokenRow
revoked_token now r = record r { revoked_at = some now }

abbrev pub same_role : AccountRole → AccountRole → Bool
same_role user user = true
same_role moderator moderator = true
same_role admin admin = true
same_role _ _ = false

abbrev pub same_status : AccountStatus → AccountStatus → Bool
same_status active active = true
same_status suspended suspended = true
same_status deleted deleted = true
same_status _ _ = false

-- `adminUserWhere`; `contains` is the case-insensitive test of the database.
unfoldable pub admin_user_where : (Text → Text → Bool) → Option Text → AccountRow → Bool
unfolding optional_account_role optional_account_status
admin_user_where contains search r =
    let trimmed = trim (elim search [ none ↦ [] | some s ↦ s ]) in
    is_empty trimmed
    || contains r.username trimmed
    || (elim r.display_name [ none ↦ false | some name ↦ contains name trimmed ])
    || contains r.email trimmed
    || (elim (optional_account_role trimmed) [ none ↦ false | some role ↦ same_role r.role role ])
    || (elim (optional_account_status trimmed) [
      | none ↦ false
      | some status ↦ same_status r.status status
    ])

module _ (d : Deps) where
  abbrev pub find_account : ℕ → d.users.Store → Option AccountRow
  find_account id s = d.users.find_first (λ r. r.id == id) s

  -- `credentialRevocationQueries`.
  unfoldable pub revoke_credentials : ℕ → ℕ → State d → State d
  revoke_credentials user_id now s = record s {
    sessions = d.sessions.update (is_live_session user_id) (revoked_session now) s.sessions;
    tokens = d.tokens.update (is_live_token user_id) (revoked_token now) s.tokens;
  }

  -- The transaction.
  abbrev pub written : Option AccountRole → Option AccountStatus → ℕ → ℕ → State d → State d
  written role status user_id now s =
      let t = record s {
        users = d.users.update (λ r. r.id == user_id) (with_access role status) s.users;
      } in
      if restricts status then revoke_credentials user_id now t else t

  abbrev pub security_events : Option AccountStatus → ℕ → ℕ → State d → List AdminEvent
  security_events status actor_id user_id s =
      if restricts status
      then credentials_revoked actor_id user_id
          (d.sessions.count (is_live_session user_id) s.sessions)
          (d.tokens.count (is_live_token user_id) s.tokens)
        ∷ []
      else []

  unfoldable pub update_user_account :
      ℕ → UpdateUserAccountInput → ℕ → State d → Result (State d × AccountRow)
  unfolding revoke_credentials account_role account_status
  update_user_account now input actor_id s = do
    role ← account_role input.role
    status ← account_status input.status
    throw_if (input.user_id == actor_id && (demotes role || restricts status))
        (forbidden "Admins cannot restrict their own account")
    before ← or_throw (find_account input.user_id s.users) (not_found "User not found")
    let t = written role status input.user_id now s
    updated ← or_throw (find_account input.user_id t.users) (not_found "User not found")
    ok (
      record t {
        events =
            s.events
            ++ (account_updated actor_id input.user_id before.role updated.role before.status
                  updated.status
                ∷ security_events status actor_id input.user_id s);
      },
      updated,
    )
