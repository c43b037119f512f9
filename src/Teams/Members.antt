-- ===== src/Teams/Members.antt =====
-- The rows of a team, and how the owner of a project or an organization and those with
-- `MANAGE_MEMBERS` add, update and remove members: project-members.service.ts and the members of
-- organization-management.service.ts. The two services differ in the resource that they look up,
-- in the permissions that they grant and in their messages.
-- Between its read and its write a handler waits, and other requests may be served: `meanwhile` is
-- what they do to the table.
pub mod Owners
use moddery.Base.{
  ℕ, ◌≡◌, List, [], ◌∷◌, ◌++◌, Option, none, some, Text, text, teq, trim, is_empty, ◌==◌, ◌&&◌,
  ◌||◌, Bool, true, false, not, if◌then◌else◌, any_of, Result, ok, err, HttpError, not_found,
  forbidden, bad_request, ◌>>=◌, ◌>>◌, or_throw, throw_if, required_text,
}
use moddery.Database.{Table, upsert}
use moddery.Teams.Permissions.{
  TeamPermission, manage_details, manage_versions, manage_members, manage_settings, view_analytics,
  project_allowed, organization_allowed, member_permissions,
}

pub record TeamMemberRow : Type 0 where
  pub id : ℕ
  pub team_id : ℕ
  pub user_id : ℕ
  pub role : Text
  pub permissions : List TeamPermission
  pub is_owner : Bool
  pub accepted_at : Option ℕ
  pub sort_order : ℕ
  pub created_at : ℕ

pub data ResourceKind : Type 0 where
  project organization : ResourceKind

-- A row of a project or an organization, as far as the handlers select it.
pub record ResourceRow : Type 0 where
  pub id : Text
  pub kind : ResourceKind
  pub name : Text
  pub slug : Text
  pub team_id : ℕ

pub record UserRow : Type 0 where
  pub id : ℕ
  pub username : Text

pub data MembershipAction : Type 0 where
  add update remove accept decline : MembershipAction

-- `organizationMemberRowToAuditSnapshot` and its twins.
pub record MemberSnapshot : Type 0 where
  pub accepted : Bool
  pub owner : Bool
  pub permissions : List TeamPermission
  pub role : Text

-- `recordTeamMembershipChange`, and the notice that a new member is sent.
pub data Event : Type 0 where
  change :
      MembershipAction
      → (actor_id : ℕ) → (before after : Option MemberSnapshot) → (target_user_id : ℕ) → Event
  invite_notice : (name : Text) → (user_id : ℕ) → Event

pub record Deps : Type 1 where
  pub members : Table TeamMemberRow
  pub resources : Table ResourceRow
  pub users : Table UserRow
  pub same_name : Text → Text → Bool

pub record MemberInput : Type 0 where
  -- A project's slug, or an organization's identifier.
  pub resource : Text
  pub username : Text
  pub role : Text
  pub permissions : Option (List Text)

-- Who asks, the time, and the identifier of a new row.
pub record Caller : Type 0 where
  pub user_id : ℕ
  pub now : ℕ
  pub new_id : ℕ

abbrev pub is_accepted : TeamMemberRow → Bool
is_accepted r = elim r.accepted_at [ none ↦ false | some _ ↦ true ]

abbrev pub is_manage_members : TeamPermission → Bool
is_manage_members manage_members = true
is_manage_members _ = false

-- The members of `team_id` that may manage it, with the given user.
abbrev pub is_manager : ℕ → ℕ → TeamMemberRow → Bool
is_manager team_id user_id r =
    r.team_id == team_id
    && is_accepted r
    && (r.is_owner || any_of is_manage_members r.permissions)
    && r.user_id == user_id

abbrev pub snapshot : TeamMemberRow → MemberSnapshot
snapshot r = record {
  accepted = is_accepted r;
  owner = r.is_owner;
  permissions = r.permissions;
  role = r.role;
}

-- `input.role.trim() || 'Member'`.
abbrev pub role_of : Text → Text
role_of role = let trimmed = trim role in if is_empty trimmed then text "Member" else trimmed

abbrev pub is_member_of : ℕ → ℕ → TeamMemberRow → Bool
is_member_of team_id user_id r = r.team_id == team_id && r.user_id == user_id

-- How a project and an organization are looked up, what they grant and what they answer.
pub record Policy : Type 0 where
  pub matches : Text → ResourceRow → Bool
  pub missing : HttpError
  pub allowed : List TeamPermission
  pub owner_updated : HttpError
  pub owner_removed : HttpError

unfoldable pub project_policy : Policy
project_policy = record {
  matches = λ slug r. (elim r.kind [ project ↦ true | organization ↦ false ]) && teq r.slug slug;
  missing = not_found "Project not found";
  allowed = project_allowed;
  owner_updated = forbidden "Project owner cannot be updated";
  owner_removed = forbidden "Project owner cannot be removed";
}

unfoldable pub organization_policy : Policy
organization_policy = record {
  matches = λ id r. (elim r.kind [ project ↦ false | organization ↦ true ]) && teq r.id id;
  missing = not_found "Organization not found";
  allowed = organization_allowed;
  owner_updated = forbidden "Organization owner cannot be updated";
  owner_removed = forbidden "Organization owner cannot be removed";
}

module _ (d : Deps) (resources : d.resources.Store) (people : d.users.Store) where
  -- `findProjectForMemberManagement` and `findOrganizationForMemberManagement`.
  unfoldable pub find_managed : Policy → Text → ℕ → d.members.Store → Option ResourceRow
  find_managed policy name user_id s =
      d.resources.find_first
        (λ r. policy.matches name r && not (d.members.count (is_manager r.team_id user_id) s == 0))
        resources

  abbrev pub find_user : Text → Option UserRow
  find_user username = d.users.find_first (λ u. d.same_name u.username username) people

  abbrev pub Reply : Type 0
  Reply = Result (d.members.Store × List Event)

  -- The `update` of the upsert.
  abbrev pub regranted : Policy → MemberInput → TeamMemberRow → TeamMemberRow
  regranted policy input r = record r {
    permissions = member_permissions policy.allowed input.permissions;
    role = role_of input.role;
  }

  -- The `create` of the upsert, with the defaults of the schema.
  abbrev pub invited : Policy → MemberInput → Caller → ℕ → ℕ → TeamMemberRow
  invited policy input caller team_id user_id = record {
    id = caller.new_id;
    team_id = team_id;
    user_id = user_id;
    role = role_of input.role;
    permissions = member_permissions policy.allowed input.permissions;
    is_owner = false;
    accepted_at = none;
    sort_order = 0;
    created_at = caller.now;
  }

  -- `before?.isOwner`.
  abbrev pub is_owner_row : Option TeamMemberRow → Bool
  is_owner_row none = false
  is_owner_row (some r) = r.is_owner

  -- The row that the upsert returns, from the table that it meets.
  abbrev pub upserted : Policy → MemberInput → Caller → ℕ → ℕ → d.members.Store → TeamMemberRow
  upserted policy input caller team_id user_id s =
      elim (d.members.find_first (is_member_of team_id user_id) s) [
        | none ↦ invited policy input caller team_id user_id
        | some r ↦ regranted policy input r
      ]

  abbrev pub upsert_events :
      Caller → ResourceRow → ℕ → Option TeamMemberRow → TeamMemberRow → List Event
  upsert_events caller resource user_id none member =
      change add caller.user_id none (some (snapshot member)) user_id
      ∷ (if is_accepted member then [] else invite_notice resource.name user_id ∷ [])
  upsert_events caller resource user_id (some before) member =
      change update caller.user_id (some (snapshot before)) (some (snapshot member)) user_id ∷ []

  -- `addProjectTeamMember` and `addOrganizationTeamMember` from the texts that they look up.
  unfoldable pub add_team_member :
      Policy → (d.members.Store → d.members.Store) → Caller → MemberInput → d.members.Store → Reply
  add_team_member policy meanwhile caller input s = do
    resource ← or_throw (find_managed policy input.resource caller.user_id s) policy.missing
    user ← or_throw (find_user input.username) (not_found "User not found")
    let before = d.members.find_first (is_member_of resource.team_id user.id) s
    throw_if (is_owner_row before) policy.owner_updated
    let t = meanwhile s
    ok (
      upsert d.members (is_member_of resource.team_id user.id) (regranted policy input)
          (invited policy input caller resource.team_id user.id) t,
      upsert_events caller resource user.id before
          (upserted policy input caller resource.team_id user.id t),
    )

  -- `user: { username: … }` in the `where` clause of the member to remove.
  abbrev pub is_named : ℕ → Text → TeamMemberRow → Bool
  is_named team_id username r =
      r.team_id == team_id
      && not (d.users.count (λ u. u.id == r.user_id && d.same_name u.username username) people == 0)

  abbrev pub is_removable : TeamMemberRow → ℕ → TeamMemberRow → Bool
  is_removable member team_id r = (r.id == member.id && not r.is_owner) && r.team_id == team_id

  unfoldable pub remove_team_member :
      Policy → (d.members.Store → d.members.Store) → Caller → Text → Text → d.members.Store → Reply
  remove_team_member policy meanwhile caller name username s = do
    resource ← or_throw (find_managed policy name caller.user_id s) policy.missing
    member ←
        or_throw (d.members.find_first (is_named resource.team_id username) s)
          (not_found "Team member not found")
    throw_if member.is_owner policy.owner_removed
    let t = meanwhile s
    throw_if (d.members.count (is_removable member resource.team_id) t == 0)
        (not_found "Team member not found")
    ok (
      d.members.delete (is_removable member resource.team_id) t,
      change remove caller.user_id (some (snapshot member)) none member.user_id ∷ [],
    )

  unfoldable pub add_project_team_member :
      (d.members.Store → d.members.Store) → Caller → MemberInput → d.members.Store → Reply
  unfolding add_team_member project_policy
  add_project_team_member = add_team_member project_policy

  unfoldable pub remove_project_team_member :
      (d.members.Store → d.members.Store) → Caller → Text → Text → d.members.Store → Reply
  unfolding remove_team_member project_policy
  remove_project_team_member = remove_team_member project_policy

  -- The organization's handlers trim what they are given and refuse what is empty.
  unfoldable pub add_organization_team_member :
      (d.members.Store → d.members.Store) → Caller → MemberInput → d.members.Store → Reply
  unfolding add_team_member organization_policy
  add_organization_team_member meanwhile caller input s = do
    organization_id ← required_text input.resource "Organization is required"
    username ← required_text input.username "Username is required"
    add_team_member organization_policy meanwhile caller
        (record input { resource = organization_id; username = username }) s

  unfoldable pub remove_organization_team_member :
      (d.members.Store → d.members.Store) → Caller → Text → Text → d.members.Store → Reply
  unfolding remove_team_member organization_policy
  remove_organization_team_member meanwhile caller name username s = do
    organization_id ← required_text name "Organization is required"
    named ← required_text username "Username is required"
    remove_team_member organization_policy meanwhile caller organization_id named s
