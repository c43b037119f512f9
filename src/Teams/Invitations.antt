-- ===== src/Teams/Invitations.antt =====
-- How a user answers the invitation to a team: apps/api/src/teams/services/teams.service.ts.
-- `meanwhile` is what other requests do to the table between the read and the write.
pub mod Consent
use moddery.Base.{
  ℕ, ◌≡◌, List, [], ◌∷◌, Option, none, some, Text, text, teq, ◌==◌, ◌&&◌, ◌||◌, Bool, true, false,
  not, if◌then◌else◌, Result, ok, err, not_found, forbidden, ◌>>=◌, ◌>>◌, or_throw, throw_if,
}
use moddery.Teams.Permissions.{TeamPermission}
use moddery.Teams.Members.{
  TeamMemberRow, Deps, Event, change, accept, decline, MemberSnapshot, is_accepted,
}

-- The organization or the project of a team, as `teamInvitationSelect` selects them. A key is a
-- number here.
pub record TargetOrganization : Type 0 where
  pub id : ℕ
  pub name : Text
  pub slug : Text

pub record TargetProject : Type 0 where
  pub id : ℕ
  pub kind : Text
  pub slug : Text
  pub title : Text

pub record TeamTarget : Type 0 where
  pub organization : Option TargetOrganization
  pub project : Option TargetProject
  pub target_kind : Text

pub data TargetType : Type 0 where
  organization_target project_target : TargetType

pub record Target : Type 0 where
  pub id : ℕ
  pub name : Text
  pub project_kind : Option Text
  pub slug : Text
  pub type : TargetType

pub record InvitationContract : Type 0 where
  pub created_at : ℕ
  pub id : ℕ
  pub permissions : List TeamPermission
  pub role : Text
  pub target : Target
  pub accepted_at : Option ℕ

abbrev pub organization_contract : TargetOrganization → Target
organization_contract o = record {
  id = o.id;
  name = o.name;
  project_kind = none;
  slug = o.slug;
  type = organization_target;
}

abbrev pub project_contract : ℕ → Option TargetProject → Target
project_contract row_id none = record {
  id = row_id;
  name = text "Project";
  project_kind = none;
  slug = text "";
  type = project_target;
}
project_contract row_id (some p) = record {
  id = p.id;
  name = p.title;
  project_kind = some p.kind;
  slug = p.slug;
  type = project_target;
}

-- The target that an invitation names.
unfoldable pub target_of : ℕ → TeamTarget → Target
target_of row_id team = elim team.organization [
  | none ↦ project_contract row_id team.project
  | some o ↦
      if teq team.target_kind (text "ORGANIZATION")
      then organization_contract o
      else project_contract row_id team.project
]

unfoldable pub team_invitation_row_to_contract : TeamTarget → TeamMemberRow → InvitationContract
unfolding target_of
team_invitation_row_to_contract team row = record {
  created_at = row.created_at;
  id = row.id;
  permissions = row.permissions;
  role = row.role;
  target = target_of row.id team;
  accepted_at = none;
}

-- `teamInvitationRowToAuditSnapshot`; the username is the viewer's.
abbrev pub audit_snapshot : TeamMemberRow → Bool → MemberSnapshot
audit_snapshot row accepted = record {
  accepted = accepted;
  owner = row.is_owner;
  permissions = row.permissions;
  role = row.role;
}

-- The pending row with an identifier and a user.
abbrev pub is_pending_of : ℕ → ℕ → TeamMemberRow → Bool
is_pending_of invitation_id user_id r =
    not (is_accepted r) && r.id == invitation_id && r.user_id == user_id

module _ (d : Deps) (team_of : ℕ → TeamTarget) where
  abbrev pub find_viewer_invitation : ℕ → ℕ → d.members.Store → Result TeamMemberRow
  find_viewer_invitation invitation_id user_id s =
      or_throw (d.members.find_first (is_pending_of invitation_id user_id) s)
        (not_found "Team invitation not found")

  -- The table, the audit event and the contract.
  abbrev pub Answer : Type 0
  Answer = Result (d.members.Store × List Event × InvitationContract)

  -- `data: { acceptedAt }`.
  abbrev pub accepted_row : ℕ → TeamMemberRow → TeamMemberRow
  accepted_row now r = record r { accepted_at = some now }

  unfoldable pub accept_invitation :
      (d.members.Store → d.members.Store) → ℕ → ℕ → ℕ → d.members.Store → Answer
  accept_invitation meanwhile now user_id invitation_id s = do
    invitation ← find_viewer_invitation invitation_id user_id s
    let t = meanwhile s
    let mine = is_pending_of invitation.id user_id
    throw_if (d.members.count mine t == 0) (not_found "Team invitation not found")
    ok (
      d.members.update mine (accepted_row now) t,
      change accept user_id (some (audit_snapshot invitation false))
            (some (audit_snapshot invitation true)) user_id
          ∷ [],
      record (team_invitation_row_to_contract (team_of invitation.team_id) invitation) {
        accepted_at = some now;
      },
    )

  unfoldable pub decline_invitation :
      (d.members.Store → d.members.Store) → ℕ → ℕ → d.members.Store → Answer
  decline_invitation meanwhile user_id invitation_id s = do
    invitation ← find_viewer_invitation invitation_id user_id s
    throw_if invitation.is_owner (forbidden "Owner invitations cannot be declined")
    let t = meanwhile s
    let mine = is_pending_of invitation.id user_id
    throw_if (d.members.count mine t == 0) (not_found "Team invitation not found")
    ok (
      d.members.delete mine t,
      change decline user_id (some (audit_snapshot invitation false)) none user_id ∷ [],
      team_invitation_row_to_contract (team_of invitation.team_id) invitation,
    )
