-- ===== src/Teams/Tests.antt =====
-- A team with an owner, an accepted member and an invitation, in tables kept in memory.
use moddery.Base.{
  ℕ, ◌≡◌, ◌↔◌, refl, inl, inr, none, some, List, [], ◌∷◌, ok, err, text, teq, Text, unique, trim,
  true, false, Among, forbidden, not_found, arith, ◌⊎◌,
}
use moddery.Database.Memory.{memory}
use moddery.Teams.Permissions.{
  manage_versions, manage_members, member_permissions, project_member_permissions,
  organization_member_permissions,
}
use moddery.Teams.Members.{
  TeamMemberRow, ResourceRow, UserRow, project, Deps, Caller, MemberInput, project_policy, change,
  update, remove, accept, decline, snapshot, Event, find_managed, add_team_member,
  remove_team_member, add_project_team_member, remove_project_team_member, is_removable,
}
use moddery.Teams.Members.Owners.{
  remove_keeps_owners, add_needs_consent, IsManagedBy, SameStanding, IsUniquePair,
}
use moddery.Teams.Invitations.{
  TeamTarget, InvitationContract, team_invitation_row_to_contract, audit_snapshot,
  accept_invitation, decline_invitation,
}
use moddery.Teams.Invitations.Consent.{accepts, team_step, team_step-IsConsent, IsConsent}

abbrev owner : TeamMemberRow
owner = record {
  id = 11;
  team_id = 5;
  user_id = 1;
  role = text "Owner";
  permissions = [];
  is_owner = true;
  accepted_at = some 1;
  sort_order = 0;
  created_at = 1;
}

abbrev helper : TeamMemberRow
helper = record owner {
  id = 12;
  user_id = 2;
  role = text "Member";
  permissions = manage_versions ∷ [];
  is_owner = false;
}

abbrev guest : TeamMemberRow
guest = record helper { id = 13; user_id = 3; permissions = []; accepted_at = none }

abbrev team : List TeamMemberRow
team = guest ∷ helper ∷ owner ∷ []

abbrev mod_row : ResourceRow
mod_row = record {
  id = text "p";
  kind = project;
  name = text "Mod";
  slug = text "mod";
  team_id = 5;
}

abbrev mods : List ResourceRow
mods = mod_row ∷ []

abbrev people : List UserRow
people =
    record { id = 1; username = text "ann" }
    ∷ record { id = 2; username = text "bob" }
    ∷ record { id = 3; username = text "cat" }
    ∷ []

abbrev deps : Deps
deps = record {
  members = memory TeamMemberRow;
  resources = memory ResourceRow;
  users = memory UserRow;
  same_name = teq;
}

abbrev ann : Caller
ann = record { user_id = 1; now = 9; new_id = 14 }

abbrev input : Text → MemberInput
input name = record {
  resource = text "mod";
  username = name;
  role = text " Tester ";
  permissions = some (text "MANAGE_MEMBERS" ∷ text "NONE" ∷ text "MANAGE_MEMBERS" ∷ []);
}

abbrev nobody : ℕ → TeamTarget
nobody team_id = record { organization = none; project = none; target_kind = text "PROJECT" }

abbrev regranted_helper : TeamMemberRow
regranted_helper = record helper { role = text "Tester"; permissions = manage_members ∷ [] }

permissions_test :
    (project_member_permissions (some (text "MANAGE_VERSIONS" ∷ text "x" ∷ []))
      ≡ manage_versions ∷ [])
    × (organization_member_permissions (some (text "MANAGE_VERSIONS" ∷ [])) ≡ [])
unfolding project_member_permissions organization_member_permissions unique
permissions_test = (refl, refl)

owner_test :
    (add_project_team_member deps mods people (λ x. x) ann (input (text "ann")) team
      ≡ err (forbidden "Project owner cannot be updated"))
    × (remove_project_team_member deps mods people (λ x. x) ann (text "mod") (text "ann") team
        ≡ err (forbidden "Project owner cannot be removed"))
    × (remove_project_team_member deps mods people
          (λ x. x)
          (record ann { user_id = 2 })
          (text "mod")
          (text "cat")
          team
        ≡ err (not_found "Project not found"))
unfolding add_project_team_member remove_project_team_member find_managed teq
owner_test = (refl, refl, refl)

abbrev removal : List Event
removal = change remove 1 (some (snapshot helper)) none 2 ∷ []

removed :
    remove_team_member deps mods people project_policy (λ x. x) ann (text "mod") (text "bob") team
    ≡ ok (guest ∷ owner ∷ [], removal)
unfolding remove_team_member find_managed project_policy teq unique
removed = refl

remove_keeps_owners_example :
    (resource : ResourceRow) × (member : TeamMemberRow) × IsManagedBy deps mods people
      resource.team_id 1 team
    × Among member team
    × (member.team_id ≡ resource.team_id)
    × ((r : TeamMemberRow)
        → Among r (guest ∷ owner ∷ [])
          ↔ (Among r team × (is_removable deps mods people member resource.team_id r ≡ false)))
    × ((r : TeamMemberRow) → Among r team → r.is_owner ≡ true → Among r (guest ∷ owner ∷ []))
remove_keeps_owners_example =
    remove_keeps_owners deps mods people project_policy (λ x. x) ann (text "mod") (text "bob") team
      (guest ∷ owner ∷ []) removal removed

abbrev regranted_team : List TeamMemberRow
regranted_team = guest ∷ regranted_helper ∷ owner ∷ []

abbrev promotion : List Event
promotion = change update 1 (some (snapshot helper)) (some (snapshot regranted_helper)) 2 ∷ []

regranted :
    add_team_member deps mods people project_policy (λ x. x) ann (input (text "bob")) team
    ≡ ok (regranted_team, promotion)
unfolding add_team_member find_managed project_policy teq unique trim member_permissions
regranted = refl

add_needs_consent_example :
    (q : TeamMemberRow) × Among q team × SameStanding deps mods people q regranted_helper
add_needs_consent_example =
    add_needs_consent deps mods people project_policy (λ x. x) ann (input (text "bob")) team
      regranted_team promotion regranted regranted_helper (inr (inl refl)) (inl refl)

team-IsUniquePair : IsUniquePair deps mods people team
team-IsUniquePair q r h k same_team same_user = grind arith

abbrev joined : TeamMemberRow
joined = record guest { accepted_at = some 9 }

abbrev contract : InvitationContract
contract = team_invitation_row_to_contract (nobody 5) guest

accepted_guest :
    accept_invitation deps nobody (λ x. x) 9 3 13 team
    ≡ ok (
      joined ∷ helper ∷ owner ∷ [],
      change accept 3 (some (audit_snapshot guest false)) (some (audit_snapshot guest true)) 3 ∷ [],
      record contract { accepted_at = some 9 },
    )
unfolding accept_invitation
accepted_guest = refl

declined_guest :
    decline_invitation deps nobody (λ x. x) 3 13 team
    ≡ ok (
      helper ∷ owner ∷ [],
      change decline 3 (some (audit_snapshot guest false)) none 3 ∷ [],
      contract,
    )
unfolding decline_invitation
declined_guest = refl

step_accepted : Among joined (team_step deps nobody mods people (λ x. x) (accepts 9 3 13) team)
unfolding team_step
step_accepted = inl refl

team_step-IsConsent_example :
    ((q : TeamMemberRow) × Among q team × SameStanding deps mods people q joined)
    ⊎ IsConsent deps nobody mods people (accepts 9 3 13) joined
team_step-IsConsent_example =
    team_step-IsConsent deps nobody mods people (λ x. x) (accepts 9 3 13) team joined step_accepted
      refl
