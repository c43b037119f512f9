-- ===== src/Teams.antt =====
-- Membership of the teams behind projects and organizations: apps/api/src/teams,
-- apps/api/src/catalog/services/project-members.service.ts and the members of
-- apps/api/src/organizations/services/organization-management.service.ts.
pub mod Permissions
pub mod Members
pub mod Invitations
pub mod Tests
