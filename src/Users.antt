-- ===== src/Users.antt =====
-- apps/api/src/users: accounts and what they do to one another.
pub mod Accounts
pub mod Friends
pub mod Admin
