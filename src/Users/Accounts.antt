-- ===== src/Users/Accounts.antt =====
-- The columns of an account and of its credentials: apps/api/prisma/schema.prisma.
use moddery.Base.{ℕ, Option, Text, Bool, true, false, List}

pub data AccountStatus : Type 0 where
  active suspended deleted : AccountStatus

pub data AccountRole : Type 0 where
  user moderator admin : AccountRole

pub record AccountRow : Type 0 where
  pub id : ℕ
  pub username : Text
  pub display_name : Option Text
  pub email : Text
  pub role : AccountRole
  pub status : AccountStatus

-- A session.
pub record SessionRow : Type 0 where
  pub id : ℕ
  pub user_id : ℕ
  pub token_hash : Text
  pub expires_at : ℕ
  pub revoked_at : Option ℕ

pub record ApiTokenRow : Type 0 where
  pub id : ℕ
  pub user_id : ℕ
  pub name : Text
  pub token_hash : Text
  pub scopes : List Text
  pub expires_at : Option ℕ
  pub revoked_at : Option ℕ

abbrev pub is_active : AccountStatus → Bool
is_active active = true
is_active _ = false

abbrev pub is_admin : AccountRole → Bool
is_admin admin = true
is_admin _ = false
