-- ===== src/Auth/Reset.antt =====
-- The reset of a password: confirmPasswordReset and the transaction of requestPasswordReset of apps/api/src/auth/services/auth.service.ts.
-- The digest of the token (`hash_secret`) and the hash of the password (`hash`) are parameters.
pub mod Once
pub mod Tests
use moddery.Base.{
  ℕ, ◌+◌, ltb, Option, none, some, Text, trim, teq, ◌==◌, leb, ◌&&◌, Bool, true, false, not, Result,
  ok, err, unauthorized, ◌>>=◌, ◌>>◌, or_throw, throw_if, if◌then◌else◌, List, [], ◌∷◌,
}
use moddery.Database.{Table, upsert}
use moddery.Users.Admin.{Deps, State, is_live, is_live_session, is_live_token, revoke_credentials}

pub record PasswordResetToken : Type 0 where
  pub id : ℕ
  pub user_id : ℕ
  pub token_hash : Text
  pub expires_at : ℕ
  pub used_at : Option ℕ

pub record PasswordCredential : Type 0 where
  pub user_id : ℕ
  pub password_hash : Text
  pub password_changed_at : ℕ

pub record ResetDeps : Type 1 where
  pub accounts : Deps
  pub resets : Table PasswordResetToken
  pub passwords : Table PasswordCredential

pub record ResetState (d : ResetDeps) : Type 0 where
  pub accounts : State d.accounts
  pub resets : d.resets.Store
  pub passwords : d.passwords.Store

-- `PASSWORD_RESET_CONFIRMED`.
pub record ResetEvent : Type 0 where
  pub target_user_id : ℕ
  pub revoked_sessions : ℕ
  pub revoked_api_tokens : ℕ

abbrev pub has_credential : ℕ → PasswordCredential → Bool
has_credential user_id c = c.user_id == user_id

abbrev pub changed_password : Text → ℕ → PasswordCredential → PasswordCredential
changed_password password_hash now c = record c {
  password_hash = password_hash;
  password_changed_at = now;
}

abbrev pub new_password : ℕ → Text → ℕ → PasswordCredential
new_password user_id password_hash now = record {
  user_id = user_id;
  password_hash = password_hash;
  password_changed_at = now;
}

abbrev pub is_token : ℕ → PasswordResetToken → Bool
is_token id r = r.id == id

abbrev pub spent : ℕ → PasswordResetToken → PasswordResetToken
spent now r = record r { used_at = some now }

abbrev password_reset_token_ttl_ms : ℕ
password_reset_token_ttl_ms = 3_600_000

-- The tokens of the user that are unused and not expired.
abbrev pub is_pending_token : ℕ → ℕ → PasswordResetToken → Bool
is_pending_token now user_id r = ltb now r.expires_at && is_live r.used_at && r.user_id == user_id

-- The requests about resets, each with the times and the random values that it is served with.
pub data ResetRequest : Type 0 where
  issues : (now id user_id : ℕ) (token : Text) → ResetRequest
  confirms : (checked now : ℕ) (token password : Text) → ResetRequest

module _ (d : ResetDeps) (hash_secret hash : Text → Text) where
  -- The transaction.
  unfoldable pub reset_password : ℕ → Text → PasswordResetToken → ResetState d → ResetState d
  unfolding revoke_credentials
  reset_password now password token s = record {
    accounts = revoke_credentials d.accounts token.user_id now s.accounts;
    resets = d.resets.update (is_token token.id) (spent now) s.resets;
    passwords =
        upsert d.passwords (has_credential token.user_id) (changed_password (hash password) now)
          (new_password token.user_id (hash password) now) s.passwords;
  }

  abbrev pub find_token : Text → d.resets.Store → Option PasswordResetToken
  find_token token s = d.resets.find_first (λ r. teq r.token_hash (hash_secret (trim token))) s

  -- The clock is read twice: for the check, and after the password was hashed.
  unfoldable pub confirm_password_reset :
      ℕ → ℕ → Text → Text → ResetState d → Result (ResetState d × ResetEvent)
  confirm_password_reset checked now token password s = do
    reset_token ← or_throw (find_token token s.resets) (unauthorized "Invalid password reset token")
    throw_if (not (is_live reset_token.used_at)) (unauthorized "Invalid password reset token")
    throw_if (leb reset_token.expires_at checked) (unauthorized "Invalid password reset token")
    ok (
      reset_password now password reset_token s,
      record {
        target_user_id = reset_token.user_id;
        revoked_sessions =
            d.accounts.sessions.count (is_live_session reset_token.user_id) s.accounts.sessions;
        revoked_api_tokens =
            d.accounts.tokens.count (is_live_token reset_token.user_id) s.accounts.tokens;
      },
    )

  -- The transaction of `requestPasswordReset` for the user that it found: `token` is the text of the
  -- random bytes, `id` the identifier that the database gives the row.
  unfoldable pub issue_reset_token : ℕ → ℕ → ℕ → Text → ResetState d → ResetState d
  issue_reset_token now id user_id token s = record s {
    resets =
        d.resets.create
          (record {
            id = id;
            user_id = user_id;
            token_hash = hash_secret token;
            expires_at = now + password_reset_token_ttl_ms;
            used_at = none;
          })
          (d.resets.update (is_pending_token now user_id) (spent now) s.resets);
  }

  unfoldable pub reset_step : ResetRequest → ResetState d → ResetState d
  unfolding issue_reset_token
  reset_step (issues now id user_id token) s = issue_reset_token now id user_id token s
  reset_step (confirms checked now token password) s =
      elim (confirm_password_reset checked now token password s) [
        | ok (t, event) ↦ t
        | err error ↦ s
      ]

  unfoldable pub reset_run : List ResetRequest → ResetState d → ResetState d
  unfolding reset_step
  reset_run [] s = s
  reset_run (request ∷ requests) s = reset_run requests (reset_step request s)
