-- ===== src/Auth/Reset/Tests.antt =====
-- A reset token used twice, in tables kept in memory. A token and a password are their own digests.
use moddery.Base.{
  ◌≡◌, ◌≢◌, refl, inl, inr, none, List, ap, [], ◌∷◌, ok, err, text, teq, trim, Text, Among,
  unauthorized,
}
use moddery.Database.Memory.{memory}
use moddery.Users.Accounts.{AccountRow, SessionRow, ApiTokenRow}
use moddery.Users.Admin.{revoked_session}
use moddery.Auth.Reset.{
  PasswordResetToken, PasswordCredential, ResetDeps, ResetState, ResetEvent, spent, reset_password,
  ResetRequest, issues, confirms, reset_run, reset_step, issue_reset_token, confirm_password_reset,
}
use moddery.Auth.Reset.Once.{IsGood, IsUniqueHash, reset_ends_credentials, reset_once}

abbrev deps : ResetDeps
deps = record {
  accounts = record {
    users = memory AccountRow;
    sessions = memory SessionRow;
    tokens = memory ApiTokenRow;
  };
  resets = memory PasswordResetToken;
  passwords = memory PasswordCredential;
}

abbrev token : PasswordResetToken
token = record { id = 3; user_id = 2; token_hash = text "tok"; expires_at = 90; used_at = none }

abbrev session : SessionRow
session = record {
  id = 1;
  user_id = 2;
  token_hash = text "jwt";
  expires_at = 90;
  revoked_at = none;
}

abbrev old : PasswordCredential
old = record { user_id = 2; password_hash = text "old"; password_changed_at = 1 }

abbrev before : ResetState deps
before = record {
  accounts = record { users = []; sessions = session ∷ []; tokens = []; events = [] };
  resets = token ∷ [];
  passwords = old ∷ [];
}

abbrev same : Text → Text
same s = s

abbrev after : ResetState deps
after = record {
  accounts = record {
    users = [];
    sessions = revoked_session 51 session ∷ [];
    tokens = [];
    events = [];
  };
  resets = spent 51 token ∷ [];
  passwords = record { user_id = 2; password_hash = text "new"; password_changed_at = 51 } ∷ [];
}

abbrev event : ResetEvent
event = record { target_user_id = 2; revoked_sessions = 1; revoked_api_tokens = 0 }

confirmed :
    confirm_password_reset deps same same 50 51 (text "tok ") (text "new") before
    ≡ ok (after, event)
unfolding confirm_password_reset reset_password trim teq
confirmed = refl

expired_test :
    confirm_password_reset deps same same 90 91 (text "tok") (text "new") before
    ≡ err (unauthorized "Invalid password reset token")
unfolding confirm_password_reset trim teq
expired_test = refl

reset_ends_credentials_example :
    (r : PasswordResetToken) × IsGood deps same same 50 (text "tok ") r before
    × ((q : SessionRow)
        → Among q (revoked_session 51 session ∷ [])
        → q.user_id ≡ r.user_id
        → q.revoked_at ≢ none)
    × ((q : ApiTokenRow) → Among q [] → q.user_id ≡ r.user_id → q.revoked_at ≢ none)
    × ((c : PasswordCredential)
        → Among c after.passwords
        → c.user_id ≡ r.user_id
        → c.password_hash ≡ text "new")
    × ((c : PasswordCredential) × Among c after.passwords
        × (c.user_id ≡ r.user_id)
        × (c.password_hash ≡ text "new"))
reset_ends_credentials_example =
    reset_ends_credentials deps same same 50 51 (text "tok ") (text "new") before after event
      confirmed

unique_hash : IsUniqueHash deps same same before
unique_hash q r (inl e) (inl f) h = cc
unique_hash q r (inl e) (inr f) h = absurd f
unique_hash q r (inr e) k h = absurd e

-- Between the two attempts another token is issued and used.
abbrev later_requests : List ResetRequest
later_requests =
    issues 52 4 2 (text "new tok")
    ∷ confirms 53 54 (text "new tok") (text "newer")
    ∷ confirms 55 56 (text "bad") (text "bad")
    ∷ []

abbrev later : ResetState deps
later = reset_run deps same same later_requests after

new_token_taken :
    later.passwords
    ≡ record { user_id = 2; password_hash = text "newer"; password_changed_at = 54 } ∷ []
unfolding reset_run reset_step issue_reset_token confirm_password_reset reset_password trim teq
new_token_taken = refl

differs : text "new tok" ≢ trim (text "tok ")
unfolding trim teq
differs e = cc (ap (λ x. teq x (text "tok")) e)

reset_once_example :
    confirm_password_reset deps same same 60 61 (text "tok ") (text "mine") later
    ≡ err (unauthorized "Invalid password reset token")
reset_once_example =
    reset_once deps same same 50 51 60 61 (text "tok ") (text "new") (text "mine") before after
      event later_requests unique_hash confirmed (differs, (tt, (tt, tt)))
