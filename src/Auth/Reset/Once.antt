-- ===== src/Auth/Reset/Once.antt =====
-- A reset token is good for one reset, whatever requests follow. A reset ends every session and API
-- token of its account.
use moddery.Base.{
  ℕ, ◌≡◌, ◌≢◌, ◌<◌, List, [], ◌∷◌, All, Bool, true, err, Option-cases, Result-cases, inl, inr, refl,
  sym, ap, ◌∙◌, subst, false, not, ==_iff, leb, Option, none, some, Text, trim, teq_sound, ok,
  unauthorized, or_throw, throw_if, >>=-eq-ok, >>-eq-ok, or_throw-eq-ok, throw_if-eq-ok, ok-first,
  arith,
}
use moddery.Database.{upsert_rows, upsert_writes}
use moddery.Users.Accounts.{SessionRow, ApiTokenRow}
use moddery.Users.Admin.{is_live, revoke_credentials}
use moddery.Users.Admin.Restrictions.{sessions_revoked, tokens_revoked}
use moddery.Auth.Reset.{
  ResetRequest, issues, confirms, reset_step, reset_run, issue_reset_token, is_pending_token,
  PasswordResetToken, PasswordCredential, ResetDeps, ResetState, ResetEvent, has_credential,
  changed_password, new_password, is_token, spent, reset_password, find_token,
  confirm_password_reset,
}

module _ (d : ResetDeps) (hash_secret hash : Text → Text) where
  open d use {resets, passwords}

  -- The token of the input, unused and not expired.
  abbrev pub IsGood : ℕ → Text → PasswordResetToken → ResetState d → Type 0
  IsGood checked token r s =
      resets.Holds s.resets r
      × (r.token_hash ≡ hash_secret (trim token))
      × (r.used_at ≡ none)
      × (checked < r.expires_at)

  unused : (at : Option ℕ) → not (is_live at) ≡ false → at ≡ none
  unused none h = refl
  unused (some at) h = cc

  dead_of_used : (at : Option ℕ) → at ≢ none → not (is_live at) ≡ true
  dead_of_used none h = absurd (h refl)
  dead_of_used (some at) h = refl

  in_time : (expires_at checked : ℕ) → leb expires_at checked ≡ false → checked < expires_at
  in_time expires_at checked h = ground arith

  confirm-eq-ok :
      (checked now : ℕ) (token password : Text) (s t : ResetState d) (event : ResetEvent)
      → confirm_password_reset d hash_secret hash checked now token password s ≡ ok (t, event)
      → (r : PasswordResetToken) × IsGood checked token r s
        × (t ≡ reset_password d hash_secret hash now password r s)
  unfolding confirm_password_reset
  confirm-eq-ok checked now token password s t event h =
      let (r, found, h1) =
        >>=-eq-ok
          (or_throw (find_token d hash_secret hash token s.resets)
            (unauthorized "Invalid password reset token"))
          _ h in
      let (fresh, h2) =
        >>-eq-ok (throw_if (not (is_live r.used_at)) (unauthorized "Invalid password reset token"))
          _ h1 in
      let (early, h3) =
        >>-eq-ok (throw_if (leb r.expires_at checked) (unauthorized "Invalid password reset token"))
          _ h2 in
      let (held, fits) = resets.find_sound _ s.resets (or_throw-eq-ok _ _ found) in
      (
        r,
        (
          held,
          teq_sound r.token_hash (hash_secret (trim token)) fits,
          unused r.used_at (throw_if-eq-ok _ _ fresh),
          in_time r.expires_at checked (throw_if-eq-ok _ _ early),
        ),
        ok-first h3,
      )

  has_new_password :
      (now : ℕ) (password : Text) (r : PasswordResetToken) (s t : ResetState d)
      → t ≡ reset_password d hash_secret hash now password r s
      → (c : PasswordCredential) × passwords.Holds t.passwords c
        × (c.user_id ≡ r.user_id)
        × (c.password_hash ≡ hash password)
  unfolding reset_password
  has_new_password now password r s t e =
      let (c, held, cases) =
        upsert_writes passwords (has_credential r.user_id) (changed_password (hash password) now)
          (new_password r.user_id (hash password) now) s.passwords in
      let here = subst (λ (x : ResetState d). passwords.Holds x.passwords c) (sym e) held in
      elim cases [
        | inl x ↦ (
          c,
          here,
          ap (λ (y : PasswordCredential). y.user_id) x,
          ap (λ (y : PasswordCredential). y.password_hash) x,
        )
        | inr (q, k, fits, x) ↦ (
          c,
          here,
          ap (λ (y : PasswordCredential). y.user_id) x ∙ (==_iff q.user_id r.user_id).0 fits,
          ap (λ (y : PasswordCredential). y.password_hash) x,
        )
      ]

  -- A reset that succeeds had a token that was unused and not expired. Afterwards no session and no
  -- API token of its account is live, and the account has a password, which is the new one.
  pub reset_ends_credentials :
      (checked now : ℕ) (token password : Text) (s t : ResetState d) (event : ResetEvent)
      → confirm_password_reset d hash_secret hash checked now token password s ≡ ok (t, event)
      → (r : PasswordResetToken) × IsGood checked token r s
        × ((q : SessionRow)
            → d.accounts.sessions.Holds t.accounts.sessions q
            → q.user_id ≡ r.user_id
            → q.revoked_at ≢ none)
        × ((q : ApiTokenRow)
            → d.accounts.tokens.Holds t.accounts.tokens q
            → q.user_id ≡ r.user_id
            → q.revoked_at ≢ none)
        × ((c : PasswordCredential)
            → passwords.Holds t.passwords c
            → c.user_id ≡ r.user_id
            → c.password_hash ≡ hash password)
        × ((c : PasswordCredential) × passwords.Holds t.passwords c
            × (c.user_id ≡ r.user_id)
            × (c.password_hash ≡ hash password))
  unfolding reset_password revoke_credentials
  reset_ends_credentials checked now token password s t event h =
      let (r, good, e) = confirm-eq-ok checked now token password s t event h in
      (
        r,
        good,
        (λ q k mine.
            sessions_revoked d.accounts r.user_id now s.accounts.sessions q
              (subst (λ (x : ResetState d). d.accounts.sessions.Holds x.accounts.sessions q) e k)
              mine),
        (λ q k mine.
            tokens_revoked d.accounts r.user_id now s.accounts.tokens q
              (subst (λ (x : ResetState d). d.accounts.tokens.Holds x.accounts.tokens q) e k) mine),
        λ c k mine.
            elim (upsert_rows passwords (has_credential r.user_id)
              (changed_password (hash password) now) (new_password r.user_id (hash password) now)
              s.passwords c (subst (λ (x : ResetState d). passwords.Holds x.passwords c) e k)) [
                | inl (held, off) ↦ cc ((==_iff c.user_id r.user_id).1 mine, off)
                | inr (inl x) ↦ ap (λ (y : PasswordCredential). y.password_hash) x
                | inr (inr (q, held, fits, x)) ↦ ap (λ (y : PasswordCredential). y.password_hash) x
              ],
        has_new_password now password r s t e,
      )

  abbrev pub IsUniqueHash : ResetState d → Type 0
  IsUniqueHash s =
      (q r : PasswordResetToken)
      → resets.Holds s.resets q
      → resets.Holds s.resets r
      → q.token_hash ≡ r.token_hash
      → q ≡ r

  -- No row that could still be used has the digest of the token.
  abbrev pub IsUsedUp : Text → ResetState d → Type 0
  IsUsedUp token s =
      (r : PasswordResetToken)
      → resets.Holds s.resets r
      → r.token_hash ≡ hash_secret (trim token)
      → r.used_at ≢ none

  -- A request that issues no token with the digest of this one.
  abbrev pub IsOther : Text → ResetRequest → Type 0
  IsOther token (issues now id user_id issued) = hash_secret issued ≢ hash_secret (trim token)
  IsOther token (confirms checked now given password) = Unit

  none-some : (a : ℕ) → some a ≢ none
  none-some a e = cc

  spent-IsUsedUp :
      (token : Text) (p : PasswordResetToken → Bool) (now : ℕ) (s : ResetState d)
      → IsUsedUp token s
      → (r : PasswordResetToken) → resets.Holds (resets.update p (spent now) s.resets) r
      → r.token_hash ≡ hash_secret (trim token)
      → r.used_at ≢ none
  spent-IsUsedUp token p now s used r held hashed fresh =
      elim ((resets.holds_update p (spent now) s.resets r).0 held) [
        | inl (k, off) ↦ used r k hashed fresh
        | inr (q, k, on, e) ↦
            none-some now (sym (ap (λ (x : PasswordResetToken). x.used_at) e) ∙ fresh)
      ]

  reset_password-IsUsedUp :
      (token given password : Text) (now : ℕ) (r : PasswordResetToken) (s t : ResetState d)
      → t ≡ reset_password d hash_secret hash now password r s
      → IsUsedUp token s
      → IsUsedUp token t
  unfolding reset_password
  reset_password-IsUsedUp token given password now r s t e used q held =
      spent-IsUsedUp token (is_token r.id) now s used q
        (subst (λ (x : ResetState d). resets.Holds x.resets q) e held)

  reset_step-IsUsedUp :
      (token : Text) (request : ResetRequest) (s : ResetState d)
      → IsOther token request
      → IsUsedUp token s
      → IsUsedUp token (reset_step d hash_secret hash request s)
  unfolding reset_step issue_reset_token
  reset_step-IsUsedUp token (issues now id user_id issued) s other used = λ r held hashed.
      elim ((resets.holds_create _
          (resets.update (is_pending_token now user_id) (spent now) s.resets) r).0
        held) [
          | inl e ↦ absurd (other (sym (ap (λ (x : PasswordResetToken). x.token_hash) e) ∙ hashed))
          | inr k ↦ spent-IsUsedUp token (is_pending_token now user_id) now s used r k hashed
        ]
  reset_step-IsUsedUp token (confirms checked now given password) s other used =
      elim (Result-cases (confirm_password_reset d hash_secret hash checked now given password s)) [
        | inr (error, e) ↦ rw (e, reset_step) used
        | inl ((t, event), e) ↦
            let (r, good, same) = confirm-eq-ok checked now given password s t event e in
            rw (e, reset_step) (reset_password-IsUsedUp token given password now r s t same used)
      ]

  reset_run-IsUsedUp :
      (token : Text) (requests : List ResetRequest) (s : ResetState d)
      → All (IsOther token) requests
      → IsUsedUp token s
      → IsUsedUp token (reset_run d hash_secret hash requests s)
  unfolding reset_run
  reset_run-IsUsedUp token [] s others used = used
  reset_run-IsUsedUp token (request ∷ requests) s (other, others) used =
      reset_run-IsUsedUp token requests (reset_step d hash_secret hash request s) others
        (reset_step-IsUsedUp token request s other used)

  confirmed-IsUsedUp :
      (checked now : ℕ) (token password : Text) (s t : ResetState d) (event : ResetEvent)
      → IsUniqueHash s
      → confirm_password_reset d hash_secret hash checked now token password s ≡ ok (t, event)
      → IsUsedUp token t
  unfolding reset_password
  confirmed-IsUsedUp checked now token password s t event unique_hash h q q_held q_hashed q_fresh =
      let (r, (held, hashed, fresh, early), e) =
        confirm-eq-ok checked now token password s t event h in
      elim ((resets.holds_update (is_token r.id) (spent now) s.resets q).0
        (subst (λ (x : ResetState d). resets.Holds x.resets q) e q_held)) [
          | inl (k, off) ↦
              let same : q ≡ r = unique_hash q r k held (q_hashed ∙ sym hashed) in
              cc ((==_iff q.id r.id).1 (ap (λ (x : PasswordResetToken). x.id) same), off)
          | inr (p, k, fits, x) ↦
              none-some now (sym (ap (λ (y : PasswordResetToken). y.used_at) x) ∙ q_fresh)
        ]

  refused_of_IsUsedUp :
      (again later : ℕ) (token other : Text) (s : ResetState d)
      → IsUsedUp token s
      → confirm_password_reset d hash_secret hash again later token other s
        ≡ err (unauthorized "Invalid password reset token")
  unfolding confirm_password_reset
  refused_of_IsUsedUp again later token other s used =
      elim (Option-cases (find_token d hash_secret hash token s.resets)) [
        | inl miss ↦ rw (miss, confirm_password_reset) refl
        | inr (r, found) ↦
            let (held, fits) = resets.find_sound _ s.resets found in
            let hashed = teq_sound r.token_hash (hash_secret (trim token)) fits in
            let dead : not (is_live r.used_at) ≡ true =
              dead_of_used r.used_at (used r held hashed) in
            rw (found, confirm_password_reset) (rw dead refl)
      ]

  -- A token that has reset a password is refused from then on, whatever the times and the passwords
  -- and whatever resets are asked for and confirmed in between, where no two tokens have one digest
  -- and no token that is issued later has the digest of this one.
  pub reset_once :
      (checked now again later : ℕ) (token password other : Text) (s t : ResetState d)
      (event : ResetEvent) (requests : List ResetRequest)
      → IsUniqueHash s
      → confirm_password_reset d hash_secret hash checked now token password s ≡ ok (t, event)
      → All (IsOther token) requests
      → confirm_password_reset d hash_secret hash again later token other
          (reset_run d hash_secret hash requests t)
        ≡ err (unauthorized "Invalid password reset token")
  reset_once checked now again later token password other s t event requests unique_hash h others =
      refused_of_IsUsedUp again later token other (reset_run d hash_secret hash requests t) (
        reset_run-IsUsedUp token requests t others
          (confirmed-IsUsedUp checked now token password s t event unique_hash h))
