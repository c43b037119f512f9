-- ===== src/Auth/Bearer/Revocation.antt =====
-- A bearer token is worth what its row is worth, and a personal access token what its scopes grant.
use moddery.Base.{
  ℕ, ◌≡◌, ◌≢◌, ◌↔◌, ◌⊎◌, inl, inr, refl, sym, ap, ◌∙◌, subst, true, ◌==◌, ==_iff, Option, none,
  some, Text, includes, includes-Among, Among-includes, Among, ok, HttpError, unauthorized,
  or_throw, >>=-eq-ok, or_throw-eq-ok, ok_injective, Option-cases, Bool-cases, List, [], ◌∷◌, arith,
}
use moddery.Users.Accounts.{AccountStatus, active, AccountRow, SessionRow, ApiTokenRow, is_active}
use moddery.Users.Admin.{
  Deps, State, UpdateUserAccountInput, account_status, update_user_account, find_account, is_live,
}
use moddery.Users.Admin.Restrictions.{restriction_revokes}
use moddery.Auth.Bearer.{
  AuthenticatedUser, AuthMethod, api_token, session, TokenPayload, is_session_of, is_token_of,
  active_account, session_user, token_user, verify_session_access_token,
  verify_personal_access_token, verify_bearer_token, require_scopes, scopes_or,
  assert_credential_scopes,
}

module _ (d : Deps) (verify_jwt : Text → Option TokenPayload) (hash_token : Text → Text) where
  open d use {users, sessions, tokens}

  some_injective : {A : Type 0} {a b : A} → some a ≡ some b → a ≡ b
  some_injective h = cc

  live_none : (at : Option ℕ) → is_live at ≡ true → at ≡ none
  live_none none h = refl
  live_none (some at) h = cc

  active_account-id :
      (user_id : ℕ) (s : State d) (user : AccountRow)
      → active_account d verify_jwt hash_token user_id s ≡ some user
      → (user.id ≡ user_id) × (is_active user.status ≡ true)
  active_account-id user_id s user h = elim (Option-cases (find_account d user_id s.users)) [
    | inl miss ↦ cc (rw (miss, active_account) at h)
    | inr (u, found) ↦ elim (Bool-cases (is_active u.status)) [
      | inl on ↦
          let same : u ≡ user = some_injective (rw on at (rw (found, active_account) at h)) in
          let (held, fits) = users.find_sound (λ r. r.id == user_id) s.users found in
          (
            subst (λ (x : AccountRow). x.id ≡ user_id) same ((==_iff u.id user_id).0 fits),
            subst (λ (x : AccountRow). is_active x.status ≡ true) same on,
          )
      | inr off ↦ cc (rw off at (rw (found, active_account) at h))
    ]
  ]

  -- A live row of the user behind the token.
  abbrev pub IsBacked : ℕ → State d → Type 0
  IsBacked user_id s =
      ((r : SessionRow) × sessions.Holds s.sessions r
        × (r.user_id ≡ user_id)
        × (r.revoked_at ≡ none))
      ⊎ ((r : ApiTokenRow) × tokens.Holds s.tokens r
          × (r.user_id ≡ user_id)
          × (r.revoked_at ≡ none))

  session-IsBacked :
      (now : ℕ) (token : Text) (s : State d) (user : AuthenticatedUser)
      → verify_session_access_token d verify_jwt hash_token now token s ≡ some user
      → IsBacked user.id s
  unfolding verify_session_access_token
  session-IsBacked now token s user h = elim (Option-cases (verify_jwt token)) [
    | inl e ↦ cc (rw (e, verify_session_access_token) at h)
    | inr (payload, e) ↦ elim (Option-cases payload.session_id) [
      | inl e2 ↦ cc (rw e2 at (rw (e, verify_session_access_token) at h))
      | inr (id, e2) ↦
          elim (Option-cases
            (sessions.find_first (is_session_of d verify_jwt hash_token now id token) s.sessions)) [
              | inl e3 ↦ cc (rw e3 at (rw e2 at (rw (e, verify_session_access_token) at h)))
              | inr (r, e3) ↦
                  elim (Option-cases (active_account d verify_jwt hash_token r.user_id s)) [
                    | inl e4 ↦
                        cc (
                          rw e4 at (rw e3 at (rw e2 at (rw (e, verify_session_access_token) at h))))
                    | inr (account, e4) ↦
                        let (same, on) = active_account-id r.user_id s account e4 in
                        let (held, fits) =
                          sessions.find_sound (is_session_of d verify_jwt hash_token now id token)
                            s.sessions e3 in
                        let found : user ≡ session_user d verify_jwt hash_token r account = sym (
                          some_injective (
                            rw e4 at
                              (rw e3 at (rw e2 at (rw (e, verify_session_access_token) at h))))) in
                        inl (
                          r,
                          held,
                          sym same ∙ sym (ap (λ (x : AuthenticatedUser). x.id) found),
                          live_none r.revoked_at (ground arith),
                        )
                  ]
            ]
    ]
  ]

  live_token :
      (now : ℕ) (token : Text) (r : ApiTokenRow)
      → is_token_of d verify_jwt hash_token now token r ≡ true
      → is_live r.revoked_at ≡ true
  live_token now token r fits = ground arith

  token-IsBacked :
      (now : ℕ) (token : Text) (s : State d) (user : AuthenticatedUser)
      → verify_personal_access_token d verify_jwt hash_token now token s ≡ ok user
      → IsBacked user.id s
  unfolding verify_personal_access_token
  token-IsBacked now token s user h =
      let (r, found, h1) =
        >>=-eq-ok
          (or_throw (tokens.find_first (is_token_of d verify_jwt hash_token now token) s.tokens)
            (unauthorized "Invalid bearer token"))
          _ h in
      let (account, joined, h2) =
        >>=-eq-ok
          (or_throw (active_account d verify_jwt hash_token r.user_id s)
            (unauthorized "Invalid bearer token"))
          _ h1 in
      let (same, on) = active_account-id r.user_id s account (or_throw-eq-ok _ _ joined) in
      let (held, fits) =
        tokens.find_sound (is_token_of d verify_jwt hash_token now token) s.tokens
          (or_throw-eq-ok _ _ found) in
      let known : user ≡ token_user d verify_jwt hash_token r account = ok_injective h2 in
      inr (
        r,
        held,
        sym same ∙ sym (ap (λ (x : AuthenticatedUser). x.id) known),
        live_none r.revoked_at (live_token now token r fits),
      )

  bearer-IsBacked :
      (now : ℕ) (token : Text) (s : State d) (user : AuthenticatedUser)
      → verify_bearer_token d verify_jwt hash_token now token s ≡ ok user
      → IsBacked user.id s
  unfolding verify_bearer_token
  bearer-IsBacked now token s user h =
      elim (Option-cases (verify_session_access_token d verify_jwt hash_token now token s)) [
        | inl miss ↦ token-IsBacked now token s user (rw (miss, verify_bearer_token) at h)
        | inr (u, found) ↦
            session-IsBacked now token s user
              (found ∙ ap some (sym (ok_injective (rw (found, verify_bearer_token) at h))))
      ]

  -- Once an account is suspended or deleted, no bearer token stands for it any more, of a session
  -- or an API token, at whatever time: a token that is taken is another account's.
  pub restricted_is_refused :
      (now later : ℕ) (input : UpdateUserAccountInput) (actor_id : ℕ) (s t : State d)
      (u : AccountRow) (status : AccountStatus) (token : Text) (user : AuthenticatedUser)
      → update_user_account d now input actor_id s ≡ ok (t, u)
      → account_status input.status ≡ ok (some status)
      → status ≢ active
      → verify_bearer_token d verify_jwt hash_token later token t ≡ ok user
      → user.id ≢ input.user_id
  restricted_is_refused now later input actor_id s t u status token user h parsed off taken same =
      let (no_session, no_token) =
        restriction_revokes d now input actor_id s t u status h parsed off in
      elim (bearer-IsBacked later token t user taken) [
        | inl (r, held, own, live) ↦ no_session r held (own ∙ same) live
        | inr (r, held, own, live) ↦ no_token r held (own ∙ same) live
      ]

require_iff :
    (missing : Text → HttpError) (granted required : List Text)
    → (require_scopes missing granted required ≡ ok tt)
      ↔ ((scope : Text) → Among scope required → Among scope granted)
unfolding require_scopes
require_iff missing granted [] = ((λ h scope m. absurd m), λ h. refl)
require_iff missing granted (scope ∷ required) =
    let (to, back) = require_iff missing granted required in
    elim (Bool-cases (includes granted scope)) [
      | inl there ↦ (
        λ h other m. elim m [
          | inl e ↦ rw e (includes-Among granted scope there)
          | inr k ↦ to (rw (there, require_scopes) at h) other k
        ],
        λ h. rw (there, require_scopes) (back (λ other m. h other (inr m))),
      )
      | inr lacking ↦ (
        λ h. cc (rw (lacking, require_scopes) at h),
        λ h. cc (Among-includes granted scope (h scope (inl refl)), lacking),
      )
    ]

method_cases : (m : AuthMethod) → (m ≡ session) ⊎ (m ≡ api_token)
method_cases session = inl refl
method_cases api_token = inr refl

list_cases : (xs : List Text) → (xs ≡ []) ⊎ ((x : Text) × (rest : List Text) × (xs ≡ x ∷ rest))
list_cases [] = inl refl
list_cases (x ∷ rest) = inr (x, rest, refl)

-- A personal access token may do what it holds every required scope of, and nothing that requires
-- none; a session may do everything.
pub assert_credential_scopes_iff :
    (missing : Text → HttpError) (user : AuthenticatedUser) (required : Option (List Text))
    → (assert_credential_scopes missing user required ≡ ok tt) ↔ (
        (user.auth_method ≡ session)
        ⊎ ((scopes_or required ≢ [])
            × ((scope : Text)
                → Among scope (scopes_or required)
                → Among scope (scopes_or user.credential_scopes))))
unfolding assert_credential_scopes
assert_credential_scopes_iff missing user required =
    let granted = scopes_or user.credential_scopes in
    elim (method_cases user.auth_method) [
      | inl own ↦ ((λ h. inl own), λ h. rw (own, assert_credential_scopes) refl)
      | inr personal ↦ elim (list_cases (scopes_or required)) [
        | inl e ↦ (
          λ h. cc (rw e at (rw (personal, assert_credential_scopes) at h)),
          λ h. elim h [ inl own ↦ cc | inr (some_scope, all) ↦ absurd (some_scope e) ],
        )
        | inr (scope, rest, e) ↦
            let (to, back) = require_iff missing granted (scope ∷ rest) in
            (
              λ h. inr (
                (λ none_left. cc),
                subst (λ xs. (x : Text) → Among x xs → Among x granted) (sym e)
                    (to (rw e at (rw (personal, assert_credential_scopes) at h))),
              ),
              λ h. elim h [
                | inl own ↦ cc
                | inr (some_scope, all) ↦
                    rw (personal, assert_credential_scopes)
                      (rw e (back (subst (λ xs. (x : Text) → Among x xs → Among x granted) e all)))
              ],
            )
      ]
    ]
