-- ===== src/Users/Admin/Restrictions.antt =====
-- What a change of an account revokes, and that no administrator is lost to it.
use moddery.Base.{
  ℕ, ◌≡◌, ◌≢◌, ◌⊎◌, inl, inr, refl, sym, ap, ◌∙◌, subst, Bool, true, false, ◌==◌, ◌&&◌, ◌||◌,
  ==_iff, Bool-cases, Option, none, some, ok, forbidden, not_found, or_throw, throw_if, >>=-eq-ok,
  >>-eq-ok, throw_if-eq-ok, ok-first, ok_injective, List, ◌∷◌, ◌++◌, arith,
}
use moddery.Users.Accounts.{
  AccountStatus, active, suspended, deleted, AccountRole, user, moderator, admin, AccountRow,
  SessionRow, ApiTokenRow,
}
use moddery.Users.Admin.{
  Deps, State, UpdateUserAccountInput, AdminEvent, account_updated, security_events, account_role,
  account_status, demotes, restricts, with_access, role_or, status_or, is_live, is_live_session,
  is_live_token, revoked_session, revoked_token, find_account, revoke_credentials, written,
  update_user_account,
}

module _ (d : Deps) where
  open d use {users, sessions, tokens}

  abbrev Committed : ℕ → UpdateUserAccountInput → ℕ → State d → State d → Type 0
  Committed now input actor_id s t =
      (role : Option AccountRole) × (status : Option AccountStatus) × (account_role input.role
        ≡ ok role)
      × (account_status input.status ≡ ok status)
      × ((input.user_id == actor_id && (demotes role || restricts status)) ≡ false)
      × (events : List AdminEvent) × (t
          ≡ record (written d role status input.user_id now s) { events = events })

  update-eq-ok :
      (now : ℕ) (input : UpdateUserAccountInput) (actor_id : ℕ) (s t : State d) (u : AccountRow)
      → update_user_account d now input actor_id s ≡ ok (t, u)
      → Committed now input actor_id s t
  unfolding update_user_account
  update-eq-ok now input actor_id s t u h =
      let (role, role_parsed, h1) = >>=-eq-ok (account_role input.role) _ h in
      let (status, status_parsed, h2) = >>=-eq-ok (account_status input.status) _ h1 in
      let (guard, h3) =
        >>-eq-ok
          (throw_if (input.user_id == actor_id && (demotes role || restricts status))
            (forbidden "Admins cannot restrict their own account"))
          _ h2 in
      let (before, found, h4) =
        >>=-eq-ok (or_throw (find_account d input.user_id s.users) (not_found "User not found")) _
          h3 in
      let (updated, again, h5) =
        >>=-eq-ok
          (or_throw (find_account d input.user_id (written d role status input.user_id now s).users)
            (not_found "User not found"))
          _ h4 in
      (
        role,
        status,
        role_parsed,
        status_parsed,
        throw_if-eq-ok _ _ guard,
        (s.events
            ++ (account_updated actor_id input.user_id before.role updated.role before.status
                  updated.status
                ∷ security_events d status actor_id input.user_id s)),
        ok-first h5,
      )

  module _ (role : Option AccountRole) (status : Option AccountStatus) (user_id now : ℕ)
      (s : State d) where
    written_users :
        (written d role status user_id now s).users
        ≡ users.update (λ r. r.id == user_id) (with_access role status) s.users
    unfolding revoke_credentials
    written_users = elim (Bool-cases (restricts status)) [ inl e ↦ rw e refl | inr e ↦ rw e refl ]

    written_sessions :
        restricts status ≡ true
        → (written d role status user_id now s).sessions
          ≡ sessions.update (is_live_session user_id) (revoked_session now) s.sessions
    unfolding revoke_credentials
    written_sessions e = rw e refl

    written_tokens :
        restricts status ≡ true
        → (written d role status user_id now s).tokens
          ≡ tokens.update (is_live_token user_id) (revoked_token now) s.tokens
    unfolding revoke_credentials
    written_tokens e = rw e refl

  live_or_not : (at : Option ℕ) → is_live at ≡ false → at ≢ none
  live_or_not none h = λ e. cc
  live_or_not (some at) h = λ e. cc

  live_none : (at : Option ℕ) → is_live at ≡ true → at ≡ none
  live_none none h = refl
  live_none (some at) h = cc

  pub sessions_revoked :
      (user_id now : ℕ) (s : sessions.Store) (r : SessionRow)
      → sessions.Holds (sessions.update (is_live_session user_id) (revoked_session now) s) r
      → r.user_id ≡ user_id
      → r.revoked_at ≢ none
  sessions_revoked user_id now s r h mine =
      elim ((sessions.holds_update (is_live_session user_id) (revoked_session now) s r).0 h) [
        | inl (k, off) ↦
            live_or_not r.revoked_at (ground (arith, (==_iff r.user_id user_id).1 mine))
        | inr (q, k, fits, e) ↦ λ gone. cc
      ]

  pub tokens_revoked :
      (user_id now : ℕ) (s : tokens.Store) (r : ApiTokenRow)
      → tokens.Holds (tokens.update (is_live_token user_id) (revoked_token now) s) r
      → r.user_id ≡ user_id
      → r.revoked_at ≢ none
  tokens_revoked user_id now s r h mine =
      elim ((tokens.holds_update (is_live_token user_id) (revoked_token now) s r).0 h) [
        | inl (k, off) ↦
            live_or_not r.revoked_at (ground (arith, (==_iff r.user_id user_id).1 mine))
        | inr (q, k, fits, e) ↦ λ gone. cc
      ]

  restricts_of_ne : (status : AccountStatus) → status ≢ active → restricts (some status) ≡ true
  restricts_of_ne active h = absurd (h refl)
  restricts_of_ne suspended h = refl
  restricts_of_ne deleted h = refl

  -- An account that is suspended or deleted has no live credential left: each of its sessions and
  -- of its API tokens is revoked.
  pub restriction_revokes :
      (now : ℕ) (input : UpdateUserAccountInput) (actor_id : ℕ) (s t : State d) (u : AccountRow)
      (status : AccountStatus)
      → update_user_account d now input actor_id s ≡ ok (t, u)
      → account_status input.status ≡ ok (some status)
      → status ≢ active
      → ((r : SessionRow)
          → sessions.Holds t.sessions r
          → r.user_id ≡ input.user_id
          → r.revoked_at ≢ none)
        × ((r : ApiTokenRow)
            → tokens.Holds t.tokens r
            → r.user_id ≡ input.user_id
            → r.revoked_at ≢ none)
  restriction_revokes now input actor_id s t u status h parsed off =
      let (role, st, role_parsed, st_parsed, guard, events, e) =
        update-eq-ok now input actor_id s t u h in
      let same : st ≡ some status = ok_injective (sym parsed ∙ st_parsed) in
      let strict : restricts st ≡ true = rw same (restricts_of_ne status off) in
      let e_sessions =
        ap (λ (x : State d). x.sessions) e ∙ written_sessions role st input.user_id now s strict in
      let e_tokens =
        ap (λ (x : State d). x.tokens) e ∙ written_tokens role st input.user_id now s strict in
      (
        (λ r k mine.
            sessions_revoked input.user_id now s.sessions r
              (subst (λ x. sessions.Holds x r) e_sessions k) mine),
        λ r k mine.
            tokens_revoked input.user_id now s.tokens r (subst (λ x. tokens.Holds x r) e_tokens k)
              mine,
      )

  neither : (p q : Bool) → (p || q) ≡ false → (p ≡ false) × (q ≡ false)
  neither true q h = cc
  neither false q h = (refl, h)

  guarded : (p q : Bool) → p ≡ true → (p && q) ≡ false → q ≡ false
  guarded true q e h = h
  guarded false q e h = cc

  role_stays :
      (role : Option AccountRole) (old : AccountRole)
      → old ≡ admin
      → demotes role ≡ false
      → role_or role old ≡ old
  role_stays none old e h = refl
  role_stays (some user) old e h = cc
  role_stays (some moderator) old e h = cc
  role_stays (some admin) old e h = sym e

  status_stays :
      (status : Option AccountStatus) (old : AccountStatus)
      → old ≡ active
      → restricts status ≡ false
      → status_or status old ≡ old
  status_stays none old e h = refl
  status_stays (some active) old e h = sym e
  status_stays (some suspended) old e h = cc
  status_stays (some deleted) old e h = cc

  -- An administrator's own call leaves that administrator's row as it was.
  own_row :
      (role : Option AccountRole) (status : Option AccountStatus) (a : AccountRow)
      → a.role ≡ admin
      → a.status ≡ active
      → (demotes role || restricts status) ≡ false
      → with_access role status a ≡ a
  own_row role status a is_a is_b guard =
      let (stays, lives) = neither (demotes role) (restricts status) guard in
      rw (role_stays role a.role is_a stays) (rw (status_stays status a.status is_b lives) refl)

  -- An active administrator is still one after each of their own calls, whatever the call: the row
  -- of the caller is kept. So the administrators cannot lock themselves out one by one.
  pub admins_remain :
      (now : ℕ) (input : UpdateUserAccountInput) (a : AccountRow) (s t : State d) (u : AccountRow)
      → users.Holds s.users a
      → a.role ≡ admin
      → a.status ≡ active
      → update_user_account d now input a.id s ≡ ok (t, u)
      → users.Holds t.users a
  admins_remain now input a s t u held is_a is_b h =
      let (role, status, role_parsed, st_parsed, guard, events, e) =
        update-eq-ok now input a.id s t u h in
      let e_users =
        ap (λ (x : State d). x.users) e ∙ written_users role status input.user_id now s in
      let step =
        users.holds_update (λ r. r.id == input.user_id) (with_access role status) s.users a in
      subst (λ x. users.Holds x a) (sym e_users)
        (step.1 (elim (Bool-cases (a.id == input.user_id)) [
          | inl own ↦ inr (
            a,
            held,
            own,
            sym (
                own_row role status a is_a is_b
                  (guarded (input.user_id == a.id) _ (ground arith) guard)),
          )
          | inr other ↦ inl (held, other)
        ]))

  -- A change of an account never makes a revoked session live again, removes one or adds one: each
  -- session afterwards is one from before, the same unless it was live and is now revoked.
  pub sessions_stay_revoked :
      (now : ℕ) (input : UpdateUserAccountInput) (actor_id : ℕ) (s t : State d) (u : AccountRow)
      → update_user_account d now input actor_id s ≡ ok (t, u)
      → (r : SessionRow) → sessions.Holds t.sessions r
      → (q : SessionRow) × sessions.Holds s.sessions q
        × ((r ≡ q) ⊎ ((q.revoked_at ≡ none) × (r ≡ revoked_session now q)))
  unfolding revoke_credentials
  sessions_stay_revoked now input actor_id s t u h r k =
      let (role, status, role_parsed, st_parsed, guard, events, e) =
        update-eq-ok now input actor_id s t u h in
      let e_sessions = ap (λ (x : State d). x.sessions) e in
      let k2 = subst (λ x. sessions.Holds x r) e_sessions k in
      elim (Bool-cases (restricts status)) [
        | inl strict ↦
            let k3 =
              subst (λ x. sessions.Holds x r)
                (written_sessions role status input.user_id now s strict) k2 in
            elim ((sessions.holds_update (is_live_session input.user_id) (revoked_session now)
                s.sessions r).0
              k3) [
                | inl (held, off) ↦ (r, held, inl refl)
                | inr (q, held, fits, same) ↦
                    (q, held, inr (live_none q.revoked_at (ground arith), same))
              ]
        | inr lax ↦ (r, rw (lax, written) at k2, inl refl)
      ]
