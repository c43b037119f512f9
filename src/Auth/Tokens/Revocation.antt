-- ===== src/Auth/Tokens/Revocation.antt =====
-- A personal access token that its user has revoked, under the requests that come before and after:
-- apps/api/src/auth/services/api-tokens.service.ts with the check of auth-token.service.ts.
use moddery.Base.{
  ℕ, ◌≡◌, refl, inl, inr, sym, ap, subst, ◌∙◌, ◌++◌, Text, text, teq, eq_self, true, false, Bool,
  Option, none, Option-cases, Result-cases, List, [], ◌∷◌, All, ok, err, HttpError, unauthorized,
}
use moddery.Users.Accounts.{ApiTokenRow}
use moddery.Users.Admin.{Deps, State, is_live, is_live_token, revoke_credentials}
use moddery.Auth.Bearer.{TokenPayload, is_token_of, verify_bearer_token}
use moddery.Auth.Tokens.{
  CreateTokenInput, CreatedToken, TokenEvent, TokenRequest, creates, revokes, ends_credentials,
  token_prefix, create_viewer_token, is_own_token, with_revocation, revoke_viewer_token, token_step,
  token_run,
}
use moddery.Auth.Tokens.Lifetime.{
  IsFresh, create_viewer_token-eq-ok, hash_of_found, live_of_found, only_added, bearer_of_no_row,
  revoke-tokens,
}

module _ (d : Deps) (verify_jwt : Text → Option TokenPayload) (hash_token : Text → Text)
    (set_date : ℕ → ℕ → ℕ) (unsupported : Text → HttpError) where
  open d use {tokens}

  -- A request that creates no token with the digest of this one.
  abbrev pub IsOther : Text → TokenRequest → Type 0
  IsOther token (creates now id secret input user_id) =
      teq (hash_token (token_prefix ++ (text "_" ++ secret))) (hash_token token) ≡ false
  IsOther token (revokes now token_id user_id) = Unit
  IsOther token (ends_credentials user_id now) = Unit

  -- What holds of each row behind the token.
  abbrev Behind : Text → (ApiTokenRow → Type 0) → State d → Type 0
  Behind token P s =
      (r : ApiTokenRow) → tokens.Holds s.tokens r → teq r.token_hash (hash_token token) ≡ true → P r

  module _ (token : Text) (P : ApiTokenRow → Type 0)
      (kept : (now : ℕ) (r : ApiTokenRow) → P r → P (with_revocation now r)) where
    revoking-Behind :
        (p : ApiTokenRow → Bool) (now : ℕ) (s : State d)
        → Behind token P s
        → (r : ApiTokenRow) → tokens.Holds (tokens.update p (with_revocation now) s.tokens) r
        → teq r.token_hash (hash_token token) ≡ true
        → P r
    revoking-Behind p now s all r held hashed =
        elim ((tokens.holds_update p (with_revocation now) s.tokens r).0 held) [
          | inl (k, off) ↦ all r k hashed
          | inr (q, k, on, e) ↦ subst P (sym e) (
              kept now q (
                all q k
                  (sym (ap (λ (x : ApiTokenRow). teq x.token_hash (hash_token token)) e) ∙ hashed)))
        ]

    step-Behind :
        (request : TokenRequest) (s : State d)
        → IsOther token request
        → Behind token P s
        → Behind token P (token_step d hash_token set_date unsupported request s)
    unfolding token_step revoke_credentials
    step-Behind (creates now id secret input user_id) s other all =
        elim (Result-cases
          (create_viewer_token d hash_token set_date unsupported now id secret input user_id s)) [
            | inr (error, e) ↦ rw (e, token_step) all
            | inl ((t, reply), e) ↦
                let ((added, made, hash, id_kept, user_kept, live), scopes, expiry) =
                  create_viewer_token-eq-ok d verify_jwt hash_token set_date unsupported now id
                    secret input user_id s t reply e in
                rw (e, token_step)
                  (λ r held hashed.
                    elim ((tokens.holds_create reply.summary s.tokens r).0
                      (subst (λ (x : State d). tokens.Holds x.tokens r) added held)) [
                        | inr k ↦ all r k hashed
                        | inl same ↦
                            let digest : r.token_hash
                                ≡ hash_token (token_prefix ++ (text "_" ++ secret)) =
                              ap (λ (x : ApiTokenRow). x.token_hash) same
                              ∙ hash
                              ∙ ap hash_token made in
                            cc (
                              sym (ap (λ (x : Text). teq x (hash_token token)) digest) ∙ hashed,
                              other,
                            )
                      ])
          ]
    step-Behind (revokes now token_id user_id) s other all =
        elim (Result-cases (revoke_viewer_token d now token_id user_id s)) [
          | inr (error, e) ↦ rw (e, token_step) all
          | inl ((t, row, event), e) ↦
              let changed =
                revoke-tokens d verify_jwt hash_token now token_id user_id s t row event e in
              rw (e, token_step)
                (λ r held.
                  revoking-Behind (is_own_token token_id user_id) now s all r
                    (subst (λ (x : State d). tokens.Holds x.tokens r) changed held))
        ]
    step-Behind (ends_credentials user_id now) s other all =
        revoking-Behind (is_live_token user_id) now s all

    run-Behind :
        (requests : List TokenRequest) (s : State d)
        → All (IsOther token) requests
        → Behind token P s
        → Behind token P (token_run d hash_token set_date unsupported requests s)
    unfolding token_run
    run-Behind [] s others all = all
    run-Behind (request ∷ requests) s (other, others) all =
        run-Behind requests (token_step d hash_token set_date unsupported request s) others
          (step-Behind request s other all)

  abbrev IsRowOf : ℕ → ℕ → ApiTokenRow → Type 0
  IsRowOf id user_id r = (r.id ≡ id) × (r.user_id ≡ user_id)

  abbrev IsDead : ApiTokenRow → Type 0
  IsDead r = is_live r.revoked_at ≡ false

  created-Behind :
      (now id : ℕ) (secret : Text) (input : CreateTokenInput) (user_id : ℕ) (s t : State d)
      (reply : CreatedToken)
      → create_viewer_token d hash_token set_date unsupported now id secret input user_id s
        ≡ ok (t, reply)
      → IsFresh d verify_jwt hash_token reply.token s
      → Behind reply.token (IsRowOf id user_id) t
  created-Behind now id secret input user_id s t reply h fresh r held hashed =
      let (is_added, granted, dated) =
        create_viewer_token-eq-ok d verify_jwt hash_token set_date unsupported now id secret input
          user_id s t reply h in
      let (added, e₁, e₂, e₃, e₄, e₅) = is_added in
      let e =
        only_added d verify_jwt hash_token id user_id secret s t reply is_added fresh r held
          hashed in
      (ap (λ (x : ApiTokenRow). x.id) e ∙ e₃, ap (λ (x : ApiTokenRow). x.user_id) e ∙ e₄)

  revoked-Behind :
      (token : Text) (now id user_id : ℕ) (s t : State d) (row : ApiTokenRow) (event : TokenEvent)
      → Behind token (IsRowOf id user_id) s
      → revoke_viewer_token d now id user_id s ≡ ok (t, row, event)
      → Behind token IsDead t
  revoked-Behind token now id user_id s t row event all h r held hashed =
      let changed = revoke-tokens d verify_jwt hash_token now id user_id s t row event h in
      let mine = is_own_token id user_id in
      elim ((tokens.holds_update mine (with_revocation now) s.tokens r).0
        (subst (λ (x : State d). tokens.Holds x.tokens r) changed held)) [
          | inl (k, off) ↦
              let (e₁, e₂) = all r k hashed in
              let own : mine r ≡ true = rw (e₁, e₂) (rw (eq_self id, eq_self user_id) refl) in
              cc (own, off)
          | inr (q, k, on, e) ↦ ap (λ (x : ApiTokenRow). is_live x.revoked_at) e
        ]

  refused_of_dead :
      (token : Text) (later : ℕ) (s : State d)
      → Behind token IsDead s
      → verify_jwt token ≡ none
      → verify_bearer_token d verify_jwt hash_token later token s
        ≡ err (unauthorized "Invalid bearer token")
  refused_of_dead token later s dead no_jwt =
      let found = is_token_of d verify_jwt hash_token later token in
      elim (Option-cases (tokens.find_first found s.tokens)) [
        | inl miss ↦ bearer_of_no_row d verify_jwt hash_token later token s no_jwt miss
        | inr (r, first) ↦
            let (k, f) = tokens.find_sound found s.tokens first in
            cc (
              live_of_found d verify_jwt hash_token later token r f,
              dead r k (hash_of_found d verify_jwt hash_token later token r f),
            )
      ]

  -- A token that its user has revoked is refused from then on, at whatever time, whatever requests to
  -- create and to revoke tokens and whatever ends of a user's credentials come before the revocation
  -- and after it. The token is no JSON web token, no row had its digest when it was created, and no
  -- other token that is created has that digest.
  pub revoked_is_refused :
      (now id : ℕ) (secret : Text) (input : CreateTokenInput) (user_id revoked_at later : ℕ)
      (before after : List TokenRequest) (s t u : State d) (reply : CreatedToken)
      (row : ApiTokenRow) (event : TokenEvent)
      → create_viewer_token d hash_token set_date unsupported now id secret input user_id s
        ≡ ok (t, reply)
      → IsFresh d verify_jwt hash_token reply.token s
      → verify_jwt reply.token ≡ none
      → All (IsOther reply.token) before
      → revoke_viewer_token d revoked_at id user_id
          (token_run d hash_token set_date unsupported before t)
        ≡ ok (u, row, event)
      → All (IsOther reply.token) after
      → verify_bearer_token d verify_jwt hash_token later reply.token
          (token_run d hash_token set_date unsupported after u)
        ≡ err (unauthorized "Invalid bearer token")
  revoked_is_refused now id secret input user_id revoked_at later before after s t u reply row event
        h fresh no_jwt others h' others' =
      let token = reply.token in
      let t' = token_run d hash_token set_date unsupported before t in
      let mine =
        run-Behind token (IsRowOf id user_id) (λ at r x. x) before t others
          (created-Behind now id secret input user_id s t reply h fresh) in
      let dead =
        run-Behind token IsDead (λ at r x. refl) after u others'
          (revoked-Behind token revoked_at id user_id t' u row event mine h') in
      refused_of_dead token later (token_run d hash_token set_date unsupported after u) dead no_jwt
