-- ===== src/Auth/TwoFactor/Takeover.antt =====
-- What the second factor protects, and what it does not.
use moddery.Base.{
  ℕ, ◌/◌, ◌≤◌, ◌≡◌, ◌≢◌, ◌⊎◌, inl, inr, refl, sym, ap, ◌∙◌, subst, List, Option, none, some, Text,
  trim, ==_iff, ◌&&◌, Bool, true, false, not, ok, unauthorized, ◌>>◌, or_throw, throw_if, >>=-eq-ok,
  >>-eq-ok, or_throw-eq-ok, throw_if-eq-ok, ok_injective, Option-cases, arith,
}
use moddery.Auth.Base32.{base32_encode}
use moddery.Auth.Totp.{totp_period_ms, totp_code, verify_totp}
use moddery.Auth.Totp.Window.{verify_totp_window}
use moddery.Auth.TwoFactor.{
  TotpSecret, LoginRow, LoginInput, Deps, is_named, confirmed_secret, code_of, is_second_factor,
  login, has_id, with_secret, setup_two_factor, find_secret, is_refused, turned_off,
  disable_two_factor,
}

module _ (d : Deps) where
  open d use {users}
  open users use {Store, Holds}

  not-false : (p : Bool) → not p ≡ false → p ≡ true
  not-false true h = refl
  not-false false h = cc

  none-some : (a : Text) → none ≢ some a
  none-some a e = cc

  passed : (on factor : Bool) → (on && not factor) ≡ false → (on ≡ false) ⊎ (factor ≡ true)
  passed true factor h = inr (not-false factor h)
  passed false factor h = inl refl

  factor_secret :
      (code : Text) (now : ℕ) (o : Option Text)
      → is_second_factor d code now o ≡ true
      → (secret : Text) × (o ≡ some secret) × (verify_totp d.hmac_sha1 code secret now ≡ true)
  factor_secret code now none h = cc
  factor_secret code now (some secret) h = (secret, refl, h)

  -- An account that may be let in.
  abbrev pub IsAdmitted : ℕ → LoginInput → Store → LoginRow → Type 0
  IsAdmitted now input s r =
      Holds s r
      × (is_named d (trim input.identifier) r ≡ true)
      × ((password_hash : Text) × (r.password_hash ≡ some password_hash)
          × (d.compare input.password password_hash ≡ true))
      × ((r.two_factor_enabled ≡ false)
          ⊎ ((secret : Text) × (confirmed_secret d r ≡ some secret)
              × (verify_totp d.hmac_sha1 (code_of d input.two_factor_code) secret now ≡ true)))

  by_factor :
      (now : ℕ) (input : LoginInput) (r : LoginRow)
      → (r.two_factor_enabled
          && not (is_second_factor d (code_of d input.two_factor_code) now (confirmed_secret d r)))
        ≡ false
      → (r.two_factor_enabled ≡ false)
        ⊎ ((secret : Text) × (confirmed_secret d r ≡ some secret)
            × (verify_totp d.hmac_sha1 (code_of d input.two_factor_code) secret now ≡ true))
  by_factor now input r h = elim (passed r.two_factor_enabled _ h) [
    | inl off ↦ inl off
    | inr right ↦
        inr (factor_secret (code_of d input.two_factor_code) now (confirmed_secret d r) right)
  ]

  -- Whoever is let in named an active account, gave its password and, where the account has the
  -- second factor on, a code that the confirmed secret verifies.
  pub login_lem :
      (now : ℕ) (input : LoginInput) (s : Store) (r : LoginRow)
      → login d now input s ≡ ok r
      → IsAdmitted now input s r
  unfolding login
  login_lem now input s r h =
      let (user, found, h1) = >>=-eq-ok _ _ h in
      let (password_hash, has, h2) =
        >>=-eq-ok (or_throw user.password_hash (unauthorized "Invalid credentials")) _ h1 in
      let (right, h3) =
        >>-eq-ok
          (throw_if (not (d.compare input.password password_hash))
            (unauthorized "Invalid credentials"))
          _ h2 in
      let (second, h4) =
        >>-eq-ok
          (throw_if
            (user.two_factor_enabled
              && not (
                  is_second_factor d (code_of d input.two_factor_code) now
                    (confirmed_secret d user)))
            (unauthorized "Invalid two-factor code"))
          _ h3 in
      let same : r ≡ user = ok_injective h4 in
      let (held, fits) = users.find_sound _ s (or_throw-eq-ok _ _ found) in
      subst (IsAdmitted now input s) (sym same) (
        held,
        fits,
        (
          password_hash,
          or_throw-eq-ok user.password_hash _ has,
          not-false (d.compare input.password password_hash) (throw_if-eq-ok _ _ right),
        ),
        by_factor now input user (throw_if-eq-ok _ _ second),
      )

  -- The rows of the account after a new secret was set up hold that secret, not confirmed.
  set_up :
      (random : List ℕ) (user_id : ℕ) (s : Store) (r : LoginRow)
      → Holds (setup_two_factor d random user_id s).0 r
      → has_id d user_id r ≡ true
      → (q : LoginRow) × Holds s q
        × (has_id d user_id q ≡ true)
        × (r ≡ with_secret d (base32_encode random) q)
  unfolding setup_two_factor
  set_up random user_id s r h mine =
      elim ((users.holds_update (has_id d user_id) (with_secret d (base32_encode random)) s r).0
        h) [ inl (k, off) ↦ cc | inr changed ↦ changed ]

  let_in_without_factor :
      (random : List ℕ) (user_id now : ℕ) (input : LoginInput) (s : Store) (r : LoginRow)
      → r.id ≡ user_id
      → login d now input (setup_two_factor d random user_id s).0 ≡ ok r
      → r.two_factor_enabled ≡ false
  let_in_without_factor random user_id now input s r mine h =
      let (held, named, password, factor) =
        login_lem now input (setup_two_factor d random user_id s).0 r h in
      let (q, k, same, e) = set_up random user_id s r held ((==_iff r.id user_id).1 mine) in
      elim factor [
        | inl off ↦ off
        | inr (secret, confirmed, right) ↦
            let pending : confirmed_secret d r ≡ none = rw e refl in
            absurd (none-some secret (sym pending ∙ confirmed))
      ]

  -- Setting up a new secret for an account that has the second factor on closes it to every login,
  -- whatever the time, the password and the code: who is let in is another account.
  pub setup_locks_out :
      (random : List ℕ) (user_id now : ℕ) (input : LoginInput) (s : Store) (r : LoginRow)
      → ((q : LoginRow) → Holds s q → q.id ≡ user_id → q.two_factor_enabled ≡ true)
      → login d now input (setup_two_factor d random user_id s).0 ≡ ok r
      → r.id ≢ user_id
  setup_locks_out random user_id now input s r on h mine =
      let off = let_in_without_factor random user_id now input s r mine h in
      let held = (login_lem now input (setup_two_factor d random user_id s).0 r h).0 in
      let (q, k, same, e) = set_up random user_id s r held ((==_iff r.id user_id).1 mine) in
      let kept = ap (λ (x : LoginRow). x.two_factor_enabled) e in
      cc (off, on q k ((==_iff q.id user_id).0 same))

  new_secret_found :
      (random : List ℕ) (user_id : ℕ) (s : Store) (r : LoginRow)
      → Holds s r
      → r.id ≡ user_id
      → find_secret d user_id (setup_two_factor d random user_id s).0
        ≡ some (record { secret = base32_encode random; confirmed_at = none })
  unfolding setup_two_factor
  new_secret_found random user_id s r held mine =
      let p = has_id d user_id in
      let f = with_secret d (base32_encode random) in
      let t = users.update p f s in
      elim (Option-cases (users.find_first p t)) [
        | inl miss ↦
            let there =
              (users.holds_update p f s (f r)).1
                (inr (r, held, (==_iff r.id user_id).1 mine, refl)) in
            let off = users.find_complete p t miss (f r) there in cc ((==_iff r.id user_id).1 mine)
        | inr (q, found) ↦
            let (k, fits) = users.find_sound p t found in
            let (q0, k0, same, e) = set_up random user_id s q k fits in
            rw (found, find_secret) (ap (λ (x : LoginRow). x.totp_secret) e)
      ]

  disable_ok :
      (now user_id : ℕ) (code : Text) (t : Store) (o : TotpSecret)
      → find_secret d user_id t ≡ some o
      → verify_totp d.hmac_sha1 code o.secret now ≡ true
      → disable_two_factor d now user_id code t
        ≡ ok (users.update (has_id d user_id) (turned_off d) t)
  unfolding disable_two_factor
  disable_ok now user_id code t o found right =
      let let_in : is_refused d code now (find_secret d user_id t) ≡ false =
        ap (is_refused d code now) found ∙ ap not right in
      ap
        (λ b.
          throw_if b (unauthorized "Invalid two-factor code")
          >> ok (users.update (has_id d user_id) (turned_off d) t))
        let_in

  -- The old second factor is no protection against who holds a session: setting up a new secret
  -- returns it, and its code turns the second factor off, at every time past the first thirty
  -- seconds of the clock. No code of the secret that protected the account is asked for.
  pub setup_bypasses_factor :
      (random : List ℕ) (user_id now : ℕ) (s : Store) (r : LoginRow)
      → totp_period_ms ≤ now
      → Holds s r
      → r.id ≡ user_id
      → (t : Store) × (disable_two_factor d now user_id
            (totp_code d.hmac_sha1 (setup_two_factor d random user_id s).1 (now / totp_period_ms))
            (setup_two_factor d random user_id s).0
          ≡ ok t)
        × ((q : LoginRow)
            → Holds t q
            → q.id ≡ user_id
            → (q.two_factor_enabled ≡ false) × (q.totp_secret ≡ none))
  unfolding setup_two_factor
  setup_bypasses_factor random user_id now s r past held mine =
      let t = (setup_two_factor d random user_id s).0 in
      let found = new_secret_found random user_id s r held mine in
      let right =
        verify_totp_window d.hmac_sha1 (base32_encode random) now now past (omega arith)
          (omega arith) in
      (
        users.update (has_id d user_id) (turned_off d) t,
        disable_ok now user_id _ t (record { secret = base32_encode random; confirmed_at = none })
            found right,
        λ q h own. elim ((users.holds_update (has_id d user_id) (turned_off d) t q).0 h) [
          | inl (k, off) ↦ cc ((==_iff q.id user_id).1 own)
          | inr (q0, k, fits, e) ↦ (
            ap (λ (x : LoginRow). x.two_factor_enabled) e,
            ap (λ (x : LoginRow). x.totp_secret) e,
          )
        ],
      )
