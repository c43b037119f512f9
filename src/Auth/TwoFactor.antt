-- ===== src/Auth/TwoFactor.antt =====
-- The password and the second factor of apps/api/src/auth/services/auth.service.ts: the checks of
-- `login`, and the handlers that set the second factor up, turn it on and turn it off. The one
-- row that an account has of its password and of its secret stands in the row of the account.
pub mod Takeover
pub mod Tests
use moddery.Base.{
  ℕ, ◌≡◌, List, [], ◌∷◌, Option, none, some, Text, text, trim, ◌==◌, ◌&&◌, ◌||◌, Bool, true, false,
  not, Result, ok, err, unauthorized, internal_error, ◌>>=◌, ◌>>◌, or_throw, throw_if,
  if◌then◌else◌,
}
use moddery.Database.{Table}
use moddery.Users.Accounts.{AccountStatus, is_active}
use moddery.Auth.Base32.{base32_encode}
use moddery.Auth.Totp.{verify_totp}

pub record TotpSecret : Type 0 where
  pub secret : Text
  pub confirmed_at : Option ℕ

pub record LoginRow : Type 0 where
  pub id : ℕ
  pub username : Text
  pub email : Option Text
  pub status : AccountStatus
  pub password_hash : Option Text
  pub two_factor_enabled : Bool
  pub totp_secret : Option TotpSecret

pub record LoginInput : Type 0 where
  pub identifier : Text
  pub password : Text
  pub two_factor_code : Option Text

pub record Deps : Type 1 where
  pub users : Table LoginRow
  pub same_name : Text → Text → Bool
  -- `compare` of bcrypt.
  pub compare : Text → Text → Bool
  pub hmac_sha1 : List ℕ → List ℕ → List ℕ

module _ (d : Deps) where
  abbrev pub is_named : Text → LoginRow → Bool
  is_named identifier r =
      (d.same_name r.username identifier
        || (elim r.email [ none ↦ false | some email ↦ d.same_name email identifier ]))
      && is_active r.status

  -- `totpSecret`: the secret, once it was confirmed.
  abbrev pub confirmed_secret : LoginRow → Option Text
  confirmed_secret r = elim r.totp_secret [
    | none ↦ none
    | some t ↦ elim t.confirmed_at [ none ↦ none | some at ↦ some t.secret ]
  ]

  -- `input.twoFactorCode ?? ''`.
  abbrev pub code_of : Option Text → Text
  code_of none = []
  code_of (some code) = code

  abbrev pub is_second_factor : Text → ℕ → Option Text → Bool
  is_second_factor code now none = false
  is_second_factor code now (some secret) = verify_totp d.hmac_sha1 code secret now

  -- `login` up to the session that it creates: the account that is let in.
  unfoldable pub login : ℕ → LoginInput → d.users.Store → Result LoginRow
  login now input s = do
    user ←
        or_throw (d.users.find_first (is_named (trim input.identifier)) s)
          (unauthorized "Invalid credentials")
    password_hash ← or_throw user.password_hash (unauthorized "Invalid credentials")
    throw_if (not (d.compare input.password password_hash)) (unauthorized "Invalid credentials")
    throw_if
        (user.two_factor_enabled
          && not (is_second_factor (code_of input.two_factor_code) now (confirmed_secret user)))
        (unauthorized "Invalid two-factor code")
    ok user

  abbrev pub has_id : ℕ → LoginRow → Bool
  has_id id r = r.id == id

  -- The upsert of `setupTwoFactor`, for a new secret.
  abbrev pub with_secret : Text → LoginRow → LoginRow
  with_secret secret r = record r {
    totp_secret = some (record { secret = secret; confirmed_at = none });
  }

  -- `random` is what `randomBytes(20)` returns.
  unfoldable pub setup_two_factor : List ℕ → ℕ → d.users.Store → d.users.Store × Text
  setup_two_factor random user_id s =
      let secret = base32_encode random in
      (d.users.update (has_id user_id) (with_secret secret) s, secret)

  -- `findUnique` of the secret by its user.
  abbrev pub find_secret : ℕ → d.users.Store → Option TotpSecret
  find_secret user_id s = elim (d.users.find_first (has_id user_id) s) [
    | none ↦ none
    | some r ↦ r.totp_secret
  ]

  -- `totpSecret === null || !verifyTotp(code, totpSecret.secret)`.
  abbrev pub is_refused : Text → ℕ → Option TotpSecret → Bool
  is_refused code now none = true
  is_refused code now (some t) = not (verify_totp d.hmac_sha1 code t.secret now)

  abbrev pub turned_on : ℕ → LoginRow → LoginRow
  turned_on now r = record r {
    totp_secret = elim r.totp_secret [
      | none ↦ none
      | some t ↦ some (record t { confirmed_at = some now })
    ];
    two_factor_enabled = true;
  }

  abbrev pub turned_off : LoginRow → LoginRow
  turned_off r = record r { totp_secret = none; two_factor_enabled = false }

  unfoldable pub enable_two_factor : ℕ → ℕ → Text → d.users.Store → Result d.users.Store
  enable_two_factor now user_id code s = do
    throw_if (is_refused code now (find_secret user_id s)) (unauthorized "Invalid two-factor code")
    ok (d.users.update (has_id user_id) (turned_on now) s)

  unfoldable pub disable_two_factor : ℕ → ℕ → Text → d.users.Store → Result d.users.Store
  disable_two_factor now user_id code s = do
    throw_if (is_refused code now (find_secret user_id s)) (unauthorized "Invalid two-factor code")
    ok (d.users.update (has_id user_id) turned_off s)
