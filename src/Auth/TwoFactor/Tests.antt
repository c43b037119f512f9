-- ===== src/Auth/TwoFactor/Tests.antt =====
-- An account with the second factor on, in a table kept in memory. The comparison of passwords is
-- equality, and the digest is the message behind the key.
use moddery.Base.{
  ◌/◌, ◌++◌, ◌≡◌, ◌≢◌, refl, inl, inr, ap, none, some, List, [], ◌∷◌, ok, err, text, teq, trim,
  Text, Among, unauthorized, true, false, arith,
}
use moddery.Database.Memory.{memory}
use moddery.Users.Accounts.{active}
use moddery.Auth.Base32.{base32_decode}
use moddery.Auth.Totp.{totp_period_ms, totp_code, verify_totp}
use moddery.Auth.TwoFactor.{LoginRow, LoginInput, Deps, login, setup_two_factor, disable_two_factor}
use moddery.Auth.TwoFactor.Takeover.{IsAdmitted, login_lem, setup_locks_out, setup_bypasses_factor}

abbrev deps : Deps
deps = record {
  users = memory LoginRow;
  same_name = teq;
  compare = teq;
  hmac_sha1 = λ key message. key ++ message;
}

abbrev ann : LoginRow
ann = record {
  id = 1;
  username = text "ann";
  email = none;
  status = active;
  password_hash = some (text "pw");
  two_factor_enabled = true;
  totp_secret = some (record { secret = text "MZXW6YTBOI"; confirmed_at = some 5 });
}

abbrev bob : LoginRow
bob = record ann { id = 2; username = text "bob"; two_factor_enabled = false; totp_secret = none }

abbrev table : List LoginRow
table = ann ∷ bob ∷ []

abbrev input : Text → Text → LoginInput
input name code = record { identifier = name; password = text "pw"; two_factor_code = some code }

let_in : login deps 125_000 (input (text " ann") (text "553344")) table ≡ ok ann
unfolding login verify_totp totp_code base32_decode trim teq
let_in = refl

wrong_code_test :
    login deps 125_000 (input (text "ann") (text "553345")) table
    ≡ err (unauthorized "Invalid two-factor code")
unfolding login verify_totp totp_code base32_decode trim teq
wrong_code_test = refl

login_lem_example : IsAdmitted deps 125_000 (input (text " ann") (text "553344")) table ann
login_lem_example = login_lem deps 125_000 (input (text " ann") (text "553344")) table ann let_in

ann_is_on : (q : LoginRow) → Among q table → q.id ≡ 1 → q.two_factor_enabled ≡ true
ann_is_on q (inl e) mine = ap (λ (x : LoginRow). x.two_factor_enabled) e
ann_is_on q (inr (inl e)) mine = let two = ap (λ (x : LoginRow). x.id) e in absurd (omega arith)
ann_is_on q (inr (inr m)) mine = absurd m

-- Ann sets up a new secret, and her own is not taken any more.
ann_locked_out :
    login deps 125_000
      (input (text " ann") (text "553344"))
      (setup_two_factor deps (text "foobar") 1 table).0
    ≡ err (unauthorized "Invalid two-factor code")
unfolding login setup_two_factor verify_totp totp_code base32_decode trim teq
ann_locked_out = refl

bob_let_in :
    login deps 125_000 (input (text "bob") []) (setup_two_factor deps (text "foobar") 1 table).0
    ≡ ok bob
unfolding login setup_two_factor verify_totp trim teq
bob_let_in = refl

setup_locks_out_example : bob.id ≢ 1
setup_locks_out_example =
    setup_locks_out deps (text "foobar") 1 125_000 (input (text "bob") []) table bob ann_is_on
      bob_let_in

setup_bypasses_factor_example :
    (t : List LoginRow) × (disable_two_factor deps 125_000 1
        (totp_code deps.hmac_sha1
          (setup_two_factor deps (text "foobar") 1 table).1
          (125_000 / totp_period_ms))
        (setup_two_factor deps (text "foobar") 1 table).0
      ≡ ok t)
    × ((q : LoginRow)
        → Among q t
        → q.id ≡ 1
        → (q.two_factor_enabled ≡ false) × (q.totp_secret ≡ none))
setup_bypasses_factor_example =
    setup_bypasses_factor deps (text "foobar") 1 125_000 table ann (omega arith) (inl refl) refl
