-- ===== src/Auth/Totp/Window.antt =====
-- Codes are six digits, and a code is taken for the period of its clock and the two beside it.
use native.Mathlib.Nat.{pow-suc}
use moddery.Base.{
  Bool-cases, ℕ, zero, suc, ◌+◌, ◌-◌, ◌*◌, ◌/◌, ◌%◌, ◌^◌, ◌≤◌, ◌<◌, ◌≡◌, refl, sym, List, [], ◌∷◌,
  Text, trim, IsSolid, trim_of_IsSolid, is_space, teq, teq_iff, teq_refl, ltb, ◌&&◌, ◌||◌, ◌⊎◌, inl,
  inr, Bool, true, false, length, length-append, all_of, All, All-append, arith,
}
use moddery.Auth.Totp.{
  totp_period_ms, decimal, pad_start, six_digits_of, is_digit, is_code, totp_code, verify_totp,
  totp_number,
}

abbrev AreDigits : Text → Type 0
AreDigits = All (λ c. is_digit c ≡ true)

decimal-AreDigits : (fuel n : ℕ) → AreDigits (decimal fuel n)
unfolding decimal
decimal-AreDigits zero n = (ground arith, tt)
decimal-AreDigits (suc fuel) n = elim (Bool-cases (ltb n 10)) [
  | inl small ↦ rw small (ground arith, tt)
  | inr large ↦
      rw large (
        All-append _ (decimal fuel (n / 10)) _ (decimal-AreDigits fuel (n / 10)) (ground arith, tt))
]

length-decimal : (fuel n k : ℕ) → n < 10 ^ suc k → length (decimal fuel n) ≤ suc k
unfolding decimal
length-decimal zero n k h = omega arith
length-decimal (suc fuel) n zero h = ground arith
length-decimal (suc fuel) n (suc k) h = ground (
  arith,
  length-append (decimal fuel (n / 10)) ((b'0' + n % 10) ∷ []),
  length-decimal fuel (n / 10) k (omega (arith, pow-suc 10 (suc k))),
)

pad_start-AreDigits : (missing : ℕ) (s : Text) → AreDigits s → AreDigits (pad_start missing s)
unfolding pad_start
pad_start-AreDigits zero s h = h
pad_start-AreDigits (suc missing) s h = (refl, pad_start-AreDigits missing s h)

length-pad_start : (missing : ℕ) (s : Text) → length (pad_start missing s) ≡ missing + length s
unfolding pad_start
length-pad_start zero s = omega arith
length-pad_start (suc missing) s = omega (arith, length-pad_start missing s)

all_of-AreDigits : (s : Text) → AreDigits s → all_of is_digit s ≡ true
all_of-AreDigits [] h = refl
all_of-AreDigits (c ∷ s) h = rw h.0 (all_of-AreDigits s h.1)

six_digits-AreDigits : (n : ℕ) → AreDigits (six_digits_of n)
unfolding six_digits_of
six_digits-AreDigits n = pad_start-AreDigits _ _ (decimal-AreDigits n n)

length-six_digits : (n : ℕ) → n < 1_000_000 → length (six_digits_of n) ≡ 6
unfolding six_digits_of
length-six_digits n h =
    omega (arith, length-pad_start (6 - length (decimal n n)) (decimal n n), length-decimal n n 5 h)

digits-IsSolid : (s : Text) → AreDigits s → IsSolid s
unfolding is_space
digits-IsSolid [] h = tt
digits-IsSolid (c ∷ s) h = (ground (arith, h.0), digits-IsSolid s h.1)

any-false :
    (g a b c : Bool)
    → a ≡ false
    → b ≡ false
    → c ≡ false
    → (g && (a || (b || (c || false)))) ≡ true
    → false ≡ true
any-false g a b c ha hb hc h = ground arith

module _ (hmac_sha1 : List ℕ → List ℕ → List ℕ) where
  totp_code-AreDigits :
      (secret : Text) (counter : ℕ) → AreDigits (totp_code hmac_sha1 secret counter)
  unfolding totp_code
  totp_code-AreDigits secret counter = six_digits-AreDigits (totp_number hmac_sha1 secret counter)

  -- A one-time password is always six decimal digits, whatever the digest.
  pub totp_code-is_code :
      (secret : Text) (counter : ℕ) → is_code (totp_code hmac_sha1 secret counter) ≡ true
  unfolding is_code totp_code
  totp_code-is_code secret counter =
      let n = totp_number hmac_sha1 secret counter in
      rw (length-six_digits n (omega arith)) (all_of-AreDigits _ (six_digits-AreDigits n))

  -- The code of a moment is taken at every other moment that is at most thirty seconds before or
  -- after it, once the clock is past its first thirty seconds.
  pub verify_totp_window :
      (secret : Text) (made now : ℕ)
      → totp_period_ms ≤ now
      → made ≤ now + totp_period_ms
      → now ≤ made + totp_period_ms
      → verify_totp hmac_sha1 (totp_code hmac_sha1 secret (made / totp_period_ms)) secret now ≡ true
  unfolding verify_totp
  verify_totp_window secret made now past late early =
      let k = made / totp_period_ms in
      let counter = now / totp_period_ms in
      let code = totp_code hmac_sha1 secret k in
      let whole : trim code ≡ code =
        trim_of_IsSolid code (digits-IsSolid code (totp_code-AreDigits secret k)) in
      let near : (counter - 1 ≡ k) ⊎ ((counter ≡ k) ⊎ (counter + 1 ≡ k)) = omega arith in
      rw whole (
        rw (totp_code-is_code secret k) (elim near [
          | inl e ↦ rw e (rw (teq_refl code))
          | inr (inl e) ↦ rw e (rw (teq_refl code) (ground arith))
          | inr (inr e) ↦ rw e (rw (teq_refl code) (ground arith))
        ]))

  -- A code that is taken is, white space at its ends aside, the code of a period that starts at
  -- most one period after the clock and ends less than one period before it.
  pub verify_totp_sound :
      (code secret : Text) (now : ℕ)
      → verify_totp hmac_sha1 code secret now ≡ true
      → (k : ℕ) × (trim code ≡ totp_code hmac_sha1 secret k)
        × (k * totp_period_ms ≤ now + totp_period_ms)
        × (now < k * totp_period_ms + 2 * totp_period_ms)
  unfolding verify_totp
  verify_totp_sound code secret now h = by_counter
    where
      counter : ℕ
      counter = now / totp_period_ms

      at : ℕ → Bool
      at k = teq (totp_code hmac_sha1 secret k) (trim code)

      taken :
          (k : ℕ)
          → at k ≡ true
          → k ≤ counter + 1
          → counter ≤ k + 1
          → (k : ℕ) × (trim code ≡ totp_code hmac_sha1 secret k)
            × (k * totp_period_ms ≤ now + totp_period_ms)
            × (now < k * totp_period_ms + 2 * totp_period_ms)
      taken k e up down = (k, sym ((teq_iff _ _).0 e), omega arith, omega arith)

      by_counter :
          (k : ℕ) × (trim code ≡ totp_code hmac_sha1 secret k)
          × (k * totp_period_ms ≤ now + totp_period_ms)
          × (now < k * totp_period_ms + 2 * totp_period_ms)
      by_counter = elim (Bool-cases (at (counter - 1))) [
        | inl e ↦ taken (counter - 1) e (omega arith) (omega arith)
        | inr below ↦ elim (Bool-cases (at counter)) [
          | inl e ↦ taken counter e (omega arith) (omega arith)
          | inr here ↦ elim (Bool-cases (at (counter + 1))) [
            | inl e ↦ taken (counter + 1) e (omega arith) (omega arith)
            | inr above ↦ cc (
                any-false (is_code (trim code)) (at (counter - 1)) (at counter) (at (counter + 1))
                  below here above h)
          ]
        ]
      ]
