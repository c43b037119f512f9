-- ===== src/Auth/Totp.antt =====
-- The one-time passwords of apps/api/src/auth/services/auth.service.ts. The digest of node:crypto
-- is a parameter, with the decoded secret and the counter's bytes as its arguments.
-- `& 0x0f`, `& 0x7f` and `& 0xff` are remainders, and `|` adds bytes at different places.
pub mod Window
use moddery.Base.{
  ℕ, zero, suc, ◌+◌, ◌-◌, ◌*◌, ◌/◌, ◌%◌, ◌^◌, ◌≡◌, refl, List, [], ◌∷◌, ◌++◌, Text, text, trim, teq,
  ltb, leb, ◌==◌, ◌&&◌, Bool, true, false, if◌then◌else◌, length, get_or, any_of, all_of,
}
use moddery.Auth.Base32.{base32_decode}

-- Thirty seconds, in milliseconds.
abbrev pub totp_period_ms : ℕ
totp_period_ms = 30 * 1000

-- `writeBigUInt64BE`, of a counter below 2 ^ 64.
abbrev pub counter_buffer : ℕ → List ℕ
counter_buffer counter =
    counter / 2 ^ 56 % 256
    ∷ counter / 2 ^ 48 % 256
    ∷ counter / 2 ^ 40 % 256
    ∷ counter / 2 ^ 32 % 256
    ∷ counter / 2 ^ 24 % 256
    ∷ counter / 2 ^ 16 % 256
    ∷ counter / 2 ^ 8 % 256
    ∷ counter % 256
    ∷ []

-- `buffer[index] ?? 0`.
abbrev pub byte_at : List ℕ → ℕ → ℕ
byte_at buffer index = get_or buffer index 0

-- `Number.prototype.toString`; a number has fewer digits than itself and one.
pub decimal : ℕ → ℕ → Text
decimal zero n = (b'0' + n % 10) ∷ []
decimal (suc fuel) n =
    let rest = decimal fuel (n / 10) in
    if ltb n 10 then (b'0' + n % 10) ∷ [] else rest ++ (b'0' + n % 10) ∷ []

-- `padStart(width, '0')`.
pub pad_start : ℕ → Text → Text
pad_start zero s = s
pad_start (suc missing) s = b'0' ∷ pad_start missing s

pub truncated : List ℕ → ℕ
truncated digest =
    let offset = byte_at digest (length digest - 1) % 16 in
    byte_at digest offset % 128 * 2 ^ 24
    + byte_at digest (offset + 1) % 256 * 2 ^ 16
    + byte_at digest (offset + 2) % 256 * 2 ^ 8
    + byte_at digest (offset + 3) % 256

pub six_digits_of : ℕ → Text
unfolding decimal pad_start
six_digits_of n = let s = decimal n n in pad_start (6 - length s) s

abbrev pub is_digit : ℕ → Bool
is_digit c = leb b'0' c && leb c b'9'

-- `/^[0-9]{6}$/`.
pub is_code : Text → Bool
is_code s = length s == 6 && all_of is_digit s

module _ (hmac_sha1 : List ℕ → List ℕ → List ℕ) where
  abbrev pub totp_number : Text → ℕ → ℕ
  totp_number secret counter =
      truncated (hmac_sha1 (base32_decode secret) (counter_buffer counter)) % 1_000_000

  unfoldable pub totp_code : Text → ℕ → Text
  unfolding six_digits_of truncated
  totp_code secret counter = six_digits_of (totp_number secret counter)

  -- `now` is the clock in milliseconds, past the first period: of the counter 0 the code would ask
  -- for the one before, which `writeBigUInt64BE` refuses.
  unfoldable pub verify_totp : Text → Text → ℕ → Bool
  unfolding is_code
  verify_totp code secret now =
      let normalized = trim code in
      let counter = now / totp_period_ms in
      is_code normalized
      && any_of (λ k. teq (totp_code secret k) normalized)
          ((counter - 1) ∷ counter ∷ (counter + 1) ∷ [])
