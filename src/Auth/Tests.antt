-- ===== src/Auth/Tests.antt =====
-- The codec and the one-time passwords on concrete secrets; the digest of the tests is the message
-- behind the key.
use moddery.Base.{teq, ◌/◌, ℕ, ◌≡◌, refl, List, [], ◌∷◌, ◌++◌, Text, text, trim, true, arith}
use moddery.Auth.Base32.{base32_encode, base32_decode}
use moddery.Auth.Base32.RoundTrip.{base32_decode-base32_encode}
use moddery.Auth.Totp.{totp_period_ms, is_code, totp_code, verify_totp}
use moddery.Auth.Totp.Window.{totp_code-is_code, verify_totp_window}

abbrev digest : List ℕ → List ℕ → List ℕ
digest key message = key ++ message

abbrev secret : Text
secret = text "MZXW6YTBOI"

base32_decode-base32_encode_example :
    base32_decode (base32_encode (255 ∷ 0 ∷ 17 ∷ [])) ≡ 255 ∷ 0 ∷ 17 ∷ []
base32_decode-base32_encode_example = base32_decode-base32_encode (255 ∷ 0 ∷ 17 ∷ []) (omega arith)

-- "foobar" and the counter 3: the digest ends in 3, so the bytes from the offset 3 are read.
code_of_three : totp_code digest secret 3 ≡ text "553344"
unfolding totp_code base32_decode
code_of_three = refl

totp_code-is_code_example : is_code (totp_code digest secret 3) ≡ true
totp_code-is_code_example = totp_code-is_code digest secret 3

verify_totp_window_example :
    verify_totp digest (totp_code digest secret (100_000 / totp_period_ms)) secret 129_999 ≡ true
verify_totp_window_example =
    verify_totp_window digest secret 100_000 129_999 (omega arith) (omega arith) (omega arith)

taken_late : verify_totp digest (text " 553344 ") secret 125_000 ≡ true
unfolding verify_totp totp_code base32_decode trim teq
taken_late = refl

encode_foobar : base32_encode (text "foobar") ≡ text "MZXW6YTBOI"
unfolding base32_encode
encode_foobar = refl

decode_foobar : base32_decode (text "mzxw6 ytboi===") ≡ text "foobar"
unfolding base32_decode
decode_foobar = refl
