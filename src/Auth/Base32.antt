-- ===== src/Auth/Base32.antt =====
-- The base-32 codec of apps/api/src/auth/services/auth.service.ts, for the secrets of two-factor
-- authentication. A 32-bit integer of JavaScript is the number below 2 ^ 32 with its bits: `<<`
-- drops what leaves the word, `>>> n` divides, `& 31` and `& 0xff` are remainders, and `|` adds,
-- since the low bits of the shifted word are zero.
pub mod RoundTrip
use moddery.Base.{
  strip_trailing, ℕ, zero, suc, ◌+◌, ◌-◌, ◌*◌, ◌/◌, ◌%◌, ◌^◌, ◌≡◌, refl, List, [], ◌∷◌, ◌++◌,
  Option, none, some, Text, text, to_upper, upper_unit, ltb, leb, ◌==◌, ◌&&◌, Bool, true, false,
  if◌then◌else◌, map,
}

abbrev pub base32_alphabet : Text
base32_alphabet = text "ABCDEFGHIJKLMNOPQRSTUVWXYZ234567"

-- `value << n` on a 32-bit integer.
abbrev pub shift_left : ℕ → ℕ → ℕ
shift_left value n = value * 2 ^ n % 2 ^ 32

-- The inner `while (bits >= 5)`: the digits that it puts out, and the bits that are left. Each
-- round takes five bits, so `bits` rounds are enough.
pub flush : ℕ → ℕ → ℕ → List ℕ × ℕ
flush zero bits value = ([], bits)
flush (suc fuel) bits value =
    let rest = flush fuel (bits - 5) value in
    if leb 5 bits then (value / 2 ^ (bits - 5) % 32 ∷ rest.0, rest.1) else ([], bits)

-- The digits of the outer loop, and the last one.
pub encode_from : ℕ → ℕ → List ℕ → List ℕ
unfolding flush
encode_from bits value [] = if ltb 0 bits then shift_left value (5 - bits) % 32 ∷ [] else []
encode_from bits value (byte ∷ bytes) =
    let value' = shift_left value 8 + byte in
    let flushed = flush (bits + 8) (bits + 8) value' in
    flushed.0 ++ encode_from flushed.1 value' bytes

-- `base32Alphabet[index] ?? ''`.
pub base32_character : ℕ → Text → Text
base32_character index [] = []
base32_character zero (c ∷ s) = c ∷ []
base32_character (suc index) (c ∷ s) = base32_character index s

pub characters : List ℕ → Text
unfolding base32_character
characters [] = []
characters (d ∷ ds) = base32_character d base32_alphabet ++ characters ds

unfoldable pub base32_encode : List ℕ → Text
unfolding encode_from characters
base32_encode bytes = characters (encode_from 0 0 bytes)

-- `replace(/=+$/g, '')`.
pub strip_padding : Text → Text
unfolding strip_trailing
strip_padding s = strip_trailing b'=' s

-- `indexOf`, with `none` for -1.
pub index_of : ℕ → Text → Option ℕ
index_of c [] = none
index_of c (d ∷ s) = elim (d == c) [
  | true ↦ some 0
  | false ↦ elim (index_of c s) [ none ↦ none | some i ↦ some (suc i) ]
]

-- One round of the decoder's loop with a digit: what it puts out and the bits that are left.
abbrev pub decode_bits : ℕ → ℕ
decode_bits bits = if leb 8 (bits + 5) then bits + 5 - 8 else bits + 5

abbrev pub decode_push : ℕ → ℕ → List ℕ → List ℕ
decode_push bits accumulator rest =
    if leb 8 (bits + 5) then accumulator / 2 ^ (bits + 5 - 8) % 256 ∷ rest else rest

pub decode_from : ℕ → ℕ → Text → List ℕ
unfolding index_of
decode_from bits accumulator [] = []
decode_from bits accumulator (character ∷ s) = elim (index_of character base32_alphabet) [
  | none ↦ decode_from bits accumulator s
  | some index ↦
      let accumulator' = shift_left accumulator 5 + index in
      decode_push bits accumulator' (decode_from (decode_bits bits) accumulator' s)
]

unfoldable pub base32_decode : Text → List ℕ
unfolding decode_from strip_padding upper_unit
base32_decode value = decode_from 0 0 (strip_padding (to_upper value))
