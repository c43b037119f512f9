-- ===== src/Auth/Base32/RoundTrip.antt =====
-- Decoding an encoded secret gives back its bytes.
use mathlib.Core.Path.{ap₂}
use moddery.Base.{
  strip_trailing_of_ne, Option-cases, inl, inr, teq, teq_sound, ℕ, zero, suc, ◌+◌, ◌-◌, ◌*◌, ◌/◌,
  ◌%◌, ◌^◌, ◌<◌, ◌≤◌, Bool-cases, ◌≡◌, ◌≢◌, refl, ap, List, [], ◌∷◌, Option, none, some, Text,
  to_upper, upper_unit, ◌==◌, ◌&&◌, not, Bool, true, false, map, All, All-append, arith,
}
use moddery.Auth.Base32.{
  base32_alphabet, shift_left, flush, encode_from, base32_character, characters, base32_encode,
  strip_padding, index_of, decode_bits, decode_push, decode_from, base32_decode,
}

-- The decoder's loop on the digits that the characters stand for.
decode_digits : ℕ → ℕ → List ℕ → List ℕ
decode_digits bits accumulator [] = []
decode_digits bits accumulator (d ∷ ds) =
    let accumulator' = shift_left accumulator 5 + d in
    decode_push bits accumulator' (decode_digits (decode_bits bits) accumulator' ds)

abbrev pub AreBytes : List ℕ → Type 0
AreBytes = All (λ byte. byte < 256)

-- The encoder holds back `b` bits of the last byte and the decoder the other `8 - b`: five states,
-- through which both go round in step.
mutual
  unfolding decode_digits encode_from

  decode-encode₀ :
      (v a : ℕ) (bs : List ℕ) → AreBytes bs → decode_digits 0 a (encode_from 0 v bs) ≡ bs
  decode-encode₀ v a [] h = refl
  decode-encode₀ v a (x ∷ bs) h =
      let v' = shift_left v 8 + x in
      let a' = shift_left a 5 + v' / 2 ^ 3 % 32 in decode-encode₃ v' a' x bs h.1 (omega arith)

  decode-encode₃ :
      (v a y : ℕ) (bs : List ℕ)
      → AreBytes bs
      → a % 32 * 8 + v % 8 ≡ y
      → decode_digits 5 a (encode_from 3 v bs) ≡ y ∷ bs
  decode-encode₃ v a y [] h e = ap (λ t. t ∷ []) (omega arith)
  decode-encode₃ v a y (x ∷ bs) h e =
      let v' = shift_left v 8 + x in
      let a₁ = shift_left a 5 + v' / 2 ^ 6 % 32 in
      let a₂ = shift_left a₁ 5 + v' / 2 % 32 in
      rw (decode-encode₁ v' a₂ x bs h.1 (omega arith)) (ap (λ t. t ∷ x ∷ bs) (omega arith))

  decode-encode₁ :
      (v a y : ℕ) (bs : List ℕ)
      → AreBytes bs
      → a % 128 * 2 + v % 2 ≡ y
      → decode_digits 7 a (encode_from 1 v bs) ≡ y ∷ bs
  decode-encode₁ v a y [] h e = ap (λ t. t ∷ []) (omega arith)
  decode-encode₁ v a y (x ∷ bs) h e =
      let v' = shift_left v 8 + x in
      let a₁ = shift_left a 5 + v' / 2 ^ 4 % 32 in
      rw (decode-encode₄ v' a₁ x bs h.1 (omega arith)) (ap (λ t. t ∷ x ∷ bs) (omega arith))

  decode-encode₄ :
      (v a y : ℕ) (bs : List ℕ)
      → AreBytes bs
      → a % 16 * 16 + v % 16 ≡ y
      → decode_digits 4 a (encode_from 4 v bs) ≡ y ∷ bs
  decode-encode₄ v a y [] h e = ap (λ t. t ∷ []) (omega arith)
  decode-encode₄ v a y (x ∷ bs) h e =
      let v' = shift_left v 8 + x in
      let a₁ = shift_left a 5 + v' / 2 ^ 7 % 32 in
      let a₂ = shift_left a₁ 5 + v' / 2 ^ 2 % 32 in
      rw (decode-encode₂ v' a₂ x bs h.1 (omega arith)) (ap (λ t. t ∷ x ∷ bs) (omega arith))

  decode-encode₂ :
      (v a y : ℕ) (bs : List ℕ)
      → AreBytes bs
      → a % 64 * 4 + v % 4 ≡ y
      → decode_digits 6 a (encode_from 2 v bs) ≡ y ∷ bs
  decode-encode₂ v a y [] h e = ap (λ t. t ∷ []) (omega arith)
  decode-encode₂ v a y (x ∷ bs) h e =
      let v' = shift_left v 8 + x in
      let a₁ = shift_left a 5 + v' / 2 ^ 5 % 32 in
      let a₂ = shift_left a₁ 5 + v' / 2 ^ 0 % 32 in
      rw (decode-encode₀ v' a₂ bs h.1) (ap₂ (λ t u. t ∷ u ∷ bs) (omega arith) (omega arith))

-- A digit has one letter, which stands for it, is no lower-case letter and no padding.
single : Text → ℕ
single [] = 0
single (c ∷ s) = c

letter : ℕ → ℕ
unfolding base32_character single
letter d = single (base32_character d base32_alphabet)

stands_for : Option ℕ → ℕ → Bool
stands_for none d = false
stands_for (some i) d = i == d

letter_fits : ℕ → Bool
unfolding letter index_of base32_character upper_unit stands_for teq
letter_fits d =
    stands_for (index_of (letter d) base32_alphabet) d
    && teq (base32_character d base32_alphabet) (letter d ∷ [])
    && upper_unit (letter d) == letter d
    && not (letter d == b'=')

-- The test passes at each of the numbers from `n` downwards.
passes_up_to : (ℕ → Bool) → ℕ → Bool
passes_up_to test zero = test zero
passes_up_to test (suc n) = passes_up_to test n && test (suc n)

passes_at : (test : ℕ → Bool) (n d : ℕ) → passes_up_to test n ≡ true → d ≤ n → test d ≡ true
unfolding passes_up_to
passes_at test zero d h le = let e : d ≡ 0 = omega arith in rw e h
passes_at test (suc n) d h le = elim (Bool-cases (d == suc n)) [
  | inl here ↦ let e : d ≡ suc n = ground arith in rw e (ground arith)
  | inr below ↦ passes_at test n d (ground arith) (ground arith)
]

letters_fit : passes_up_to letter_fits 31 ≡ true
unfolding passes_up_to letter_fits
letters_fit = refl

abbrev AreDigits : List ℕ → Type 0
AreDigits = All (λ d. d < 32)

index-letter : (d : ℕ) → d < 32 → index_of (letter d) base32_alphabet ≡ some d
unfolding letter_fits stands_for
index-letter d h =
    stands_for_sound (index_of (letter d) base32_alphabet)
      (ground (arith, passes_at letter_fits 31 d letters_fit (omega arith)))
  where
    stands_for_sound : (o : Option ℕ) → stands_for o d ≡ true → o ≡ some d
    stands_for_sound none e = cc
    stands_for_sound (some i) e = ground arith

character-letter : (d : ℕ) → d < 32 → base32_character d base32_alphabet ≡ letter d ∷ []
unfolding letter_fits
character-letter d h =
    teq_sound _ _ (ground (arith, passes_at letter_fits 31 d letters_fit (omega arith)))

upper-letter : (d : ℕ) → d < 32 → upper_unit (letter d) ≡ letter d
unfolding letter_fits
upper-letter d h = ground (arith, passes_at letter_fits 31 d letters_fit (omega arith))

letter-ne-pad : (d : ℕ) → d < 32 → letter d ≢ b'='
unfolding letter_fits
letter-ne-pad d h = ground (arith, passes_at letter_fits 31 d letters_fit (omega arith))

characters-map : (ds : List ℕ) → AreDigits ds → characters ds ≡ map letter ds
unfolding characters
characters-map [] h = refl
characters-map (d ∷ ds) h =
    rw (character-letter d h.0) (ap (λ t. letter d ∷ t) (characters-map ds h.1))

upper-letters : (ds : List ℕ) → AreDigits ds → to_upper (map letter ds) ≡ map letter ds
upper-letters [] h = refl
upper-letters (d ∷ ds) h = cc (upper-letter d h.0, upper-letters ds h.1)

letters-ne-pad : (ds : List ℕ) → AreDigits ds → All (λ c. c ≢ b'=') (map letter ds)
letters-ne-pad [] h = tt
letters-ne-pad (d ∷ ds) h = (letter-ne-pad d h.0, letters-ne-pad ds h.1)

strip-letters : (ds : List ℕ) → AreDigits ds → strip_padding (map letter ds) ≡ map letter ds
unfolding strip_padding
strip-letters ds h = strip_trailing_of_ne b'=' (map letter ds) (letters-ne-pad ds h)

decode-letters :
    (bits a : ℕ) (ds : List ℕ)
    → AreDigits ds
    → decode_from bits a (map letter ds) ≡ decode_digits bits a ds
unfolding decode_from decode_digits
decode-letters bits a [] h = refl
decode-letters bits a (d ∷ ds) h =
    rw (index-letter d h.0, decode_from)
      (ap (decode_push bits (shift_left a 5 + d))
        (decode-letters (decode_bits bits) (shift_left a 5 + d) ds h.1))

flush-AreDigits : (fuel bits v : ℕ) → AreDigits (flush fuel bits v).0
unfolding flush
flush-AreDigits zero bits v = tt
flush-AreDigits (suc fuel) bits v = ground (arith, flush-AreDigits fuel (bits - 5) v)

encode-AreDigits : (bits v : ℕ) (bs : List ℕ) → AreDigits (encode_from bits v bs)
unfolding encode_from
encode-AreDigits bits v [] = ground arith
encode-AreDigits bits v (b ∷ bs) =
    let v' = shift_left v 8 + b in
    All-append _ _ _ (flush-AreDigits (bits + 8) (bits + 8) v')
      (encode-AreDigits (flush (bits + 8) (bits + 8) v').1 v' bs)

-- A secret that is encoded and then decoded is the same bytes again, for every list of bytes.
pub base32_decode-base32_encode :
    (bytes : List ℕ) → AreBytes bytes → base32_decode (base32_encode bytes) ≡ bytes
unfolding base32_decode base32_encode
base32_decode-base32_encode bytes h =
    let ds = encode_from 0 0 bytes in
    let digits : AreDigits ds = encode-AreDigits 0 0 bytes in
    rw (characters-map ds digits) (
      rw (upper-letters ds digits) (
        rw (strip-letters ds digits)
          (rw (decode-letters 0 0 ds digits) (decode-encode₀ 0 0 bytes h))))

decode_from-AreBytes : (bits a : ℕ) (s : Text) → AreBytes (decode_from bits a s)
unfolding decode_from
decode_from-AreBytes bits a [] = tt
decode_from-AreBytes bits a (c ∷ s) = elim (Option-cases (index_of c base32_alphabet)) [
  | inl miss ↦ rw (miss, decode_from) (decode_from-AreBytes bits a s)
  | inr (d, hit) ↦
      let a' = shift_left a 5 + d in
      rw (hit, decode_from) (ground (arith, decode_from-AreBytes (decode_bits bits) a' s))
]

-- Whatever text is decoded, the result is a list of bytes.
pub base32_decode-AreBytes : (value : Text) → AreBytes (base32_decode value)
unfolding base32_decode
base32_decode-AreBytes value = decode_from-AreBytes 0 0 (strip_padding (to_upper value))
