-- ===== src/Web/Uri/Segments.antt =====
-- The characters that `encodeURIComponent` puts out: none of them ends a segment of a path.
use moddery.Base.{
  ℕ, ◌+◌, ◌/◌, ◌%◌, ◌<◌, ◌≡◌, ◌≢◌, refl, ap, [], ◌∷◌, ◌++◌, some, Text, ltb, ◌==◌, ◌&&◌, ◌||◌, Bool,
  true, false, Bool-cases, inl, inr, arith, All, All-append,
}
use moddery.Web.Uri.{
  is_unreserved, hex_digit, percent, is_high, is_low, encode_point, encode_unit, pair_point,
  encode_uri_component,
}
use moddery.Web.Uri.RoundTrip.{AreUnits, put_before-eq-some, some-eq}

unfoldable pub is_written : ℕ → Bool
unfolding is_unreserved
is_written c = is_unreserved c || c == b'%'

abbrev pub AreWritten : Text → Type 0
AreWritten = All (λ c. is_written c ≡ true)

written-digit : (d : ℕ) → d < 16 → is_written (hex_digit d) ≡ true
unfolding is_written hex_digit
written-digit d h = ground arith

AreWritten-append : (s t : Text) → AreWritten s → AreWritten t → AreWritten (s ++ t)
AreWritten-append = All-append (λ c. is_written c ≡ true)

AreWritten-percent : (n : ℕ) (t : Text) → n < 256 → AreWritten t → AreWritten (percent n ++ t)
unfolding is_written
AreWritten-percent n t h w =
    (refl, (written-digit (n / 16) (omega arith), (written-digit (n % 16) (omega arith), w)))

encode_point-AreWritten : (v : ℕ) → v < 0x110000 → AreWritten (encode_point v)
unfolding encode_point
encode_point-AreWritten v h =
    let t₁ = percent (0x80 + v % 64) in
    let t₂ = percent (0x80 + v / 64 % 64) ++ t₁ in
    let t₃ = percent (0x80 + v / 4096 % 64) ++ t₂ in
    let p₁ : AreWritten t₁ = AreWritten-percent (0x80 + v % 64) [] (omega arith) tt in
    let p₂ : AreWritten t₂ = AreWritten-percent (0x80 + v / 64 % 64) t₁ (omega arith) p₁ in
    let p₃ : AreWritten t₃ = AreWritten-percent (0x80 + v / 4096 % 64) t₂ (omega arith) p₂ in
    elim (Bool-cases (ltb v 0x80)) [
      | inl a ↦ rw a (AreWritten-percent v [] (ground arith) tt)
      | inr a ↦ elim (Bool-cases (ltb v 0x800)) [
        | inl b ↦ rw (a, b) (AreWritten-percent (0xc0 + v / 64) t₁ (ground arith) p₁)
        | inr b ↦ elim (Bool-cases (ltb v 0x10000)) [
          | inl c ↦ rw (a, b, c) (AreWritten-percent (0xe0 + v / 4096) t₂ (ground arith) p₂)
          | inr c ↦ rw (a, b, c) (AreWritten-percent (0xf0 + v / 262144) t₃ (omega arith) p₃)
        ]
      ]
    ]

encode_unit-AreWritten : (c : ℕ) → c < 0x10000 → AreWritten (encode_unit c)
unfolding encode_unit is_written
encode_unit-AreWritten c h = elim (Bool-cases (is_unreserved c)) [
  | inl plain ↦ rw plain (rw (plain, is_written) refl, tt)
  | inr coded ↦ rw coded (encode_point-AreWritten c (omega arith))
]

pub encode-AreWritten : (s t : Text) → AreUnits s → encode_uri_component s ≡ some t → AreWritten t
unfolding encode_uri_component is_high is_low
encode-AreWritten [] t units h = rw (← some-eq h) tt
encode-AreWritten (c ∷ []) t units h = elim (Bool-cases (is_high c || is_low c)) [
  | inl half ↦ cc
  | inr alone ↦
      let e = some-eq (rw (alone, encode_uri_component) at h) in
      rw (← e) (encode_unit-AreWritten c units.0)
]
encode-AreWritten (c ∷ d ∷ s) t units h = elim (Bool-cases (is_high c && is_low d)) [
  | inl pair ↦
      let (rest, e, f) = put_before-eq-some _ _ t (rw (pair, encode_uri_component) at h) in
      let small : pair_point c d < 0x110000 = ground arith in
      rw (← f) (
        AreWritten-append (encode_point (pair_point c d)) rest
          (encode_point-AreWritten (pair_point c d) small) (encode-AreWritten s rest units.1.1 e))
  | inr apart ↦ elim (Bool-cases (is_high c || is_low c)) [
    | inl half ↦ cc (rw (apart, half, encode_uri_component) at h)
    | inr alone ↦
        let (rest, e, f) =
          put_before-eq-some _ _ t (rw (apart, alone, encode_uri_component) at h) in
        rw (← f) (
          AreWritten-append (encode_unit c) rest (encode_unit-AreWritten c units.0)
            (encode-AreWritten (d ∷ s) rest units.1 e))
  ]
]

-- No character of the encoded text is `mark`.
pub AreWritten-ne :
    (mark : ℕ) (t : Text) → is_written mark ≡ false → AreWritten t → All (λ c. c ≢ mark) t
AreWritten-ne mark [] h w = tt
AreWritten-ne mark (c ∷ t) h w = ((λ e. cc (ap is_written e, w.0)), AreWritten-ne mark t h w.1)

pub encode-ne-slash :
    (s t : Text) → AreUnits s → encode_uri_component s ≡ some t → All (λ c. c ≢ b'/') t
unfolding is_written
encode-ne-slash s t units h = AreWritten-ne b'/' t refl (encode-AreWritten s t units h)
