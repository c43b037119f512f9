-- ===== src/Web/Uri/RoundTrip.antt =====
-- What `decodeURIComponent` reads from a text that `encodeURIComponent` wrote.
use mathlib.Core.Path.{ap₂, ◌∙◌}
use mathlib.Core.List.{append-nil}
use moddery.Base.{
  ℕ, suc, ◌+◌, ◌-◌, ◌*◌, ◌/◌, ◌%◌, ◌≤◌, ◌<◌, ◌≡◌, ◌≢◌, refl, ap, List, [], ◌∷◌, ◌++◌, Option, none,
  some, Text, ltb, leb, ◌&&◌, ◌||◌, true, false, Bool-cases, inl, inr, arith, if◌then◌else◌,
  eq-false_of_ne, All, subst,
}
use moddery.Web.Uri.{
  is_unreserved, hex_digit, percent, is_high, is_low, encode_point, encode_unit, pair_point,
  put_before, encode_uri_component, hex_value, Token, raw, octet, put_token, tokens_of, utf16,
  is_point, units_of, decode_uri_component,
}

hex_value-hex_digit : (d : ℕ) → d < 16 → hex_value (hex_digit d) ≡ some d
unfolding hex_value hex_digit
hex_value-hex_digit d h = elim (Bool-cases (ltb d 10)) [
  | inl low ↦ ground arith
  | inr high ↦ ground arith
]

tokens-percent :
    (n : ℕ) (s : Text) → n < 256 → tokens_of (percent n ++ s) ≡ put_token (octet n) (tokens_of s)
unfolding tokens_of
tokens-percent n s h = rw (hex_value-hex_digit (n / 16) (omega arith)) (
    rw (hex_value-hex_digit (n % 16) (omega arith))
      (ap (λ (m : ℕ). put_token (octet m) (tokens_of s)) (omega arith)))

tokens-raw : (c : ℕ) (s : Text) → c ≢ b'%' → tokens_of (c ∷ s) ≡ put_token (raw c) (tokens_of s)
unfolding tokens_of
tokens-raw c [] h = rw (eq-false_of_ne c b'%' h) refl
tokens-raw c (d ∷ []) h = rw (eq-false_of_ne c b'%' h) refl
tokens-raw c (d ∷ e ∷ s) h = rw (eq-false_of_ne c b'%' h, tokens_of) refl

-- A text whose tokens stand for the code units `u`.
abbrev IsRead : Text → Text → Type 0
IsRead t u = (tokens : List Token) × (tokens_of t ≡ some tokens) × (units_of 0 0 0 tokens ≡ some u)

IsRead-raw : (c : ℕ) (t u : Text) → c ≢ b'%' → IsRead t u → IsRead (c ∷ t) (c ∷ u)
unfolding units_of
IsRead-raw c t u h (tokens, e, f) = (raw c ∷ tokens, rw (tokens-raw c t h) (rw e refl), rw f refl)

-- The octets of a code point, as the decoder's tokens.
point_tokens : ℕ → List Token
point_tokens v =
    if ltb v 0x80
    then octet v ∷ []
    else if ltb v 0x800
    then octet (0xc0 + v / 64) ∷ octet (0x80 + v % 64) ∷ []
    else if ltb v 0x10000
    then octet (0xe0 + v / 4096) ∷ octet (0x80 + v / 64 % 64) ∷ octet (0x80 + v % 64) ∷ []
    else octet (0xf0 + v / 262144)
      ∷ octet (0x80 + v / 4096 % 64)
      ∷ octet (0x80 + v / 64 % 64)
      ∷ octet (0x80 + v % 64)
      ∷ []

tokens-octet :
    (n : ℕ) (t : Text) (tokens : List Token)
    → n < 256
    → tokens_of t ≡ some tokens
    → tokens_of (percent n ++ t) ≡ some (octet n ∷ tokens)
tokens-octet n t tokens h e = rw (tokens-percent n t h) (rw e refl)

tokens-encode_point :
    (v : ℕ) (t : Text) (tokens : List Token)
    → v < 0x110000
    → tokens_of t ≡ some tokens
    → tokens_of (encode_point v ++ t) ≡ some (point_tokens v ++ tokens)
unfolding encode_point point_tokens
tokens-encode_point v t tokens h e = elim (Bool-cases (ltb v 0x80)) [
  | inl a ↦ rw a (tokens-octet v t tokens (ground arith) e)
  | inr a ↦
      let e₁ = tokens-octet (0x80 + v % 64) t tokens (omega arith) e in
      elim (Bool-cases (ltb v 0x800)) [
        | inl b ↦ rw (a, b) (tokens-octet (0xc0 + v / 64) _ _ (ground arith) e₁)
        | inr b ↦
            let e₂ = tokens-octet (0x80 + v / 64 % 64) _ _ (omega arith) e₁ in
            elim (Bool-cases (ltb v 0x10000)) [
              | inl c ↦ rw (a, b, c) (tokens-octet (0xe0 + v / 4096) _ _ (ground arith) e₂)
              | inr c ↦
                  let e₃ = tokens-octet (0x80 + v / 4096 % 64) _ _ (omega arith) e₂ in
                  rw (a, b, c) (tokens-octet (0xf0 + v / 262144) _ _ (omega arith) e₃)
            ]
      ]
]

-- The first octet of a code point of two, three or four octets.
units-first₂ :
    (l v q : ℕ) (tokens : List Token)
    → q < 32
    → units_of 0 l v (octet (0xc0 + q) ∷ tokens) ≡ units_of 1 0x80 q tokens
unfolding units_of
units-first₂ l v q tokens h = ground arith

units-first₃ :
    (l v q : ℕ) (tokens : List Token)
    → q < 16
    → units_of 0 l v (octet (0xe0 + q) ∷ tokens) ≡ units_of 2 0x800 q tokens
unfolding units_of
units-first₃ l v q tokens h = ground arith

units-first₄ :
    (l v q : ℕ) (tokens : List Token)
    → q < 8
    → units_of 0 l v (octet (0xf0 + q) ∷ tokens) ≡ units_of 3 0x10000 q tokens
unfolding units_of
units-first₄ l v q tokens h = ground arith

units-next :
    (n l v d : ℕ) (tokens : List Token)
    → d < 64
    → units_of (suc (suc n)) l v (octet (0x80 + d) ∷ tokens)
      ≡ units_of (suc n) l (v * 64 + d) tokens
unfolding units_of
units-next n l v d tokens h =
    let e : (leb 0x80 (0x80 + d) && ltb (0x80 + d) 0xc0) ≡ true = ground arith in
    rw (e, units_of) (ap (λ (m : ℕ). units_of (suc n) l (v * 64 + m) tokens) (omega arith))

units-last :
    (l q d v : ℕ) (tokens : List Token) (u : Text)
    → d < 64
    → q * 64 + d ≡ v
    → is_point l v ≡ true
    → units_of 0 0 0 tokens ≡ some u
    → units_of 1 l q (octet (0x80 + d) ∷ tokens) ≡ some (utf16 v ++ u)
unfolding units_of
units-last l q d v tokens u h same p e =
    let inside : (leb 0x80 (0x80 + d) && ltb (0x80 + d) 0xc0) ≡ true = ground arith in
    let point : q * 64 + (0x80 + d - 0x80) ≡ v = omega arith in
    rw (point, inside, p, units_of) (rw (e, point) refl)

units-single :
    (v : ℕ) (tokens : List Token) (u : Text)
    → ltb v 0x80 ≡ true
    → units_of 0 0 0 tokens ≡ some u
    → units_of 0 0 0 (octet v ∷ tokens) ≡ some (utf16 v ++ u)
unfolding units_of utf16
units-single v tokens u a e =
    let small : ltb v 0x10000 ≡ true = ground arith in rw (a, small, units_of) (rw e refl)

is_point-least : (l v : ℕ) → is_point 0 v ≡ true → l ≤ v → is_point l v ≡ true
unfolding is_point
is_point-least l v h le = ground arith

point-below : (v : ℕ) → is_point 0 v ≡ true → v < 0x110000
unfolding is_point
point-below v h = ground arith

units-point_tokens :
    (v : ℕ) (tokens : List Token) (u : Text)
    → is_point 0 v ≡ true
    → units_of 0 0 0 tokens ≡ some u
    → units_of 0 0 0 (point_tokens v ++ tokens) ≡ some (utf16 v ++ u)
unfolding point_tokens
units-point_tokens v tokens u h e = elim (Bool-cases (ltb v 0x80)) [
  | inl a ↦ rw a (units-single v tokens u a e)
  | inr a ↦ elim (Bool-cases (ltb v 0x800)) [
    | inl b ↦
        rw (a, b)
          (rw (units-first₂ 0 0 (v / 64) _ (ground arith)) (
            units-last 0x80 (v / 64) (v % 64) v tokens u (omega arith) (omega arith)
              (is_point-least 0x80 v h (ground arith)) e))
    | inr b ↦ elim (Bool-cases (ltb v 0x10000)) [
      | inl c ↦
          rw (a, b, c)
            (rw (units-first₃ 0 0 (v / 4096) _ (ground arith)) (
              rw (units-next 0 0x800 (v / 4096) (v / 64 % 64) _ (omega arith)) (
                units-last 0x800 _ (v % 64) v tokens u (omega arith) (omega arith)
                  (is_point-least 0x800 v h (ground arith)) e)))
      | inr c ↦
          let below = point-below v h in
          rw (a, b, c)
            (rw (units-first₄ 0 0 (v / 262144) _ (omega arith)) (
              rw (units-next 1 0x10000 (v / 262144) (v / 4096 % 64) _ (omega arith)) (
                rw (units-next 0 0x10000 _ (v / 64 % 64) _ (omega arith)) (
                  units-last 0x10000 _ (v % 64) v tokens u (omega arith) (omega arith)
                    (is_point-least 0x10000 v h (ground arith)) e))))
    ]
  ]
]

IsRead-encode_point :
    (v : ℕ) (t u : Text)
    → is_point 0 v ≡ true
    → IsRead t u
    → IsRead (encode_point v ++ t) (utf16 v ++ u)
IsRead-encode_point v t u h (tokens, e, f) = (
  point_tokens v ++ tokens,
  tokens-encode_point v t tokens (point-below v h) e,
  units-point_tokens v tokens u h f,
)

unreserved-ne-percent : (c : ℕ) → is_unreserved c ≡ true → c ≢ b'%'
unfolding is_unreserved
unreserved-ne-percent c h e = cc (ap is_unreserved e)

IsRead-encode_unit :
    (c : ℕ) (t u : Text)
    → c < 0x10000
    → (is_high c || is_low c) ≡ false
    → IsRead t u
    → IsRead (encode_unit c ++ t) (c ∷ u)
unfolding encode_unit is_high is_low is_point utf16
IsRead-encode_unit c t u small alone r = elim (Bool-cases (is_unreserved c)) [
  | inl plain ↦ rw plain (IsRead-raw c t u (unreserved-ne-percent c plain) r)
  | inr coded ↦
      let one : utf16 c ≡ c ∷ [] = ground arith in
      rw coded (rw one at (IsRead-encode_point c t u (ground arith) r))
]

pair-utf16 : (c d : ℕ) → (is_high c && is_low d) ≡ true → utf16 (pair_point c d) ≡ c ∷ d ∷ []
unfolding is_high is_low utf16
pair-utf16 c d h =
    let range : 0xd800 ≤ c × c < 0xdc00 × 0xdc00 ≤ d × d < 0xe000 = ground arith in
    let large : ltb (pair_point c d) 0x10000 ≡ false = ground arith in
    rw large (ap₂ (λ (x y : ℕ). x ∷ y ∷ []) (omega arith) (omega arith))

pair-is_point : (c d : ℕ) → (is_high c && is_low d) ≡ true → is_point 0 (pair_point c d) ≡ true
unfolding is_high is_low is_point
pair-is_point c d h =
    let range : 0xd800 ≤ c × c < 0xdc00 × 0xdc00 ≤ d × d < 0xe000 = ground arith in ground arith

IsRead-pair :
    (c d : ℕ) (t u : Text)
    → (is_high c && is_low d) ≡ true
    → IsRead t u
    → IsRead (encode_point (pair_point c d) ++ t) (c ∷ d ∷ u)
IsRead-pair c d t u h r =
    subst (λ (pair : Text). IsRead (encode_point (pair_point c d) ++ t) (pair ++ u))
      (pair-utf16 c d h) (IsRead-encode_point (pair_point c d) t u (pair-is_point c d h) r)

-- A text of JavaScript: its code units have sixteen bits.
abbrev pub AreUnits : Text → Type 0
AreUnits = All (λ c. c < 0x10000)

pub put_before-eq-some :
    (s : Text) (o : Option Text) (t : Text)
    → put_before s o ≡ some t
    → (rest : Text) × (o ≡ some rest) × (s ++ rest ≡ t)
put_before-eq-some s none t h = cc
put_before-eq-some s (some rest) t h = (rest, refl, cc)

pub some-eq : {a b : Text} → ◌≡◌ {A = Option Text} (some a) (some b) → a ≡ b
some-eq h = cc

IsRead-nil : IsRead [] []
unfolding tokens_of units_of
IsRead-nil = ([], refl, refl)

IsRead-encode_uri_component :
    (s t : Text) → AreUnits s → encode_uri_component s ≡ some t → IsRead t s
unfolding encode_uri_component
IsRead-encode_uri_component [] t units h = rw (← some-eq h) IsRead-nil
IsRead-encode_uri_component (c ∷ []) t units h = elim (Bool-cases (is_high c || is_low c)) [
  | inl half ↦ cc
  | inr alone ↦
      let e = some-eq (rw (alone, encode_uri_component) at h) in
      subst (λ (x : Text). IsRead x (c ∷ [])) (append-nil (encode_unit c) ∙ e)
        (IsRead-encode_unit c [] [] units.0 alone IsRead-nil)
]
IsRead-encode_uri_component (c ∷ d ∷ s) t units h = elim (Bool-cases (is_high c && is_low d)) [
  | inl pair ↦
      let (rest, e, f) = put_before-eq-some _ _ t (rw (pair, encode_uri_component) at h) in
      rw (← f) (IsRead-pair c d rest s pair (IsRead-encode_uri_component s rest units.1.1 e))
  | inr apart ↦ elim (Bool-cases (is_high c || is_low c)) [
    | inl half ↦ cc (rw (apart, half, encode_uri_component) at h)
    | inr alone ↦
        let (rest, e, f) =
          put_before-eq-some _ _ t (rw (apart, alone, encode_uri_component) at h) in
        rw (← f) (
          IsRead-encode_unit c rest (d ∷ s) units.0 alone
            (IsRead-encode_uri_component (d ∷ s) rest units.1 e))
  ]
]

-- A text that encodeURIComponent accepts comes back whole from decodeURIComponent, with every code
-- unit outside ASCII and every surrogate pair.
pub decode-encode_uri_component :
    (s t : Text) → AreUnits s → encode_uri_component s ≡ some t → decode_uri_component t ≡ some s
unfolding decode_uri_component
decode-encode_uri_component s t units h =
    let (tokens, e, f) = IsRead-encode_uri_component s t units h in rw e f
