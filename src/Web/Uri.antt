-- ===== src/Web/Uri.antt =====
-- `encodeURIComponent` and `decodeURIComponent` of JavaScript, with which apps/web/src/app/routing.ts
-- writes and reads the segments of its paths. A text is its UTF-16 code units, and `none` is the
-- URIError that they throw: at half of a surrogate pair, and at octets that are no UTF-8.
pub mod RoundTrip
pub mod Segments
use moddery.Base.{
  ℕ, zero, suc, ◌+◌, ◌-◌, ◌*◌, ◌/◌, ◌%◌, List, [], ◌∷◌, ◌++◌, Option, none, some, Text, text, ltb,
  leb, ◌==◌, ◌&&◌, ◌||◌, Bool, true, false, if◌then◌else◌, any_of,
}

-- The code units that stay as they are.
abbrev pub uri_marks : Text
uri_marks = text "-_.!~*'()"

unfoldable pub is_unreserved : ℕ → Bool
is_unreserved c =
    (leb b'A' c && leb c b'Z')
    || (leb b'a' c && leb c b'z')
    || (leb b'0' c && leb c b'9')
    || any_of (λ m. m == c) uri_marks

-- `%` and two hexadecimal digits.
unfoldable pub hex_digit : ℕ → ℕ
hex_digit d = if ltb d 10 then b'0' + d else b'A' + (d - 10)

abbrev pub percent : ℕ → Text
percent octet = b'%' ∷ hex_digit (octet / 16) ∷ hex_digit (octet % 16) ∷ []

unfoldable pub is_high : ℕ → Bool
is_high c = leb 0xd800 c && ltb c 0xdc00

unfoldable pub is_low : ℕ → Bool
is_low c = leb 0xdc00 c && ltb c 0xe000

-- The UTF-8 octets of a code point, each of them as `%XX`.
unfoldable pub encode_point : ℕ → Text
encode_point v =
    if ltb v 0x80
    then percent v
    else if ltb v 0x800
    then percent (0xc0 + v / 64) ++ percent (0x80 + v % 64)
    else if ltb v 0x10000
    then percent (0xe0 + v / 4096) ++ percent (0x80 + v / 64 % 64) ++ percent (0x80 + v % 64)
    else percent (0xf0 + v / 262144)
      ++ percent (0x80 + v / 4096 % 64)
      ++ percent (0x80 + v / 64 % 64)
      ++ percent (0x80 + v % 64)

unfoldable pub encode_unit : ℕ → Text
unfolding is_unreserved encode_point
encode_unit c = if is_unreserved c then c ∷ [] else encode_point c

-- The code point of a surrogate pair.
abbrev pub pair_point : ℕ → ℕ → ℕ
pair_point high low = (high - 0xd800) * 1024 + (low - 0xdc00) + 0x10000

abbrev pub put_before : Text → Option Text → Option Text
put_before s none = none
put_before s (some t) = some (s ++ t)

unfoldable pub encode_uri_component : Text → Option Text
unfolding encode_unit is_high is_low
encode_uri_component [] = some []
encode_uri_component (c ∷ []) = if is_high c || is_low c then none else some (encode_unit c)
encode_uri_component (c ∷ d ∷ s) = elim (is_high c && is_low d) [
  | true ↦ put_before (encode_point (pair_point c d)) (encode_uri_component s)
  | false ↦ elim (is_high c || is_low c) [
    | true ↦ none
    | false ↦ put_before (encode_unit c) (encode_uri_component (d ∷ s))
  ]
]

-- The value of a hexadecimal digit of either case.
unfoldable pub hex_value : ℕ → Option ℕ
hex_value c =
    if leb b'0' c && leb c b'9'
    then some (c - b'0')
    else if leb b'A' c && leb c b'F'
    then some (c - b'A' + 10)
    else if leb b'a' c && leb c b'f'
    then some (c - b'a' + 10)
    else none

-- A code unit that stands for itself, or the octet of a `%XX`.
pub data Token : Type 0 where
  raw : ℕ → Token
  octet : ℕ → Token

abbrev pub put_token : Token → Option (List Token) → Option (List Token)
put_token token none = none
put_token token (some tokens) = some (token ∷ tokens)

abbrev pub put_octet : Option ℕ → Option ℕ → Option (List Token) → Option (List Token)
put_octet none low tokens = none
put_octet (some high) none tokens = none
put_octet (some high) (some low) tokens = put_token (octet (high * 16 + low)) tokens

pub tokens_of : Text → Option (List Token)
unfolding hex_value
tokens_of [] = some []
tokens_of (c ∷ []) = if c == b'%' then none else some (raw c ∷ [])
tokens_of (c ∷ d ∷ []) =
    if c == b'%' then none else put_token (raw c) (if d == b'%' then none else some (raw d ∷ []))
tokens_of (c ∷ d ∷ e ∷ s) = elim (c == b'%') [
  | true ↦ put_octet (hex_value d) (hex_value e) (tokens_of s)
  | false ↦ put_token (raw c) (tokens_of (d ∷ e ∷ s))
]

-- The code units of a code point above 0xffff are a pair.
unfoldable pub utf16 : ℕ → Text
utf16 v =
    if ltb v 0x10000
    then v ∷ []
    else (0xd800 + (v - 0x10000) / 1024) ∷ (0xdc00 + (v - 0x10000) % 1024) ∷ []

-- No form that is longer than it need be, no surrogate, nothing above the last code point.
unfoldable pub is_point : ℕ → ℕ → Bool
is_point least v = leb least v && (ltb v 0xd800 || leb 0xe000 v) && ltb v 0x110000

-- The octets that are read so far stand for `v`, and `awaited` more belong to them.
pub units_of : ℕ → ℕ → ℕ → List Token → Option Text
unfolding utf16 is_point
units_of zero least v [] = some []
units_of (suc awaited) least v [] = none
units_of zero least v (raw c ∷ tokens) = put_before (c ∷ []) (units_of 0 0 0 tokens)
units_of (suc awaited) least v (raw c ∷ tokens) = none
units_of zero least v (octet a ∷ tokens) = elim (ltb a 0x80) [
  | true ↦ put_before (a ∷ []) (units_of 0 0 0 tokens)
  | false ↦ elim (ltb a 0xc0) [
    | true ↦ none
    | false ↦ elim (ltb a 0xe0) [
      | true ↦ units_of 1 0x80 (a - 0xc0) tokens
      | false ↦ elim (ltb a 0xf0) [
        | true ↦ units_of 2 0x800 (a - 0xe0) tokens
        | false ↦ elim (ltb a 0xf8) [ true ↦ units_of 3 0x10000 (a - 0xf0) tokens | false ↦ none ]
      ]
    ]
  ]
]
units_of (suc zero) least v (octet b ∷ tokens) =
    let point = v * 64 + (b - 0x80) in
    elim (leb 0x80 b && ltb b 0xc0 && is_point least point) [
      | true ↦ put_before (utf16 point) (units_of 0 0 0 tokens)
      | false ↦ none
    ]
units_of (suc (suc awaited)) least v (octet b ∷ tokens) = elim (leb 0x80 b && ltb b 0xc0) [
  | true ↦ units_of (suc awaited) least (v * 64 + (b - 0x80)) tokens
  | false ↦ none
]

abbrev units_of_tokens : Option (List Token) → Option Text
unfolding units_of
units_of_tokens none = none
units_of_tokens (some tokens) = units_of 0 0 0 tokens

unfoldable pub decode_uri_component : Text → Option Text
unfolding tokens_of units_of
decode_uri_component s = units_of_tokens (tokens_of s)
