-- ===== src/Base/Strings.antt =====
-- A string of the program as its code units, which the code trims, lowers, splits and scans.
use Prim.Native.Nat.{ℕ, ◌+◌, ◌-◌}
use Prim.Native.Char.{code}
use Prim.Native.String.{String}
use mathlib.Core.Path.{ap, ◌≡◌, refl}
use mathlib.Core.Logic.{inl, inr, ◌↔◌, ◌≢◌}
use mathlib.Core.Bool.{Bool, true, false, ◌&&◌, ◌||◌}
use mathlib.Core.List.{List, [], ◌∷◌, ◌++◌, map, reverse, reverse-reverse}
use native.Mathlib.Omega.{arith}
use moddery.Base.Tests.{Bool-cases, leb, ◌==◌, if◌then◌else◌}
use moddery.Base.Lists.{All, All-reverse}

abbrev pub Text : Type 0
Text = List ℕ

-- The code units of a literal of the source, all of them ASCII.
abbrev pub text : String → Text
text String.[] = []
text (String.◌∷◌ c s) = code c ∷ text s

-- `===` on strings.
unfoldable pub teq : Text → Text → Bool
teq [] [] = true
teq (a ∷ s) (b ∷ t) = a == b && teq s t
teq _ _ = false

pub teq_sound : (s t : Text) → teq s t ≡ true → s ≡ t
unfolding teq
teq_sound [] [] h = refl
teq_sound [] (b ∷ t) h = ground arith
teq_sound (a ∷ s) [] h = ground arith
teq_sound (a ∷ s) (b ∷ t) h = ground (arith, teq_sound s t)

pub teq_refl : (s : Text) → teq s s ≡ true
unfolding teq
teq_refl [] = refl
teq_refl (a ∷ s) = ground (arith, teq_refl s)

pub teq_iff : (s t : Text) → (teq s t ≡ true) ↔ (s ≡ t)
teq_iff s t = (teq_sound s t, λ e. rw e (teq_refl t))

-- White space of `String.prototype.trim`, among the code units below 256 and the general
-- punctuation, with the byte order mark.
unfoldable pub is_space : ℕ → Bool
is_space c =
    (leb 9 c && leb c 13)
    || c == 32
    || c == 160
    || c == 0x1680
    || (leb 0x2000 c && leb c 0x200a)
    || c == 0x2028
    || c == 0x2029
    || c == 0x202f
    || c == 0x205f
    || c == 0x3000
    || c == 0xfeff

unfoldable pub trim_start : Text → Text
unfolding is_space
trim_start [] = []
trim_start (c ∷ s) = let rest = trim_start s in if is_space c then rest else c ∷ s

unfoldable pub trim : Text → Text
unfolding trim_start
trim s = reverse (trim_start (reverse (trim_start s)))

-- `String.prototype.toLowerCase` and `toUpperCase` on ASCII; other code units stay.
unfoldable pub lower_unit : ℕ → ℕ
lower_unit c = if leb b'A' c && leb c b'Z' then c + 32 else c

unfoldable pub upper_unit : ℕ → ℕ
upper_unit c = if leb b'a' c && leb c b'z' then c - 32 else c

abbrev pub to_lower : Text → Text
to_lower = map lower_unit

abbrev pub to_upper : Text → Text
to_upper = map upper_unit

keep_or_strip : ℕ → ℕ → Text → Text
keep_or_strip pad c [] = if c == pad then [] else c ∷ []
keep_or_strip pad c (d ∷ s) = c ∷ d ∷ s

-- The text without the run of `pad` at its end: `replace(/p+$/, '')`.
unfoldable pub strip_trailing : ℕ → Text → Text
unfolding keep_or_strip
strip_trailing pad [] = []
strip_trailing pad (c ∷ s) = keep_or_strip pad c (strip_trailing pad s)

pub strip_trailing_of_ne : (pad : ℕ) (s : Text) → All (λ c. c ≢ pad) s → strip_trailing pad s ≡ s
unfolding strip_trailing
strip_trailing_of_ne pad [] h = refl
strip_trailing_of_ne pad (c ∷ []) h = ground (arith, h.0)
strip_trailing_of_ne pad (c ∷ d ∷ s) h = rw (strip_trailing_of_ne pad (d ∷ s) h.1)

-- `startsWith`.
unfoldable pub starts_with : Text → Text → Bool
starts_with s [] = true
starts_with [] (c ∷ prefix) = false
starts_with (d ∷ s) (c ∷ prefix) = d == c && starts_with s prefix

pub starts_with_sound :
    (s prefix : Text) → starts_with s prefix ≡ true → (rest : Text) × (s ≡ prefix ++ rest)
unfolding starts_with
starts_with_sound s [] h = (s, refl)
starts_with_sound [] (c ∷ prefix) h = cc
starts_with_sound (d ∷ s) (c ∷ prefix) h =
    let (rest, e) = starts_with_sound s prefix (ground arith) in
    let same : d ≡ c = ground arith in (rest, cc)

-- `value.length === 0`.
abbrev pub is_empty : Text → Bool
is_empty [] = true
is_empty (c ∷ s) = false

-- A text with no white space at all.
abbrev pub IsSolid : Text → Type 0
IsSolid = All (λ c. is_space c ≡ false)

pub trim_start_of_IsSolid : (s : Text) → IsSolid s → trim_start s ≡ s
unfolding trim_start
trim_start_of_IsSolid [] h = refl
trim_start_of_IsSolid (c ∷ s) h = rw h.0

pub trim_of_IsSolid : (s : Text) → IsSolid s → trim s ≡ s
unfolding trim
trim_of_IsSolid s h =
    rw (trim_start_of_IsSolid s h)
      (rw (trim_start_of_IsSolid (reverse s) (All-reverse _ s h)) (reverse-reverse s))

trim_table : trim (text "  a b ") ≡ text "a b"
unfolding trim
trim_table = refl

keep_or_strip_prefix :
    (pad c : ℕ) (kept s t : Text)
    → kept ++ t ≡ s
    → (u : Text) × (keep_or_strip pad c kept ++ u ≡ c ∷ s)
unfolding keep_or_strip
keep_or_strip_prefix pad c [] s t e = elim (Bool-cases (c == pad)) [
  | inl h ↦ (c ∷ s, rw h refl)
  | inr h ↦ (t, rw h (ap (λ x. c ∷ x) e))
]
keep_or_strip_prefix pad c (d ∷ kept) s t e = (t, ap (λ x. c ∷ x) e)

-- What is left is a beginning of the text.
pub strip_trailing_prefix : (pad : ℕ) (s : Text) → (t : Text) × (strip_trailing pad s ++ t ≡ s)
unfolding strip_trailing
strip_trailing_prefix pad [] = ([], refl)
strip_trailing_prefix pad (c ∷ s) =
    let (t, e) = strip_trailing_prefix pad s in
    keep_or_strip_prefix pad c (strip_trailing pad s) s t e
