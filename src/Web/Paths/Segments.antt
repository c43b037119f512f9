-- ===== src/Web/Paths/Segments.antt =====
-- The paths that apps/web/src/app/routing.ts writes as lists of segments, and what splitting them
-- gives.
use moddery.Base.{
  ◌≡◌, ◌≢◌, refl, ap, List, [], ◌∷◌, ◌++◌, some, Text, false, not, keep_if, is_empty, All,
  eq-false_of_ne, Option-cases, inl, inr,
}
use moddery.Web.Uri.{encode_uri_component, decode_uri_component}
use moddery.Web.Uri.RoundTrip.{AreUnits, some-eq, decode-encode_uri_component}
use moddery.Web.Uri.Segments.{encode-ne-slash}
use moddery.Web.Paths.{split_at, put_on_first, path_segments, found, decoded, encoded_then}

abbrev pub path_of : List Text → Text
path_of [] = []
path_of (s ∷ rest) = b'/' ∷ s ++ path_of rest

abbrev pub IsSegment : Text → Type 0
IsSegment s = (is_empty s ≡ false) × All (λ c. c ≢ b'/') s

put_before_first : Text → List Text → List Text
put_before_first [] rest = rest
put_before_first (c ∷ s) rest = put_on_first c (put_before_first s rest)

put_before_first-nil : (s : Text) (rest : List Text) → put_before_first s ([] ∷ rest) ≡ s ∷ rest
unfolding put_before_first
put_before_first-nil [] rest = refl
put_before_first-nil (c ∷ s) rest = rw (put_before_first-nil s rest) refl

split_at-append :
    (s t : Text)
    → All (λ c. c ≢ b'/') s
    → split_at b'/' (s ++ t) ≡ put_before_first s (split_at b'/' t)
unfolding split_at put_before_first
split_at-append [] t h = refl
split_at-append (c ∷ s) t h =
    rw (eq-false_of_ne c b'/' h.0, split_at) (rw (split_at-append s t h.1) refl)

split_at-path_of :
    (segments : List Text)
    → All IsSegment segments
    → split_at b'/' (path_of segments) ≡ [] ∷ segments
unfolding split_at
split_at-path_of [] h = refl
split_at-path_of (s ∷ rest) h =
    rw (split_at-append s (path_of rest) h.0.1) (
      rw (split_at-path_of rest h.1) (ap (λ (t : List Text). [] ∷ t) (put_before_first-nil s rest)))

keep-segments :
    (segments : List Text)
    → All IsSegment segments
    → keep_if (λ s. not (is_empty s)) segments ≡ segments
keep-segments [] h = refl
keep-segments (s ∷ rest) h = rw h.0.0 (ap (λ (t : List Text). s ∷ t) (keep-segments rest h.1))

pub path_segments-path_of :
    (segments : List Text) → All IsSegment segments → path_segments (path_of segments) ≡ segments
unfolding path_segments
path_segments-path_of segments h = rw (split_at-path_of segments h) (keep-segments segments h)

-- A text that stands as one segment of a path: not empty, and without half of a surrogate pair.
abbrev pub IsEncodable : Text → Type 0
IsEncodable value =
    (is_empty value ≡ false)
    × AreUnits value
    × ((coded : Text) × (encode_uri_component value ≡ some coded))

decode-nil : decode_uri_component [] ≡ some []
unfolding decode_uri_component
decode-nil = refl

pub encoded-IsSegment :
    (value coded : Text)
    → is_empty value ≡ false
    → AreUnits value
    → encode_uri_component value ≡ some coded
    → IsSegment coded
encoded-IsSegment value [] h units e =
    cc (decode-encode_uri_component value [] units e, decode-nil, h)
encoded-IsSegment value (c ∷ coded) h units e = (refl, encode-ne-slash value (c ∷ coded) units e)

pub decoded-encode {ℓ} :
    {A : Type ℓ} (build : Text → A) (value coded : Text)
    → AreUnits value
    → encode_uri_component value ≡ some coded
    → decoded build coded ≡ found (build value)
decoded-encode build value coded units e =
    rw (decode-encode_uri_component value coded units e, decoded) refl

pub encoded_then-eq-some :
    (before value after path : Text)
    → encoded_then before value after ≡ some path
    → (coded : Text) × (encode_uri_component value ≡ some coded) × (before ++ coded ++ after ≡ path)
encoded_then-eq-some before value after path h = elim (Option-cases (encode_uri_component value)) [
  | inl bad ↦ cc (rw (bad, encoded_then) at h)
  | inr (coded, e) ↦ (coded, e, some-eq (rw (e, encoded_then) at h))
]
