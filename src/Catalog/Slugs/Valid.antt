-- ===== src/Catalog/Slugs/Valid.antt =====
-- What a slug looks like, and what an input that is let through has.
use moddery.Base.{
  ℕ, ◌≤◌, ◌≡◌, ◌≢◌, inl, inr, refl, [], ◌∷◌, Text, trim, to_lower, strip_trailing, take, length,
  length-take_le, is_empty, ltb, ◌==◌, Bool, true, false, Bool-cases, ok, >>-eq-ok, throw_if-eq-ok,
  All, All-prefix, take-++-drop, drop, strip_trailing_prefix, ap, sym, subst, ==_iff, get_or, ◌++◌,
  arith,
}
use moddery.Catalog.Slugs.{
  is_slug_unit, replace_runs, strip_leading, normalize_slug, CreateProjectInput,
  validate_project_identity,
}

abbrev pub AreSlugUnits : Text → Type 0
AreSlugUnits = All (λ c. is_slug_unit c ≡ true)

dash_fits : is_slug_unit b'-' ≡ true
unfolding is_slug_unit
dash_fits = refl

runs-AreSlugUnits : (open_run : Bool) (s : Text) → AreSlugUnits (replace_runs open_run s)
unfolding replace_runs
runs-AreSlugUnits open_run [] = tt
runs-AreSlugUnits open_run (c ∷ s) = elim (Bool-cases (is_slug_unit c)) [
  | inl e ↦ rw (e, replace_runs) (e, runs-AreSlugUnits false s)
  | inr e ↦ elim (Bool-cases open_run) [
    | inl yet ↦ rw (e, replace_runs) (rw yet (runs-AreSlugUnits true s))
    | inr new ↦ rw (e, replace_runs) (rw new (dash_fits, runs-AreSlugUnits true s))
  ]
]

-- No text starts with a dash.
abbrev pub NoLeadingDash : Text → Type 0
NoLeadingDash s = (t : Text) → s ≢ b'-' ∷ t

leading-AreSlugUnits : (s : Text) → AreSlugUnits s → AreSlugUnits (strip_leading s)
unfolding strip_leading
leading-AreSlugUnits [] h = tt
leading-AreSlugUnits (c ∷ s) h = elim (Bool-cases (c == b'-')) [
  | inl e ↦ rw (e, strip_leading) (leading-AreSlugUnits s h.1)
  | inr e ↦ rw (e, strip_leading) h
]

head_is_dash : (c : ℕ) (s t : Text) → (c == b'-') ≡ false → c ∷ s ≡ b'-' ∷ t → ⊥
head_is_dash c s t off e = let x = (==_iff c b'-').1 (ap (λ y. get_or y 0 0) e) in ground arith

leading-NoLeadingDash : (s : Text) → NoLeadingDash (strip_leading s)
unfolding strip_leading
leading-NoLeadingDash [] = λ t e. cc
leading-NoLeadingDash (c ∷ s) = elim (Bool-cases (c == b'-')) [
  | inl e ↦ rw (e, strip_leading) (leading-NoLeadingDash s)
  | inr e ↦ rw (e, strip_leading) (λ t x. head_is_dash c s t e x)
]

prefix-NoLeadingDash : (s t : Text) → NoLeadingDash (s ++ t) → NoLeadingDash s
prefix-NoLeadingDash s t h u e = h (u ++ t) (ap (λ x. x ++ t) e)

-- A slug has at most 64 units, each a small letter of ASCII, a digit, `_` or `-`, and does not
-- start with `-`.
pub record IsSlug (s : Text) : Type 0 where
  pub units : AreSlugUnits s
  pub short : length s ≤ 64
  pub start : NoLeadingDash s

prefix-IsSlug :
    (s : Text) → AreSlugUnits s → NoLeadingDash s → IsSlug (take 64 (strip_trailing b'-' s))
prefix-IsSlug s units start =
    let (t, e) = strip_trailing_prefix b'-' s in
    let kept = strip_trailing b'-' s in
    let kept_units = All-prefix _ kept t (subst AreSlugUnits (sym e) units) in
    let kept_start = prefix-NoLeadingDash kept t (subst NoLeadingDash (sym e) start) in
    let split = take-++-drop 64 kept in
    record {
      units =
          All-prefix _ (take 64 kept) (drop 64 kept) (subst AreSlugUnits (sym split) kept_units);
      short = length-take_le 64 kept;
      start =
          prefix-NoLeadingDash (take 64 kept) (drop 64 kept)
            (subst NoLeadingDash (sym split) kept_start);
    }

normalize_slug-IsSlug : (value : Text) → IsSlug (normalize_slug value)
unfolding normalize_slug
normalize_slug-IsSlug value =
    let runs = replace_runs false (to_lower (trim value)) in
    prefix-IsSlug (strip_leading runs)
      (leading-AreSlugUnits runs (runs-AreSlugUnits false (to_lower (trim value))))
      (leading-NoLeadingDash runs)

at_least_three : (n : ℕ) → ltb n 3 ≡ false → 3 ≤ n
at_least_three n h = ground arith

not_blank : (s : Text) → is_empty s ≡ false → s ≢ []
not_blank [] h = cc
not_blank (c ∷ s) h = λ e. cc

-- An input that is let through has a slug of 3 to 64 units, each a small letter of ASCII, a digit,
-- `_` or `-` and the first not `-`, and a title, a summary and a description that are not blank.
pub validate_project_identity_lem :
    (input : CreateProjectInput)
    → validate_project_identity input (normalize_slug input.slug) ≡ ok tt
    → IsSlug (normalize_slug input.slug)
      × (3 ≤ length (normalize_slug input.slug))
      × (trim input.title ≢ [])
      × (trim input.summary ≢ [])
      × (trim input.description ≢ [])
unfolding validate_project_identity
validate_project_identity_lem input h =
    let slug = normalize_slug input.slug in
    let (h3, described) = >>-eq-ok _ _ h in
    let (h2, summed_up) = >>-eq-ok _ _ h3 in
    let (long, titled) = >>-eq-ok _ _ h2 in
    (
      normalize_slug-IsSlug input.slug,
      at_least_three (length slug) (throw_if-eq-ok _ _ long),
      not_blank (trim input.title) (throw_if-eq-ok _ _ titled),
      not_blank (trim input.summary) (throw_if-eq-ok _ _ summed_up),
      not_blank (trim input.description) (throw_if-eq-ok _ _ described),
    )
