-- ===== src/Catalog/Slugs/Tests.antt =====
-- Slugs of concrete inputs.
use moddery.Base.{
  ◌≡◌, refl, text, trim, lower_unit, strip_trailing, ok, err, bad_request, [], ◌∷◌, some, none,
  unique_normalized, unique, teq,
}
use moddery.Catalog.Slugs.{
  normalize_slug, CreateProjectInput, validate_project_identity, validate_project_metadata_limits,
}

abbrev input : CreateProjectInput
input = record {
  slug = text " --My  Lamp!";
  title = text "Lamp";
  summary = text "A lamp";
  description = text "It shines.";
}

slug_test : normalize_slug (text " --My  Lamp!") ≡ text "my-lamp"
unfolding normalize_slug trim lower_unit strip_trailing
slug_test = refl

-- The cut at 64 units comes after the dashes at the end were stripped.
trailing_dash_test :
    normalize_slug (text "aaaaaaaaaaaaaaaaaaaaaaaaaaaaaaaaaaaaaaaaaaaaaaaaaaaaaaaaaaaaaaa-b")
    ≡ text "aaaaaaaaaaaaaaaaaaaaaaaaaaaaaaaaaaaaaaaaaaaaaaaaaaaaaaaaaaaaaaa-"
unfolding normalize_slug trim lower_unit strip_trailing
trailing_dash_test = refl

limits_test :
    validate_project_metadata_limits (some (text "a" ∷ [])) none (some 17)
    ≡ err (bad_request "A project can include at most 16 links")
unfolding validate_project_metadata_limits unique_normalized unique teq trim lower_unit
limits_test = refl

accepted : validate_project_identity input (normalize_slug input.slug) ≡ ok tt
unfolding validate_project_identity normalize_slug trim lower_unit strip_trailing
accepted = refl
