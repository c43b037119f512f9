-- ===== src/Catalog/Slugs.antt =====
-- The slug that a new project is given and what its input must have: normalizeSlug of
-- apps/api/src/catalog/services/project-write-model.ts and validateProjectIdentity and
-- validateProjectMetadataLimits of project-management.service.ts.
pub mod Valid
pub mod Tests
use moddery.Base.{
  ℕ, List, [], ◌∷◌, Option, none, some, Text, trim, to_lower, strip_trailing, take, length,
  is_empty, leb, ltb, ◌==◌, ◌&&◌, ◌||◌, Bool, true, false, if◌then◌else◌, Result, ok, err,
  bad_request, ◌>>=◌, ◌>>◌, throw_if, unique_normalized,
}

abbrev pub max_project_categories : ℕ
max_project_categories = 12

abbrev pub max_project_loaders : ℕ
max_project_loaders = 8

abbrev pub max_project_links : ℕ
max_project_links = 16

-- `[a-z0-9_-]`.
unfoldable pub is_slug_unit : ℕ → Bool
is_slug_unit c = (leb b'a' c && leb c b'z') || (leb b'0' c && leb c b'9') || c == b'_' || c == b'-'

-- `replace(/[^a-z0-9_-]+/g, '-')`; the flag says whether a run of other units is open.
unfoldable pub replace_runs : Bool → Text → Text
unfolding is_slug_unit
replace_runs open_run [] = []
replace_runs open_run (c ∷ s) = elim (is_slug_unit c) [
  | true ↦ c ∷ replace_runs false s
  | false ↦ let rest = replace_runs true s in if open_run then rest else b'-' ∷ rest
]

-- `replace(/^-+/, '')`.
unfoldable pub strip_leading : Text → Text
strip_leading [] = []
strip_leading (c ∷ s) = let rest = strip_leading s in if c == b'-' then rest else c ∷ s

unfoldable pub normalize_slug : Text → Text
unfolding replace_runs strip_leading
normalize_slug value =
    take 64 (strip_trailing b'-' (strip_leading (replace_runs false (to_lower (trim value)))))

pub record CreateProjectInput : Type 0 where
  pub slug : Text
  pub title : Text
  pub summary : Text
  pub description : Text

unfoldable pub validate_project_identity : CreateProjectInput → Text → Result (Unit {0})
validate_project_identity input slug =
    throw_if (ltb (length slug) 3) (bad_request "Project slug must be at least 3 characters")
    >> throw_if (is_empty (trim input.title)) (bad_request "Project title is required")
    >> throw_if (is_empty (trim input.summary)) (bad_request "Project summary is required")
    >> throw_if (is_empty (trim input.description)) (bad_request "Project description is required")

-- A list that is given has `limit` different values at most.
abbrev pub is_over : ℕ → Option (List Text) → Bool
is_over limit none = false
is_over limit (some values) = ltb limit (length (unique_normalized values))

-- `links` is the number of links, where the input has them.
unfoldable pub validate_project_metadata_limits :
    Option (List Text) → Option (List Text) → Option ℕ → Result (Unit {0})
validate_project_metadata_limits categories loaders links =
    throw_if (is_over max_project_categories categories)
      (bad_request "A project can include at most 12 categories")
    >> throw_if (is_over max_project_loaders loaders)
        (bad_request "A project can include at most 8 loaders")
    >> throw_if (elim links [ none ↦ false | some n ↦ ltb max_project_links n ])
        (bad_request "A project can include at most 16 links")
