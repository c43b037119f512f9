-- ===== src/Web/Paths.antt =====
-- The paths of apps/web/src/app/routing.ts as text, and what is read from a path alone. A reader
-- gives `uri_error` where decodeURIComponent throws, `absent` for null.
pub mod Segments
use moddery.Base.{
  ℕ, List, [], ◌∷◌, ◌++◌, Option, none, some, Text, text, teq, ◌==◌, Bool, true, false, not,
  if◌then◌else◌, keep_if, find_if, is_empty, any_of,
}
use moddery.Web.Uri.{encode_uri_component, decode_uri_component}

pub data ProjectType : Type 0 where
  mod_type resourcepack datapack shader modpack plugin : ProjectType

pub data ProjectKind : Type 0 where
  datapack_kind modpack_kind plugin_kind resource_pack_kind shader_kind mod_kind : ProjectKind

abbrev pub project_type_from_kind : ProjectKind → ProjectType
project_type_from_kind datapack_kind = datapack
project_type_from_kind modpack_kind = modpack
project_type_from_kind plugin_kind = plugin
project_type_from_kind resource_pack_kind = resourcepack
project_type_from_kind shader_kind = shader
project_type_from_kind mod_kind = mod_type

abbrev pub project_kind_from_type : ProjectType → ProjectKind
project_kind_from_type datapack = datapack_kind
project_kind_from_type modpack = modpack_kind
project_kind_from_type plugin = plugin_kind
project_kind_from_type resourcepack = resource_pack_kind
project_kind_from_type shader = shader_kind
project_kind_from_type mod_type = mod_kind

-- `meta.type`, the string of the type in a query.
abbrev pub type_name : ProjectType → Text
type_name mod_type = text "mod"
type_name resourcepack = text "resourcepack"
type_name datapack = text "datapack"
type_name shader = text "shader"
type_name modpack = text "modpack"
type_name plugin = text "plugin"

-- `meta.path`.
abbrev pub type_path : ProjectType → Text
type_path mod_type = text "mods"
type_path resourcepack = text "resource-packs"
type_path datapack = text "data-packs"
type_path shader = text "shaders"
type_path modpack = text "modpacks"
type_path plugin = text "plugins"

-- PROJECT_TYPES, in the order of CONTENT_TYPES.
abbrev pub project_types : List ProjectType
project_types = mod_type ∷ resourcepack ∷ datapack ∷ shader ∷ modpack ∷ plugin ∷ []

-- `isProjectType`, with the type that the string names.
unfoldable pub project_type_named : Text → Option ProjectType
unfolding teq
project_type_named value = find_if (λ t. teq (type_name t) value) project_types

pub data DashboardEditEntity : Type 0 where
  projects organizations collections versions : DashboardEditEntity

abbrev pub entity_name : DashboardEditEntity → Text
entity_name projects = text "projects"
entity_name organizations = text "organizations"
entity_name collections = text "collections"
entity_name versions = text "versions"

abbrev pub dashboard_edit_entities : List DashboardEditEntity
dashboard_edit_entities = projects ∷ organizations ∷ collections ∷ versions ∷ []

unfoldable pub entity_named : Text → Option DashboardEditEntity
unfolding teq
entity_named value = find_if (λ e. teq (entity_name e) value) dashboard_edit_entities

pub record DashboardEditTarget : Type 0 where
  pub entity : DashboardEditEntity
  pub id : Text

pub record SelectedCollection : Type 0 where
  pub owner_username : Text
  pub slug : Text

-- A path of literal text with an encoded segment; `none` is the URIError of encodeURIComponent.
abbrev pub encoded_then : Text → Text → Text → Option Text
encoded_then before value after = elim (encode_uri_component value) [
  | none ↦ none
  | some coded ↦ some (before ++ coded ++ after)
]

unfoldable pub dashboard_edit_path : DashboardEditTarget → Option Text
dashboard_edit_path target =
    encoded_then (text "/dashboard/" ++ entity_name (target.entity) ++ text "/") (target.id)
      (text "/edit")

unfoldable pub user_path : Text → Option Text
user_path username = encoded_then (text "/users/") username []

unfoldable pub organization_path : Text → Option Text
organization_path slug = encoded_then (text "/organizations/") slug []

unfoldable pub collection_path : SelectedCollection → Option Text
collection_path collection = elim (encode_uri_component (collection.owner_username)) [
  | none ↦ none
  | some owner ↦ encoded_then (text "/collections/" ++ owner ++ text "/") (collection.slug) []
]

unfoldable pub project_path : ProjectType → Text → Option Text
project_path project_type slug = elim (encode_uri_component (type_name project_type)) [
  | none ↦ none
  | some name ↦
      encoded_then (text "/" ++ type_path project_type ++ text "?project=") slug
        (text "&type=" ++ name)
]

unfoldable pub dashboard_path : Option Text → Option Text
dashboard_path none = some (text "/dashboard")
dashboard_path (some section_id) = encoded_then (text "/dashboard#") section_id []

-- `pathname.split('/')`.
abbrev pub put_on_first : ℕ → List Text → List Text
put_on_first c [] = (c ∷ []) ∷ []
put_on_first c (s ∷ rest) = (c ∷ s) ∷ rest

unfoldable pub split_at : ℕ → Text → List Text
split_at mark [] = [] ∷ []
split_at mark (c ∷ s) =
    let rest = split_at mark s in if c == mark then [] ∷ rest else put_on_first c rest

-- `.filter(Boolean)`.
unfoldable pub path_segments : Text → List Text
unfolding split_at
path_segments pathname = keep_if (λ s. not (is_empty s)) (split_at b'/' pathname)

pub data Reading {ℓ} (A : Type ℓ) : Type ℓ where
  uri_error : Reading A
  absent : Reading A
  found : A → Reading A

abbrev pub decoded {ℓ} : {A : Type ℓ} → (Text → A) → Text → Reading A
decoded build coded = elim (decode_uri_component coded) [
  | none ↦ uri_error
  | some value ↦ found (build value)
]

-- The segments after the first one, when that is `resource`.
abbrev pub after_resource : Text → List Text → Option (List Text)
after_resource resource [] = none
after_resource resource (s ∷ rest) = if teq s resource then some rest else none

abbrev pub one_segment : Option (List Text) → Reading Text
one_segment (some (s ∷ rest)) = decoded (λ value. value) s
one_segment _ = absent

unfoldable pub profile_from_pathname : Text → Reading Text
profile_from_pathname pathname =
    one_segment (after_resource (text "users") (path_segments pathname))

unfoldable pub organization_from_pathname : Text → Reading Text
organization_from_pathname pathname =
    one_segment (after_resource (text "organizations") (path_segments pathname))

abbrev pub two_segments : Option (List Text) → Reading SelectedCollection
two_segments (some (owner ∷ slug ∷ rest)) = elim (decode_uri_component owner) [
  | none ↦ uri_error
  | some owner_username ↦ decoded (λ s. record { owner_username = owner_username; slug = s }) slug
]
two_segments _ = absent

unfoldable pub collection_from_pathname : Text → Reading SelectedCollection
collection_from_pathname pathname =
    two_segments (after_resource (text "collections") (path_segments pathname))

abbrev pub edit_segments : Option (List Text) → Reading DashboardEditTarget
edit_segments (some (entity ∷ id ∷ action ∷ rest)) = elim (teq action (text "edit")) [
  | false ↦ absent
  | true ↦ elim (entity_named entity) [
    | none ↦ absent
    | some e ↦ decoded (λ value. record { entity = e; id = value }) id
  ]
]
edit_segments _ = absent

unfoldable pub dashboard_edit_from_pathname : Text → Reading DashboardEditTarget
dashboard_edit_from_pathname pathname =
    edit_segments (after_resource (text "dashboard") (path_segments pathname))

abbrev pub first_segment : List Text → Option ProjectType
first_segment [] = none
first_segment (s ∷ rest) = find_if (λ t. teq (type_path t) s) project_types

unfoldable pub project_type_from_pathname : Text → Option ProjectType
unfolding path_segments teq
project_type_from_pathname pathname = first_segment (path_segments pathname)
