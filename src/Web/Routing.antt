-- ===== src/Web/Routing.antt =====
-- apps/web/src/app/routing.ts: what a write puts into the address, and what the application reads
-- from it. A `Url` holds the parts that the code reads and writes, the query as its list of names
-- and values. `assign_pathname` is the browser's assignment to `url.pathname`, which resolves the
-- segments `.` and `..`. A write gives the address that it pushes, or `none` where it throws.
pub mod Params
pub mod Views
pub mod Pages
pub mod Projects
pub mod Addresses
pub mod Tests
use moddery.Base.{
  ℕ, List, [], ◌∷◌, ◌++◌, Option, none, some, Text, text, teq, ◌==◌, Bool, true, false, not,
  if◌then◌else◌, keep_if, is_empty,
}
use moddery.Web.Paths.{
  ProjectType, mod_type, type_name, type_path, project_type_named, DashboardEditTarget,
  SelectedCollection, dashboard_edit_path, user_path, organization_path, collection_path,
  project_path, Reading, uri_error, absent, found, profile_from_pathname,
  organization_from_pathname, collection_from_pathname, dashboard_edit_from_pathname,
  project_type_from_pathname,
}

pub data AppView : Type 0 where
  home_view discover_view collections_view users_view dashboard_view notifications_view
        platform_view status_view terms_view privacy_view safety_view organization_view
        profile_view :
      AppView

pub record SelectedProject : Type 0 where
  pub slug : Text
  pub project_type : ProjectType

pub record Url : Type 0 where
  pub pathname : Text
  pub search_params : List (Text × Text)
  pub hash : Text

-- `searchParams.get`, `delete` and `set`.
unfoldable pub get_param : Text → List (Text × Text) → Option Text
get_param name [] = none
get_param name ((key, value) ∷ params) = if teq key name then some value else get_param name params

unfoldable pub delete_param : Text → List (Text × Text) → List (Text × Text)
delete_param name params = keep_if (λ p. not (teq (p.0) name)) params

unfoldable pub set_param : Text → Text → List (Text × Text) → List (Text × Text)
unfolding delete_param
set_param name value [] = (name, value) ∷ []
set_param name value ((key, old) ∷ params) =
    let rest = set_param name value params in
    if teq key name then (name, value) ∷ delete_param name params else (key, old) ∷ rest

unfoldable pub clear_project_search_params : Url → Url
unfolding delete_param
clear_project_search_params url = record url {
  search_params = delete_param (text "view") (
      delete_param (text "tab")
        (delete_param (text "type") (delete_param (text "project") (url.search_params))));
}

-- `staticViewFromPathname`.
abbrev pub static_views : List (Text × AppView)
static_views =
    (text "/", home_view)
    ∷ (text "/collections", collections_view)
    ∷ (text "/dashboard", dashboard_view)
    ∷ (text "/notifications", notifications_view)
    ∷ (text "/organizations", organization_view)
    ∷ (text "/platform", platform_view)
    ∷ (text "/status", status_view)
    ∷ (text "/terms", terms_view)
    ∷ (text "/privacy", privacy_view)
    ∷ (text "/safety", safety_view)
    ∷ (text "/users", users_view)
    ∷ []

unfoldable pub view_at : Text → List (Text × AppView) → Option AppView
view_at pathname [] = none
view_at pathname ((path, view) ∷ views) =
    if teq path pathname then some view else view_at pathname views

unfoldable pub static_view_from_pathname : Text → Option AppView
unfolding view_at
static_view_from_pathname pathname = view_at pathname static_views

-- `staticNavigationUrl`.
unfoldable pub static_navigation_url : Url → Option Url
unfolding static_view_from_pathname clear_project_search_params
static_navigation_url url = elim (static_view_from_pathname (url.pathname)) [
  | none ↦ none
  | some view ↦ some (clear_project_search_params url)
]

-- `params.get('type') ?? projectTypeFromPath()`, tested by `isProjectType`; 'mod' otherwise.
abbrev pub type_or_mod : Option ProjectType → ProjectType
type_or_mod none = mod_type
type_or_mod (some t) = t

abbrev pub raw_type : Option Text → Option ProjectType → Option ProjectType
raw_type none from_path = from_path
raw_type (some name) from_path = project_type_named name

-- `if (!slug) return null`.
abbrev pub with_slug : Option Text → ProjectType → Option SelectedProject
with_slug none t = none
with_slug (some []) t = none
with_slug (some (c ∷ s)) t = some (record { slug = c ∷ s; project_type = t })

unfoldable pub project_from_url : Url → Option SelectedProject
unfolding get_param
project_from_url url = with_slug (get_param (text "project") (url.search_params)) (
    type_or_mod (
      raw_type (get_param (text "type") (url.search_params))
        (project_type_from_pathname (url.pathname))))

-- `type && isProjectType(type)`, else the type of the path.
abbrev pub named_or : Option Text → Option ProjectType → Option ProjectType
named_or none from_path = from_path
named_or (some name) from_path = elim (project_type_named name) [
  | none ↦ from_path
  | some t ↦ some t
]

unfoldable pub project_type_from_navigation_url : Url → Option ProjectType
unfolding get_param
project_type_from_navigation_url url =
    named_or (get_param (text "type") (url.search_params))
      (project_type_from_pathname (url.pathname))

unfoldable pub project_from_navigation_url : Url → Option SelectedProject
unfolding get_param project_type_from_navigation_url
project_from_navigation_url url =
    with_slug (get_param (text "project") (url.search_params))
      (type_or_mod (project_type_from_navigation_url url))

-- `if (reader()) return view`, where a reader that throws throws out of `viewFromUrl`.
abbrev pub view_if_found {ℓ} : {A : Type ℓ} → Reading A → AppView → Option AppView → Option AppView
view_if_found uri_error view next = none
view_if_found absent view next = next
view_if_found (found a) view next = some view

-- A profile or an organization is a string, and the empty one is falsy.
abbrev pub view_if_text : Reading Text → AppView → Option AppView → Option AppView
view_if_text uri_error view next = none
view_if_text absent view next = next
view_if_text (found []) view next = next
view_if_text (found (c ∷ s)) view next = some view

abbrev pub query_view : Option Text → AppView
query_view none = home_view
query_view (some name) = if teq name (text "discover") then discover_view else home_view

abbrev pub list_view : Option ProjectType → AppView → AppView
list_view none otherwise = otherwise
list_view (some t) otherwise = discover_view

unfoldable pub view_from_url : Url → Option AppView
unfolding static_view_from_pathname get_param
view_from_url url = elim (static_view_from_pathname (url.pathname)) [
  | some view ↦ some view
  | none ↦ view_if_found (dashboard_edit_from_pathname (url.pathname)) dashboard_view (
      view_if_found (collection_from_pathname (url.pathname)) collections_view (
        view_if_text (organization_from_pathname (url.pathname)) organization_view (
          view_if_text (profile_from_pathname (url.pathname)) profile_view (
            some (
              list_view (project_type_from_pathname (url.pathname))
                (query_view (get_param (text "view") (url.search_params))))))))
]

-- `new URL(projectPath(…), url).pathname`.
unfoldable pub before_query : Text → Text
before_query [] = []
before_query (c ∷ s) = let rest = before_query s in if c == b'?' then [] else c ∷ rest

module _ (assign_pathname : Text → Text) where
  -- `writeStaticViewToUrl`, of which writeHomeToUrl and its like are the calls.
  unfoldable pub write_static_view_to_url : Text → Url → Option Url
  unfolding clear_project_search_params
  write_static_view_to_url pathname url =
      some (
        clear_project_search_params (record url { pathname = assign_pathname pathname; hash = [] }))

  abbrev pub write_path : Option Text → Url → Option Url
  unfolding clear_project_search_params
  write_path none url = none
  write_path (some path) url =
      some (clear_project_search_params (record url { pathname = assign_pathname path }))

  unfoldable pub write_dashboard_edit_to_url : DashboardEditTarget → Url → Option Url
  write_dashboard_edit_to_url target url =
      write_path (dashboard_edit_path target) (record url { hash = [] })

  unfoldable pub write_profile_to_url : Text → Url → Option Url
  write_profile_to_url username url = write_path (user_path username) url

  unfoldable pub write_collection_to_url : SelectedCollection → Url → Option Url
  write_collection_to_url collection url = write_path (collection_path collection) url

  unfoldable pub write_organization_to_url : Text → Url → Option Url
  write_organization_to_url slug url = write_path (organization_path slug) url

  unfoldable pub write_project_list_to_url : ProjectType → Url → Option Url
  write_project_list_to_url project_type url =
      write_path (some (text "/" ++ type_path project_type)) url

  abbrev pub write_project_at : Option Text → SelectedProject → Url → Option Url
  unfolding delete_param set_param before_query
  write_project_at none project url = none
  write_project_at (some path) project url = some (record url {
    pathname = assign_pathname (before_query path);
    search_params = delete_param (text "view") (
        set_param (text "type") (type_name (project.project_type))
          (set_param (text "project") (project.slug) (url.search_params)));
  })

  unfoldable pub write_project_to_url : Option SelectedProject → Url → Option Url
  unfolding delete_param
  write_project_to_url none url = some (record url {
    search_params =
        delete_param (text "tab")
          (delete_param (text "type") (delete_param (text "project") (url.search_params)));
  })
  write_project_to_url (some project) url =
      write_project_at (project_path (project.project_type) (project.slug)) project url
