-- ===== src/Web/Routing/Tests.antt =====
-- The routes of apps/web/src/app/routing.ts at concrete addresses. The browser of the tests keeps
-- every path but the empty one.
use moddery.Base.{arith, teq, ◌≡◌, ◌≢◌, ◌↔◌, refl, [], ◌∷◌, none, some, Text, text, inr}
use moddery.Web.Uri.{hex_digit, encode_uri_component, decode_uri_component}
use moddery.Web.Uri.RoundTrip.{AreUnits, decode-encode_uri_component}
use moddery.Web.Paths.{
  DashboardEditTarget, ProjectType, versions, shader, mod_type, resourcepack, datapack, modpack,
  plugin, project_type_from_kind, project_kind_from_type, dashboard_path, profile_from_pathname,
  organization_from_pathname, collection_from_pathname, dashboard_edit_from_pathname,
  project_type_from_pathname, user_path, dashboard_edit_path, project_path, project_type_named,
  path_segments,
}
use moddery.Web.Routing.{
  Url, SelectedProject, discover_view, home_view, view_from_url, project_from_url,
  project_from_navigation_url, write_profile_to_url, write_project_to_url, get_param,
  write_dashboard_edit_to_url, clear_project_search_params, before_query, delete_param, set_param,
}
use moddery.Web.Routing.Views.{KeepsPlain, IsName, is_dotted}
use moddery.Web.Routing.Addresses.{IsPageShown, edit_page, write_page-IsPageShown}
use moddery.Web.Routing.Projects.{
  write_project_to_url-both, project_readers_agree, unknown_type_splits_readers, IsSplit,
}

-- An address of a project's page, with a section of it.
abbrev start : Url
start = record {
  pathname = text "/mods";
  search_params = (text "project", text "sodium") ∷ (text "tab", text "files") ∷ [];
  hash = text "#top";
}

-- The root is the path of an address that names none.
abbrev browser : Text → Text
browser [] = text "/"
browser (c ∷ path) = c ∷ path

browser-KeepsPlain : KeepsPlain browser
browser-KeepsPlain first rest h = refl

-- "é b" and a pair of surrogates.
abbrev accented : Text
accented = 0xe9 ∷ 32 ∷ b'b' ∷ 0xd83d ∷ 0xde00 ∷ []

accented_coded : encode_uri_component accented ≡ some (text "%C3%A9%20b%F0%9F%98%80")
unfolding encode_uri_component hex_digit
accented_coded = refl

half_pair : encode_uri_component (b'a' ∷ 0xd83d ∷ []) ≡ none
unfolding encode_uri_component
half_pair = refl

overlong : decode_uri_component (text "%C0%AF") ≡ none
unfolding decode_uri_component
overlong = refl

accented_units : AreUnits accented
accented_units = (omega arith, (omega arith, (omega arith, (omega arith, (omega arith, tt)))))

decode-encode_uri_component_example :
    decode_uri_component (text "%C3%A9%20b%F0%9F%98%80") ≡ some accented
decode-encode_uri_component_example =
    decode-encode_uri_component accented (text "%C3%A9%20b%F0%9F%98%80") accented_units
      accented_coded

accented-IsName : IsName accented
unfolding is_dotted teq
accented-IsName = (refl, accented_units, refl)

-- The address `pathname` with the hash `hash` and no query.
abbrev address : Text → Text → Url
address pathname hash = record { pathname = pathname; search_params = []; hash = hash }

-- The query of the page before is gone, and its hash stays.
profile_written :
    write_profile_to_url browser accented start
    ≡ some (address (text "/users/%C3%A9%20b%F0%9F%98%80") (text "#top"))
unfolding write_profile_to_url user_path encode_uri_component hex_digit clear_project_search_params
    teq
profile_written = refl

abbrev form : DashboardEditTarget
form = record { entity = versions; id = accented }

abbrev form_path : Text
form_path = text "/dashboard/versions/%C3%A9%20b%F0%9F%98%80/edit"

form_written : write_dashboard_edit_to_url browser form start ≡ some (address form_path [])
unfolding write_dashboard_edit_to_url dashboard_edit_path encode_uri_component hex_digit
    clear_project_search_params teq
form_written = refl

write_page-IsPageShown_example : IsPageShown (edit_page form) (address form_path [])
write_page-IsPageShown_example =
    write_page-IsPageShown browser browser-KeepsPlain (edit_page form) start (address form_path [])
      accented-IsName form_written

-- A form without an id is not read back: the address shows the start page.
empty_form : view_from_url (address (text "/dashboard/versions//edit") []) ≡ some home_view
unfolding view_from_url teq dashboard_edit_from_pathname path_segments collection_from_pathname
    organization_from_pathname profile_from_pathname project_type_from_pathname
empty_form = refl

abbrev iris : SelectedProject
iris = record { slug = text "iris"; project_type = shader }

abbrev iris_page : Url
iris_page = record {
  pathname = text "/shaders";
  search_params =
      (text "project", text "iris")
      ∷ (text "tab", text "files")
      ∷ (text "type", text "shader")
      ∷ [];
  hash = text "#top";
}

iris_written : write_project_to_url browser (some iris) start ≡ some iris_page
unfolding write_project_to_url project_path encode_uri_component before_query delete_param set_param
    teq
iris_written = refl

write_project_to_url-both_example :
    (view_from_url iris_page ≡ some discover_view)
    × (project_from_url iris_page ≡ some iris)
    × (project_from_navigation_url iris_page ≡ some iris)
write_project_to_url-both_example =
    write_project_to_url-both browser browser-KeepsPlain iris start iris_page refl iris_written

iris_type : get_param (text "type") (iris_page.search_params) ≡ some (text "shader")
unfolding get_param teq
iris_type = refl

project_readers_agree_example : project_from_navigation_url iris_page ≡ project_from_url iris_page
project_readers_agree_example = project_readers_agree iris_page (inr (shader, iris_type))

abbrev odd_page : Url
odd_page = record iris_page {
  search_params = (text "project", text "iris") ∷ (text "type", text "addon") ∷ [];
}

odd_params :
    (get_param (text "project") (odd_page.search_params) ≡ some (text "iris"))
    × (get_param (text "type") (odd_page.search_params) ≡ some (text "addon"))
unfolding get_param teq
odd_params = (refl, refl)

odd_type :
    (project_type_named (text "addon") ≡ none)
    × (project_type_from_pathname (odd_page.pathname) ≡ some shader)
unfolding project_type_named project_type_from_pathname path_segments teq
odd_type = (refl, refl)

unknown_type_splits_readers_example :
    (project_from_url odd_page ≢ project_from_navigation_url odd_page)
    ↔ IsSplit
        (get_param (text "type") (odd_page.search_params))
        (project_type_from_pathname (odd_page.pathname))
unknown_type_splits_readers_example =
    unknown_type_splits_readers odd_page (text "iris") refl odd_params.0

odd_page_differs : project_from_url odd_page ≢ project_from_navigation_url odd_page
odd_page_differs =
    unknown_type_splits_readers_example.1
      (text "addon", shader, odd_params.1, odd_type.0, odd_type.1, λ e. cc)

-- Each type has one kind and each kind one type.
type_of_kind : (t : ProjectType) → project_type_from_kind (project_kind_from_type t) ≡ t
type_of_kind mod_type = refl
type_of_kind resourcepack = refl
type_of_kind datapack = refl
type_of_kind shader = refl
type_of_kind modpack = refl
type_of_kind plugin = refl

section_path : dashboard_path (some (text "my projects")) ≡ some (text "/dashboard#my%20projects")
unfolding dashboard_path encode_uri_component hex_digit
section_path = refl
