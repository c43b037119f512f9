-- ===== src/Web/Routing/Addresses.antt =====
-- The pages of apps/web/src/app/routing.ts that live in the path alone, as one type.
use moddery.Base.{◌≡◌, Option, none, some, Text}
use moddery.Web.Paths.{
  ProjectType, DashboardEditTarget, SelectedCollection, profile_from_pathname,
  organization_from_pathname, collection_from_pathname, dashboard_edit_from_pathname,
  project_type_from_pathname,
}
use moddery.Web.Routing.{
  profile_view, organization_view, collections_view, dashboard_view, discover_view, Url,
  view_from_url, project_from_url, write_dashboard_edit_to_url, write_profile_to_url,
  write_collection_to_url, write_organization_to_url, write_project_list_to_url,
}
use moddery.Web.Routing.Views.{KeepsPlain, IsName, IsShown}
use moddery.Web.Routing.Pages.{
  write_profile_to_url-IsShown, write_organization_to_url-IsShown, write_collection_to_url-IsShown,
  write_dashboard_edit_to_url-IsShown,
}
use moddery.Web.Routing.Projects.{write_project_list_to_url-view}

pub data Page : Type 0 where
  profile_page organization_page : Text → Page
  collection_page : SelectedCollection → Page
  edit_page : DashboardEditTarget → Page
  list_page : ProjectType → Page

-- Its names can stand in a path.
abbrev pub IsNamed : Page → Type 0
IsNamed (profile_page username) = IsName username
IsNamed (organization_page slug) = IsName slug
IsNamed (collection_page collection) = IsName (collection.owner_username) × IsName (collection.slug)
IsNamed (edit_page target) = IsName (target.id)
IsNamed (list_page t) = Unit

-- The `write…ToUrl` of the page.
abbrev pub write_page : (Text → Text) → Page → Url → Option Url
write_page assign_pathname (profile_page username) = write_profile_to_url assign_pathname username
write_page assign_pathname (organization_page slug) = write_organization_to_url assign_pathname slug
write_page assign_pathname (collection_page collection) =
    write_collection_to_url assign_pathname collection
write_page assign_pathname (edit_page target) = write_dashboard_edit_to_url assign_pathname target
write_page assign_pathname (list_page t) = write_project_list_to_url assign_pathname t

-- The view is the page's, its reader gives back what was written, and no project is selected.
abbrev pub IsPageShown : Page → Url → Type 0
IsPageShown (profile_page username) = IsShown profile_view profile_from_pathname username
IsPageShown (organization_page slug) = IsShown organization_view organization_from_pathname slug
IsPageShown (collection_page collection) =
    IsShown collections_view collection_from_pathname collection
IsPageShown (edit_page target) = IsShown dashboard_view dashboard_edit_from_pathname target
IsPageShown (list_page t) = λ url.
    (view_from_url url ≡ some discover_view)
    × (project_type_from_pathname (url.pathname) ≡ some t)
    × (project_from_url url ≡ none)

-- A page whose names can stand in a path, once written into the address, is the page that is read
-- from it: `viewFromUrl` gives its view, its reader the same names, and no project of the address
-- before is left selected, whatever that address was. The browser keeps a path of plain
-- segments, of which there is at least one.
pub write_page-IsPageShown :
    (assign_pathname : Text → Text)
    → KeepsPlain assign_pathname
    → (page : Page) (url url' : Url) → IsNamed page
    → write_page assign_pathname page url ≡ some url'
    → IsPageShown page url'
write_page-IsPageShown assign_pathname keeps (profile_page username) url url' named h =
    write_profile_to_url-IsShown assign_pathname keeps username url url' named h
write_page-IsPageShown assign_pathname keeps (organization_page slug) url url' named h =
    write_organization_to_url-IsShown assign_pathname keeps slug url url' named h
write_page-IsPageShown assign_pathname keeps (collection_page collection) url url' named h =
    write_collection_to_url-IsShown assign_pathname keeps collection url url' named.0 named.1 h
write_page-IsPageShown assign_pathname keeps (edit_page target) url url' named h =
    write_dashboard_edit_to_url-IsShown assign_pathname keeps target url url' named h
write_page-IsPageShown assign_pathname keeps (list_page t) url url' named h =
    write_project_list_to_url-view assign_pathname keeps t url url' h
