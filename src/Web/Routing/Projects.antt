-- ===== src/Web/Routing/Projects.antt =====
-- The page of a project and the list of a type in apps/web/src/app/routing.ts, which live in the
-- path and in the query, and the two readers of a project.
use moddery.Base.{
  ◌≡◌, ◌≢◌, ◌↔◌, refl, ap, subst, sym, ◌∙◌, List, [], ◌∷◌, ◌++◌, Option, none, some, Text, text,
  teq, true, false, is_empty, Option-cases, inl, inr, ◌⊎◌,
}
use moddery.Web.Uri.{encode_uri_component}
use moddery.Web.Uri.RoundTrip.{some-eq}
use moddery.Web.Paths.{
  ProjectType, mod_type, resourcepack, datapack, shader, modpack, plugin, project_path, type_name,
  type_path, project_type_named, project_type_from_pathname, path_segments,
}
use moddery.Web.Paths.Segments.{path_of, encoded_then-eq-some}
use moddery.Web.Routing.{
  discover_view, Url, SelectedProject, get_param, delete_param, set_param, before_query,
  project_from_url, project_from_navigation_url, project_type_from_navigation_url, with_slug,
  write_project_to_url, write_project_at, write_project_list_to_url, static_view_from_pathname,
  view_at, view_from_url, raw_type, named_or, type_or_mod,
}
use moddery.Web.Routing.Params.{get-set_same, get-set_other, get-delete_other}
use moddery.Web.Routing.Views.{
  is_plain, KeepsPlain, write_path-eq-some, view-segments, view_of_segments,
}

type_path-is_plain : (t : ProjectType) → is_plain (type_path t) ≡ true
unfolding is_plain
type_path-is_plain mod_type = refl
type_path-is_plain resourcepack = refl
type_path-is_plain datapack = refl
type_path-is_plain shader = refl
type_path-is_plain modpack = refl
type_path-is_plain plugin = refl

static-type_path : (t : ProjectType) → static_view_from_pathname (path_of (type_path t ∷ [])) ≡ none
unfolding static_view_from_pathname view_at teq
static-type_path mod_type = refl
static-type_path resourcepack = refl
static-type_path datapack = refl
static-type_path shader = refl
static-type_path modpack = refl
static-type_path plugin = refl

named-type_name : (t : ProjectType) → project_type_named (type_name t) ≡ some t
unfolding project_type_named
named-type_name mod_type = refl
named-type_name resourcepack = refl
named-type_name datapack = refl
named-type_name shader = refl
named-type_name modpack = refl
named-type_name plugin = refl

listed :
    (t : ProjectType) (url : Url) → view_of_segments (type_path t ∷ []) url ≡ some discover_view
unfolding teq
listed mod_type url = refl
listed resourcepack url = refl
listed datapack url = refl
listed shader url = refl
listed modpack url = refl
listed plugin url = refl

view_of_type :
    (t : ProjectType) (url : Url)
    → (url.pathname) ≡ path_of (type_path t ∷ [])
    → view_from_url url ≡ some discover_view
view_of_type t url e =
    view-segments (type_path t ∷ []) url (type_path-is_plain t, tt) (static-type_path t) e
    ∙ listed t url

type_of_path : (t : ProjectType) → project_type_from_pathname (path_of (type_path t ∷ [])) ≡ some t
unfolding project_type_from_pathname path_segments teq
type_of_path mod_type = refl
type_of_path resourcepack = refl
type_of_path datapack = refl
type_of_path shader = refl
type_of_path modpack = refl
type_of_path plugin = refl

cut-query :
    (t : ProjectType) (coded after path : Text)
    → text "/" ++ type_path t ++ text "?project=" ++ coded ++ after ≡ path
    → before_query path ≡ path_of (type_path t ∷ [])
unfolding before_query
cut-query mod_type coded after path e = rw (← e) refl
cut-query resourcepack coded after path e = rw (← e) refl
cut-query datapack coded after path e = rw (← e) refl
cut-query shader coded after path e = rw (← e) refl
cut-query modpack coded after path e = rw (← e) refl
cut-query plugin coded after path e = rw (← e) refl

before_query-project_path :
    (t : ProjectType) (slug path : Text)
    → project_path t slug ≡ some path
    → before_query path ≡ path_of (type_path t ∷ [])
unfolding project_path
before_query-project_path t slug path h = elim (Option-cases (encode_uri_component (type_name t))) [
  | inl bad ↦ cc (rw (bad, project_path) at h)
  | inr (name, e) ↦
      let (coded, f, k) =
        encoded_then-eq-some (text "/" ++ type_path t ++ text "?project=") slug
          (text "&type=" ++ name) path (rw (e, project_path) at h) in
      cut-query t coded (text "&type=" ++ name) path k
]

-- The query that `writeProjectToUrl` leaves.
project_params : SelectedProject → List (Text × Text) → List (Text × Text)
project_params project params = delete_param (text "view") (
    set_param (text "type") (type_name (project.project_type))
      (set_param (text "project") (project.slug) params))

get-project_params :
    (project : SelectedProject) (params : List (Text × Text))
    → (get_param (text "project") (project_params project params) ≡ some (project.slug))
      × (get_param (text "type") (project_params project params)
          ≡ some (type_name (project.project_type)))
unfolding project_params teq
get-project_params project params =
    let name = type_name (project.project_type) in
    let p₁ = set_param (text "project") (project.slug) params in
    let p₂ = set_param (text "type") name p₁ in
    (
      get-delete_other (text "project") (text "view") p₂ refl
          ∙ get-set_other (text "project") (text "type") name p₁ refl
          ∙ get-set_same (text "project") (project.slug) params,
      get-delete_other (text "type") (text "view") p₂ refl ∙ get-set_same (text "type") name p₁,
    )

with_slug_of_some :
    (s : Text) (t : ProjectType)
    → is_empty s ≡ false
    → with_slug (some s) t ≡ some (record { slug = s; project_type = t })
with_slug_of_some [] t h = cc
with_slug_of_some (c ∷ s) t h = refl

readers_of_params :
    (project : SelectedProject) (url : Url)
    → is_empty (project.slug) ≡ false
    → get_param (text "project") (url.search_params) ≡ some (project.slug)
    → get_param (text "type") (url.search_params) ≡ some (type_name (project.project_type))
    → (project_from_url url ≡ some project) × (project_from_navigation_url url ≡ some project)
unfolding project_from_url project_from_navigation_url project_type_from_navigation_url
readers_of_params project url h e₁ e₂ =
    let named = named-type_name (project.project_type) in
    let read = with_slug_of_some (project.slug) (project.project_type) h in
    (rw (e₁, e₂) (rw (named, raw_type) read), rw (e₁, e₂) (rw (named, named_or) read))

write_project_at-eq-some :
    (assign_pathname : Text → Text) (o : Option Text) (project : SelectedProject) (url url' : Url)
    → write_project_at assign_pathname o project url ≡ some url'
    → (path : Text) × (o ≡ some path)
      × (record url {
        pathname = assign_pathname (before_query path);
        search_params = project_params project (url.search_params);
      }
          ≡ url')
unfolding project_params before_query delete_param set_param
write_project_at-eq-some assign_pathname none project url url' h = cc
write_project_at-eq-some assign_pathname (some path) project url url' h = (path, refl, cc)

listed_path : (t : ProjectType) → text "/" ++ type_path t ≡ path_of (type_path t ∷ [])
listed_path mod_type = refl
listed_path resourcepack = refl
listed_path datapack = refl
listed_path shader = refl
listed_path modpack = refl
listed_path plugin = refl

module _ (assign_pathname : Text → Text) (keeps : KeepsPlain assign_pathname) where
  -- A project whose slug is not empty, once it could be written into an address, is the project that
  -- both readers read, and the view is the list. The browser keeps a path of plain segments, of which
  -- there is at least one.
  pub write_project_to_url-both :
      (project : SelectedProject) (url url' : Url)
      → is_empty (project.slug) ≡ false
      → write_project_to_url assign_pathname (some project) url ≡ some url'
      → (view_from_url url' ≡ some discover_view)
        × (project_from_url url' ≡ some project)
        × (project_from_navigation_url url' ≡ some project)
  unfolding write_project_to_url project_params
  write_project_to_url-both project url url' some_slug h =
      let t = project.project_type in
      let (path, e, same) = write_project_at-eq-some assign_pathname _ project url url' h in
      let next = record url {
        pathname = assign_pathname (before_query path);
        search_params = project_params project (url.search_params);
      } in
      let kept = keeps (type_path t) [] (type_path-is_plain t, tt) in
      let cut = before_query-project_path t (project.slug) path e in
      let (e₁, e₂) = get-project_params project (url.search_params) in
      let read = readers_of_params project next some_slug e₁ e₂ in
      subst
        (λ (u : Url).
          (view_from_url u ≡ some discover_view)
          × (project_from_url u ≡ some project)
          × (project_from_navigation_url u ≡ some project))
        same (view_of_type t next (ap assign_pathname cut ∙ kept), read.0, read.1)

  -- The list of a type is read back as the list of that type, with no project selected.
  pub write_project_list_to_url-view :
      (t : ProjectType) (url url' : Url)
      → write_project_list_to_url assign_pathname t url ≡ some url'
      → (view_from_url url' ≡ some discover_view)
        × (project_type_from_pathname (url'.pathname) ≡ some t)
        × (project_from_url url' ≡ none)
  unfolding write_project_list_to_url
  write_project_list_to_url-view t url url' h =
      let (path, e, at_path, no_project) = write_path-eq-some assign_pathname _ url url' h in
      let place : (url'.pathname) ≡ path_of (type_path t ∷ []) =
        at_path
        ∙ ap assign_pathname (some-eq (sym e))
        ∙ ap assign_pathname (listed_path t)
        ∙ keeps (type_path t) [] (type_path-is_plain t, tt) in
      (view_of_type t url' place, ap project_type_from_pathname place ∙ type_of_path t, no_project)

-- The reader of the first load and the reader of a navigation agree on an address whose query
-- names no type or a type that there is.
pub project_readers_agree :
    (url : Url)
    → (get_param (text "type") (url.search_params) ≡ none)
      ⊎ ((t : ProjectType) × (get_param (text "type") (url.search_params) ≡ some (type_name t)))
    → project_from_navigation_url url ≡ project_from_url url
unfolding project_from_url project_from_navigation_url project_type_from_navigation_url
project_readers_agree url (inl e) = rw e refl
project_readers_agree url (inr (t, e)) = rw e (rw (named-type_name t, raw_type, named_or) refl)

-- The query names a type that there is not, and the path one that is not the mods.
abbrev pub IsSplit : Option Text → Option ProjectType → Type 0
IsSplit named of_path =
    (name : Text) × (t : ProjectType) × (named ≡ some name)
    × (project_type_named name ≡ none)
    × (of_path ≡ some t)
    × (t ≢ mod_type)

some_type : {t u : ProjectType} → ◌≡◌ {A = Option ProjectType} (some t) (some u) → t ≡ u
some_type h = cc

unknown_type_iff :
    (name : Text) (of_path : Option ProjectType)
    → project_type_named name ≡ none
    → (mod_type ≢ type_or_mod of_path) ↔ IsSplit (some name) of_path
unknown_type_iff name none unknown = ((λ apart. absurd (apart refl)), λ split. cc (split.4))
unknown_type_iff name (some t) unknown = (
  λ apart. (name, t, refl, unknown, refl, λ e. apart (sym e)),
  λ split e. split.5 (sym (some_type (split.4)) ∙ sym e),
)

types_iff :
    (named : Option Text) (of_path : Option ProjectType)
    → (type_or_mod (raw_type named of_path) ≢ type_or_mod (named_or named of_path))
      ↔ IsSplit named of_path
types_iff none of_path = ((λ apart. absurd (apart refl)), λ split. cc (split.2))
types_iff (some name) of_path = elim (Option-cases (project_type_named name)) [
  | inl unknown ↦ rw (unknown, raw_type, named_or) (unknown_type_iff name of_path unknown)
  | inr (t, known) ↦ (
    λ apart. absurd (apart (rw (known, raw_type, named_or) refl)),
    λ split. cc (known, ap project_type_named (some-eq split.2), split.3),
  )
]

with_slug-type :
    (s : Text) (t u : ProjectType)
    → is_empty s ≡ false
    → with_slug (some s) t ≡ with_slug (some s) u
    → t ≡ u
with_slug-type [] t u h e = cc
with_slug-type (c ∷ s) t u h e = cc

-- On an address that names a project the two readers differ if, and only if, the query names a type
-- that there is not and the path is the list of a type other than the mods.
pub unknown_type_splits_readers :
    (url : Url) (slug : Text)
    → is_empty slug ≡ false
    → get_param (text "project") (url.search_params) ≡ some slug
    → (project_from_url url ≢ project_from_navigation_url url)
      ↔ IsSplit
          (get_param (text "type") (url.search_params))
          (project_type_from_pathname (url.pathname))
unfolding project_from_url project_from_navigation_url project_type_from_navigation_url
unknown_type_splits_readers url slug h e =
    let named = get_param (text "type") (url.search_params) in
    let of_path = project_type_from_pathname (url.pathname) in
    let first = type_or_mod (raw_type named of_path) in
    let later = type_or_mod (named_or named of_path) in
    let (to, back) = types_iff named of_path in
    rw e (
      (λ apart. to (λ same. apart (ap (λ t. with_slug (some slug) t) same))),
      λ split same. back split (with_slug-type slug first later h same),
    )
