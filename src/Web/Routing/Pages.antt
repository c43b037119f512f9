-- ===== src/Web/Routing/Pages.antt =====
-- The pages that apps/web/src/app/routing.ts writes into the address, and what is read back.
use mathlib.Core.List.{append_assoc}
use moddery.Base.{
  ◌≡◌, refl, ap, sym, ◌∙◌, List, [], ◌∷◌, ◌++◌, some, Text, text, teq, true, All, Option-cases, inl,
  inr,
}
use moddery.Web.Uri.{encode_uri_component}
use moddery.Web.Uri.RoundTrip.{AreUnits, decode-encode_uri_component}
use moddery.Web.Paths.{
  DashboardEditEntity, projects, organizations, collections, versions, DashboardEditTarget,
  SelectedCollection, found, entity_named, user_path, organization_path, collection_path,
  dashboard_edit_path, profile_from_pathname, organization_from_pathname, collection_from_pathname,
  dashboard_edit_from_pathname, edit_segments, after_resource, two_segments, one_segment,
  entity_name, decoded,
}
use moddery.Web.Paths.Segments.{path_of, decoded-encode, encoded_then-eq-some}
use moddery.Web.Routing.{
  collections_view, dashboard_view, organization_view, profile_view, Url, static_view_from_pathname,
  view_at, write_dashboard_edit_to_url, write_profile_to_url, write_collection_to_url,
  write_organization_to_url,
}
use moddery.Web.Routing.Views.{
  is_plain, KeepsPlain, IsName, coded-is_plain, segments_of_plain, write_path-eq-some,
  view-segments, IsShown, view_if_text_of_some,
}

regroup : (s t u : Text) → s ++ text "/" ++ t ++ u ≡ s ++ (text "/" ++ (t ++ u))
regroup s t u = append_assoc (s ++ text "/") t u ∙ append_assoc s (text "/") (t ++ u)

collection_path-eq-some :
    (collection : SelectedCollection) (path : Text)
    → collection_path collection ≡ some path
    → (owner : Text) × (slug : Text) × (encode_uri_component (collection.owner_username)
        ≡ some owner)
      × (encode_uri_component (collection.slug) ≡ some slug)
      × (path_of (text "collections" ∷ owner ∷ slug ∷ []) ≡ path)
unfolding collection_path
collection_path-eq-some collection path h =
    elim (Option-cases (encode_uri_component (collection.owner_username))) [
      | inl bad ↦ cc (rw (bad, collection_path) at h)
      | inr (owner, e) ↦
          let (slug, f, k) =
            encoded_then-eq-some (text "/collections/" ++ owner ++ text "/") (collection.slug) []
              path (rw (e, collection_path) at h) in
          let grouped = regroup owner slug [] in
          (owner, slug, e, f, sym (ap (λ (t : Text). text "/collections/" ++ t) grouped) ∙ k)
    ]

two-decoded :
    (collection : SelectedCollection) (owner slug : Text)
    → AreUnits (collection.owner_username)
    → AreUnits (collection.slug)
    → encode_uri_component (collection.owner_username) ≡ some owner
    → encode_uri_component (collection.slug) ≡ some slug
    → two_segments (some (owner ∷ slug ∷ [])) ≡ found collection
two-decoded collection owner slug units₁ units₂ e f =
    rw (decode-encode_uri_component (collection.owner_username) owner units₁ e, two_segments)
      (rw (decode-encode_uri_component (collection.slug) slug units₂ f, decoded) refl)

edit_path-eq-some :
    (target : DashboardEditTarget) (path : Text)
    → dashboard_edit_path target ≡ some path
    → (coded : Text) × (encode_uri_component (target.id) ≡ some coded)
      × (path_of (text "dashboard" ∷ entity_name (target.entity) ∷ coded ∷ text "edit" ∷ []) ≡ path)
unfolding dashboard_edit_path
edit_path-eq-some target path h =
    let name = entity_name (target.entity) in
    let (coded, e, k) =
      encoded_then-eq-some (text "/dashboard/" ++ name ++ text "/") (target.id) (text "/edit") path
        h in
    let grouped = regroup name coded (text "/edit") in
    (coded, e, sym (ap (λ (t : Text). text "/dashboard/" ++ t) grouped) ∙ k)

entity_named-entity_name : (e : DashboardEditEntity) → entity_named (entity_name e) ≡ some e
unfolding entity_named teq
entity_named-entity_name projects = refl
entity_named-entity_name organizations = refl
entity_named-entity_name collections = refl
entity_named-entity_name versions = refl

entity_name-is_plain : (e : DashboardEditEntity) → is_plain (entity_name e) ≡ true
unfolding is_plain
entity_name-is_plain projects = refl
entity_name-is_plain organizations = refl
entity_name-is_plain collections = refl
entity_name-is_plain versions = refl

module _ (assign_pathname : Text → Text) (keeps : KeepsPlain assign_pathname) where
  -- A user's page that is written is the page that is read, and the view is the profile.
  pub write_profile_to_url-IsShown :
      (username : Text) (url url' : Url)
      → IsName username
      → write_profile_to_url assign_pathname username url ≡ some url'
      → IsShown profile_view profile_from_pathname username url'
  unfolding write_profile_to_url user_path profile_from_pathname view_at teq
      static_view_from_pathname is_plain
  write_profile_to_url-IsShown username url url' name h =
      let (path, e, at_path, no_project) = write_path-eq-some assign_pathname _ url url' h in
      let (coded, g, k) = encoded_then-eq-some (text "/users/") username [] path e in
      let plain = coded-is_plain username coded name g in
      let segments = text "users" ∷ coded ∷ [] in
      let place : (url'.pathname) ≡ path_of segments =
        at_path
        ∙ ap assign_pathname (sym k)
        ∙ keeps (text "users") (coded ∷ []) (refl, (plain, tt)) in
      let read = decoded-encode (λ v. v) username coded name.1 g in
      (
        view-segments segments url' (refl, (plain, tt)) refl place
            ∙ view_if_text_of_some username _ profile_view _ name.0 read,
        ap profile_from_pathname place
            ∙ ap (λ (s : List Text). one_segment (after_resource (text "users") s))
                (segments_of_plain segments (refl, (plain, tt)))
            ∙ read,
        no_project,
      )

  -- The same of an organization's page.
  pub write_organization_to_url-IsShown :
      (slug : Text) (url url' : Url)
      → IsName slug
      → write_organization_to_url assign_pathname slug url ≡ some url'
      → IsShown organization_view organization_from_pathname slug url'
  unfolding write_organization_to_url organization_path organization_from_pathname view_at teq
      static_view_from_pathname is_plain
  write_organization_to_url-IsShown slug url url' name h =
      let (path, e, at_path, no_project) = write_path-eq-some assign_pathname _ url url' h in
      let (coded, g, k) = encoded_then-eq-some (text "/organizations/") slug [] path e in
      let plain = coded-is_plain slug coded name g in
      let segments = text "organizations" ∷ coded ∷ [] in
      let place : (url'.pathname) ≡ path_of segments =
        at_path
        ∙ ap assign_pathname (sym k)
        ∙ keeps (text "organizations") (coded ∷ []) (refl, (plain, tt)) in
      let read = decoded-encode (λ v. v) slug coded name.1 g in
      (
        view-segments segments url' (refl, (plain, tt)) refl place
            ∙ view_if_text_of_some slug _ organization_view _ name.0 read,
        ap organization_from_pathname place
            ∙ ap (λ (s : List Text). one_segment (after_resource (text "organizations") s))
                (segments_of_plain segments (refl, (plain, tt)))
            ∙ read,
        no_project,
      )

  -- The same of a collection, with its owner.
  pub write_collection_to_url-IsShown :
      (collection : SelectedCollection) (url url' : Url)
      → IsName (collection.owner_username)
      → IsName (collection.slug)
      → write_collection_to_url assign_pathname collection url ≡ some url'
      → IsShown collections_view collection_from_pathname collection url'
  unfolding write_collection_to_url collection_path collection_from_pathname view_at teq
      static_view_from_pathname is_plain
  write_collection_to_url-IsShown collection url url' owner_name slug_name h =
      let (path, e, at_path, no_project) = write_path-eq-some assign_pathname _ url url' h in
      let (owner, slug, g₁, g₂, k) = collection_path-eq-some collection path e in
      let plain₁ = coded-is_plain (collection.owner_username) owner owner_name g₁ in
      let plain₂ = coded-is_plain (collection.slug) slug slug_name g₂ in
      let segments = text "collections" ∷ owner ∷ slug ∷ [] in
      let place : (url'.pathname) ≡ path_of segments =
        at_path
        ∙ ap assign_pathname (sym k)
        ∙ keeps (text "collections") (owner ∷ slug ∷ []) (refl, (plain₁, (plain₂, tt))) in
      let read : two_segments (some (owner ∷ slug ∷ [])) ≡ found collection =
        two-decoded collection owner slug owner_name.1 slug_name.1 g₁ g₂ in
      (
        view-segments segments url' (refl, (plain₁, (plain₂, tt))) refl place ∙ rw read refl,
        ap collection_from_pathname place
            ∙ ap (λ (s : List Text). two_segments (after_resource (text "collections") s))
                (segments_of_plain segments (refl, (plain₁, (plain₂, tt))))
            ∙ read,
        no_project,
      )

  -- The same of a form of the dashboard.
  pub write_dashboard_edit_to_url-IsShown :
      (target : DashboardEditTarget) (url url' : Url)
      → IsName (target.id)
      → write_dashboard_edit_to_url assign_pathname target url ≡ some url'
      → IsShown dashboard_view dashboard_edit_from_pathname target url'
  unfolding write_dashboard_edit_to_url dashboard_edit_from_pathname view_at teq
      static_view_from_pathname is_plain
  write_dashboard_edit_to_url-IsShown target url url' name h =
      let (path, e, at_path, no_project) = write_path-eq-some assign_pathname _ _ url' h in
      let (coded, g, k) = edit_path-eq-some target path e in
      let entity = target.entity in
      let segments = text "dashboard" ∷ entity_name entity ∷ coded ∷ text "edit" ∷ [] in
      let plain : All (λ s. is_plain s ≡ true) segments = (
        refl,
        (entity_name-is_plain entity, (coded-is_plain (target.id) coded name g, (refl, tt))),
      ) in
      let place : (url'.pathname) ≡ path_of segments =
        at_path
        ∙ ap assign_pathname (sym k)
        ∙ keeps (text "dashboard") (entity_name entity ∷ coded ∷ text "edit" ∷ []) plain in
      let read : edit_segments (some (entity_name entity ∷ coded ∷ text "edit" ∷ []))
          ≡ found target =
        rw (entity_named-entity_name entity, edit_segments)
          (decoded-encode (λ (v : Text). record { entity = entity; id = v }) (target.id) coded
            name.1 g) in
      (
        view-segments segments url' plain refl place ∙ rw read refl,
        ap dashboard_edit_from_pathname place
            ∙ ap (λ (s : List Text). edit_segments (after_resource (text "dashboard") s))
                (segments_of_plain segments plain)
            ∙ read,
        no_project,
      )
