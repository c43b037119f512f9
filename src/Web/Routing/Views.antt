-- ===== src/Web/Routing/Views.antt =====
-- What the reads of apps/web/src/app/routing.ts see at a path of plain segments, and at an address
-- that a write has pushed.
use moddery.Base.{
  ◌≡◌, refl, ap, List, [], ◌∷◌, Option, none, some, Text, text, teq, Bool, true, false, not, ◌&&◌,
  ◌||◌, All, all_of, is_empty, Bool-cases, inl, inr, arith,
}
use moddery.Web.Uri.{decode_uri_component, encode_uri_component}
use moddery.Web.Uri.Segments.{is_written, AreWritten, AreWritten-ne, encode-AreWritten}
use moddery.Web.Uri.RoundTrip.{AreUnits, decode-encode_uri_component}
use moddery.Web.Paths.{
  Reading, found, path_segments, profile_from_pathname, organization_from_pathname,
  collection_from_pathname, dashboard_edit_from_pathname, project_type_from_pathname, edit_segments,
  after_resource, two_segments, one_segment, first_segment,
}
use moddery.Web.Paths.Segments.{path_of, IsSegment, path_segments-path_of, encoded-IsSegment}
use moddery.Web.Routing.{
  AppView, view_if_found, view_if_text, list_view, query_view, collections_view, dashboard_view,
  organization_view, profile_view, Url, get_param, clear_project_search_params,
  static_view_from_pathname, view_from_url, project_from_url, write_path,
}
use moddery.Web.Routing.Params.{get-clear_project}

-- `.` and `..`, which a browser resolves also where they are percent-encoded.
unfoldable pub is_dotted : Option Text → Bool
unfolding teq
is_dotted none = false
is_dotted (some value) = teq value (text ".") || teq value (text "..")

-- A segment that stays in a path as it is.
unfoldable pub is_plain : Text → Bool
unfolding is_written is_dotted decode_uri_component teq
is_plain s = not (is_empty s) && all_of is_written s && not (is_dotted (decode_uri_component s))

-- What the assignment of a path to the address promises: a path of one plain segment or more is kept.
-- An empty path would become `/`.
abbrev pub KeepsPlain : (Text → Text) → Type 0
KeepsPlain assign_pathname =
    (first : Text) (rest : List Text)
    → All (λ s. is_plain s ≡ true) (first ∷ rest)
    → assign_pathname (path_of (first ∷ rest)) ≡ path_of (first ∷ rest)

-- A name that a path can hold: UTF-16 code units, not empty, not `.` and not `..`.
abbrev pub IsName : Text → Type 0
IsName value = (is_empty value ≡ false) × AreUnits value × (is_dotted (some value) ≡ false)

all_of-is_written : (s : Text) → AreWritten s → all_of is_written s ≡ true
all_of-is_written [] h = refl
all_of-is_written (c ∷ s) h = rw h.0 (all_of-is_written s h.1)

pub coded-is_plain :
    (value coded : Text)
    → IsName value
    → encode_uri_component value ≡ some coded
    → is_plain coded ≡ true
unfolding is_plain
coded-is_plain value coded (some_text, units, plain) e =
    rw ((encoded-IsSegment value coded some_text units e).0) (
      rw (all_of-is_written coded (encode-AreWritten value coded units e))
        (rw (decode-encode_uri_component value coded units e) (rw plain refl)))

all_of-AreWritten : (s : Text) → all_of is_written s ≡ true → AreWritten s
all_of-AreWritten [] h = tt
all_of-AreWritten (c ∷ s) h = elim (Bool-cases (is_written c)) [
  | inl e ↦ (e, all_of-AreWritten s (rw e at h))
  | inr e ↦ cc (rw e at h)
]

plain-IsSegment :
    (segments : List Text) → All (λ s. is_plain s ≡ true) segments → All IsSegment segments
unfolding is_plain is_written
plain-IsSegment [] h = tt
plain-IsSegment (s ∷ rest) h =
    let whole : is_empty s ≡ false = ground arith in
    let written : all_of is_written s ≡ true = ground arith in
    ((whole, AreWritten-ne b'/' s refl (all_of-AreWritten s written)), plain-IsSegment rest h.1)

pub segments_of_plain :
    (segments : List Text)
    → All (λ s. is_plain s ≡ true) segments
    → path_segments (path_of segments) ≡ segments
segments_of_plain segments h = path_segments-path_of segments (plain-IsSegment segments h)

no_project_of_clear : (url : Url) → project_from_url (clear_project_search_params url) ≡ none
unfolding project_from_url
no_project_of_clear url = rw (get-clear_project url) refl

-- What is known of the address that a write pushes.
pub write_path-eq-some :
    (assign_pathname : Text → Text) (o : Option Text) (url url' : Url)
    → write_path assign_pathname o url ≡ some url'
    → (path : Text) × (o ≡ some path)
      × ((url'.pathname) ≡ assign_pathname path)
      × (project_from_url url' ≡ none)
unfolding clear_project_search_params
write_path-eq-some assign_pathname none url url' h = cc
write_path-eq-some assign_pathname (some path) url url' h =
    let next = record url { pathname = assign_pathname path } in
    let e : clear_project_search_params next ≡ url' = cc in
    (path, refl, rw (← e) refl, rw (← e) (no_project_of_clear next))

-- The view of a path that is no static one, by its segments.
abbrev pub view_of_segments : List Text → Url → Option AppView
view_of_segments segments url =
    view_if_found (edit_segments (after_resource (text "dashboard") segments)) dashboard_view (
      view_if_found (two_segments (after_resource (text "collections") segments)) collections_view (
        view_if_text (one_segment (after_resource (text "organizations") segments))
          organization_view
          (view_if_text (one_segment (after_resource (text "users") segments)) profile_view (
            some (
              list_view (first_segment segments)
                (query_view (get_param (text "view") (url.search_params))))))))

pub view-segments :
    (segments : List Text) (url : Url)
    → All (λ s. is_plain s ≡ true) segments
    → static_view_from_pathname (path_of segments) ≡ none
    → (url.pathname) ≡ path_of segments
    → view_from_url url ≡ view_of_segments segments url
unfolding view_from_url profile_from_pathname organization_from_pathname collection_from_pathname
    dashboard_edit_from_pathname project_type_from_pathname
view-segments segments url h not_static e =
    let e₁ : static_view_from_pathname (url.pathname) ≡ none = rw e not_static in
    let e₂ : path_segments (url.pathname) ≡ segments = rw e (segments_of_plain segments h) in
    rw e₁ (ap (λ (s : List Text). view_of_segments s url) e₂)

-- The address shows a view and, read by `reader`, `value`; no project is selected.
abbrev pub IsShown {ℓ} : {A : Type ℓ} → AppView → (Text → Reading A) → A → Url → Type ℓ
IsShown view reader value url =
    (view_from_url url ≡ some view)
    × (reader (url.pathname) ≡ found value)
    × (project_from_url url ≡ none)

pub view_if_text_of_some :
    (value : Text) (reading : Reading Text) (view : AppView) (next : Option AppView)
    → is_empty value ≡ false
    → reading ≡ found value
    → view_if_text reading view next ≡ some view
view_if_text_of_some [] reading view next h e = cc
view_if_text_of_some (c ∷ s) reading view next h e = rw e refl
