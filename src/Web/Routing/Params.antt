-- ===== src/Web/Routing/Params.antt =====
-- The query of an address after `set` and `delete`, for apps/web/src/app/routing.ts.
use moddery.Base.{
  ◌≡◌, ◌≢◌, refl, List, [], ◌∷◌, none, some, Text, text, teq, teq_sound, teq_refl, false,
  Bool-cases, inl, inr,
}
use moddery.Web.Routing.{Url, get_param, delete_param, set_param, clear_project_search_params}

teq-false_of_ne : (s t : Text) → s ≢ t → teq s t ≡ false
teq-false_of_ne s t h = elim (Bool-cases (teq s t)) [
  | inl e ↦ absurd (h (teq_sound s t e))
  | inr e ↦ e
]

pub get-delete_same :
    (name : Text) (params : List (Text × Text)) → get_param name (delete_param name params) ≡ none
unfolding get_param delete_param
get-delete_same name [] = refl
get-delete_same name ((key, value) ∷ params) = elim (Bool-cases (teq key name)) [
  | inl e ↦ rw e (get-delete_same name params)
  | inr e ↦ rw e (rw e (get-delete_same name params))
]

pub get-delete_other :
    (name other : Text) (params : List (Text × Text))
    → teq other name ≡ false
    → get_param name (delete_param other params) ≡ get_param name params
unfolding get_param delete_param
get-delete_other name other [] h = refl
get-delete_other name other ((key, value) ∷ params) h = elim (Bool-cases (teq key other)) [
  | inl e ↦
      let same : teq key name ≡ false = rw (teq_sound key other e) h in
      rw e (rw same (get-delete_other name other params h))
  | inr e ↦ rw e (elim (Bool-cases (teq key name)) [
    | inl f ↦ rw f refl
    | inr f ↦ rw f (get-delete_other name other params h)
  ])
]

pub get-set_same :
    (name value : Text) (params : List (Text × Text))
    → get_param name (set_param name value params) ≡ some value
unfolding get_param set_param
get-set_same name value [] = rw (teq_refl name) refl
get-set_same name value ((key, old) ∷ params) = elim (Bool-cases (teq key name)) [
  | inl e ↦ rw e (rw (teq_refl name) refl)
  | inr e ↦ rw e (rw e (get-set_same name value params))
]

pub get-set_other :
    (name other value : Text) (params : List (Text × Text))
    → teq other name ≡ false
    → get_param name (set_param other value params) ≡ get_param name params
unfolding get_param set_param
get-set_other name other value [] h = rw h refl
get-set_other name other value ((key, old) ∷ params) h = elim (Bool-cases (teq key other)) [
  | inl e ↦
      let same : teq key name ≡ false = rw (teq_sound key other e) h in
      rw e (rw h (rw same (get-delete_other name other params h)))
  | inr e ↦ rw e (elim (Bool-cases (teq key name)) [
    | inl f ↦ rw f refl
    | inr f ↦ rw f (get-set_other name other value params h)
  ])
]

-- No project is named after the parameters of a project are cleared.
pub get-clear_project :
    (url : Url)
    → get_param (text "project") ((clear_project_search_params url).search_params) ≡ none
unfolding clear_project_search_params teq
get-clear_project url =
    let p₁ = delete_param (text "project") (url.search_params) in
    let p₂ = delete_param (text "type") p₁ in
    let p₃ = delete_param (text "tab") p₂ in
    rw (get-delete_other (text "project") (text "view") p₃ refl) (
      rw (get-delete_other (text "project") (text "tab") p₂ refl) (
        rw (get-delete_other (text "project") (text "type") p₁ refl)
          (get-delete_same (text "project") (url.search_params))))
