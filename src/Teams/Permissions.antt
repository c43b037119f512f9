-- ===== src/Teams/Permissions.antt =====
-- The permissions that an input may grant: `projectMemberPermissions` and
-- `organizationMemberPermissions`.
use moddery.Base.{
  find_if, unique, unique-AreDistinct, unique-Among, ap, ◌∙◌, ◌≡◌, ◌↔◌, refl, sym, List, [], ◌∷◌,
  Option, none, some, Text, text, teq, teq_sound, teq_refl, true, Among, AreDistinct, inl, inr,
  Bool-cases, Option-cases, arith,
}

pub data TeamPermission : Type 0 where
  manage_details manage_versions manage_members manage_settings view_analytics : TeamPermission

-- The enum's value at run time.
abbrev pub permission_name : TeamPermission → Text
permission_name manage_details = text "MANAGE_DETAILS"
permission_name manage_versions = text "MANAGE_VERSIONS"
permission_name manage_members = text "MANAGE_MEMBERS"
permission_name manage_settings = text "MANAGE_SETTINGS"
permission_name view_analytics = text "VIEW_ANALYTICS"

abbrev pub project_allowed : List TeamPermission
project_allowed =
    manage_details ∷ manage_members ∷ manage_settings ∷ manage_versions ∷ view_analytics ∷ []

-- An organization has no releases of its own.
abbrev pub organization_allowed : List TeamPermission
organization_allowed = manage_details ∷ manage_members ∷ manage_settings ∷ view_analytics ∷ []

-- `allowed.has(permission)`, with the enum's value.
abbrev pub permission_of : List TeamPermission → Text → Option TeamPermission
permission_of allowed s = find_if (λ p. teq (permission_name p) s) allowed

granted_from : List TeamPermission → List Text → List TeamPermission
granted_from allowed [] = []
granted_from allowed (s ∷ names) = elim (permission_of allowed s) [
  | none ↦ granted_from allowed names
  | some p ↦ p ∷ granted_from allowed names
]

-- `permissions ?? []`.
abbrev pub names_of : Option (List Text) → List Text
names_of none = []
names_of (some names) = names

unfoldable pub member_permissions : List TeamPermission → Option (List Text) → List TeamPermission
unfolding granted_from
member_permissions allowed permissions = granted_from allowed (unique (names_of permissions))

unfoldable pub project_member_permissions : Option (List Text) → List TeamPermission
unfolding member_permissions
project_member_permissions = member_permissions project_allowed

unfoldable pub organization_member_permissions : Option (List Text) → List TeamPermission
unfolding member_permissions
organization_member_permissions = member_permissions organization_allowed

name_injective : (p q : TeamPermission) → teq (permission_name p) (permission_name q) ≡ true → p ≡ q
unfolding teq
name_injective manage_details manage_details h = refl
name_injective manage_versions manage_versions h = refl
name_injective manage_members manage_members h = refl
name_injective manage_settings manage_settings h = refl
name_injective view_analytics view_analytics h = refl
name_injective _ _ h = cc

found_sound :
    (allowed : List TeamPermission) (s : Text) (p : TeamPermission)
    → permission_of allowed s ≡ some p
    → Among p allowed × (s ≡ permission_name p)
found_sound [] s p h = cc
found_sound (q ∷ allowed) s p h = elim (Bool-cases (teq (permission_name q) s)) [
  | inl e ↦
      let same : q ≡ p = ground arith in
      (inl (sym same), sym (teq_sound _ s e) ∙ ap permission_name same)
  | inr e ↦ let (m, k) = found_sound allowed s p (ground arith) in (inr m, k)
]

found_complete :
    (allowed : List TeamPermission) (p : TeamPermission)
    → Among p allowed
    → permission_of allowed (permission_name p) ≡ some p
found_complete [] p m = absurd m
found_complete (q ∷ allowed) p m = elim (Bool-cases (teq (permission_name q) (permission_name p))) [
  | inl e ↦ rw e (ap some (name_injective q p e))
  | inr e ↦ elim m [
    | inl same ↦
        cc
          (ap (λ x. teq (permission_name q) (permission_name x)) same, teq_refl (permission_name q))
    | inr k ↦ rw e (found_complete allowed p k)
  ]
]

module _ (allowed : List TeamPermission) where
  granted_from-Among :
      (names : List Text) (p : TeamPermission)
      → Among p (granted_from allowed names)
      → Among p allowed × Among (permission_name p) names
  unfolding granted_from
  granted_from-Among [] p m = absurd m
  granted_from-Among (s ∷ names) p m = elim (Option-cases (permission_of allowed s)) [
    | inl e ↦ let (k, j) = granted_from-Among names p (rw (e, granted_from) at m) in (k, inr j)
    | inr (q, e) ↦ elim (rw (e, granted_from) at m) [
      | inl same ↦
          let (k, named) = found_sound allowed s q e in
          (rw same k, inl (ap permission_name same ∙ sym named))
      | inr late ↦ let (k, j) = granted_from-Among names p late in (k, inr j)
    ]
  ]

  Among-granted_from :
      (names : List Text) (p : TeamPermission)
      → Among p allowed
      → Among (permission_name p) names
      → Among p (granted_from allowed names)
  unfolding granted_from
  Among-granted_from [] p m k = absurd k
  Among-granted_from (s ∷ names) p m (inl e) =
      rw (← e) (rw (found_complete allowed p m, granted_from) (inl refl))
  Among-granted_from (s ∷ names) p m (inr k) =
      let rest = Among-granted_from names p m k in
      elim (Option-cases (permission_of allowed s)) [
        | inl e ↦ rw (e, granted_from) rest
        | inr (q, e) ↦ rw (e, granted_from) (inr rest)
      ]

  granted_from-AreDistinct :
      (names : List Text) → AreDistinct names → AreDistinct (granted_from allowed names)
  unfolding granted_from
  granted_from-AreDistinct [] d = tt
  granted_from-AreDistinct (s ∷ names) (apart, d) = elim (Option-cases (permission_of allowed s)) [
    | inl e ↦ rw (e, granted_from) (granted_from-AreDistinct names d)
    | inr (q, e) ↦
        rw (e, granted_from)
          (
            (λ m. apart (rw (found_sound allowed s q e).1 (granted_from-Among names q m).1)),
            granted_from-AreDistinct names d,
          )
  ]

  -- The permissions that an input is given are pairwise different, and a permission is among them
  -- exactly when it is allowed and the input names it; unknown names are passed over.
  pub member_permissions_iff :
      (permissions : Option (List Text))
      → AreDistinct (member_permissions allowed permissions)
        × ((p : TeamPermission)
            → Among p (member_permissions allowed permissions)
              ↔ (Among p allowed × Among (permission_name p) (names_of permissions)))
  unfolding member_permissions
  member_permissions_iff permissions =
      let names = names_of permissions in
      (
        granted_from-AreDistinct (unique names) (unique-AreDistinct names),
        λ p. (
          λ m.
              let (k, j) = granted_from-Among (unique names) p m in
              (k, (unique-Among names (permission_name p)).0 j),
          λ h.
              Among-granted_from (unique names) p h.0
                ((unique-Among names (permission_name p)).1 h.1),
        ),
      )
