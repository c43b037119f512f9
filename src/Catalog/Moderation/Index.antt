-- ===== src/Catalog/Moderation/Index.antt =====
-- A decision of a moderator keeps the search index and the cache in step with the table.
use moddery.Base.{
  ℕ, ◌≡◌, ◌≢◌, ◌↔◌, ◌⊎◌, inl, inr, refl, sym, ap, ◌∙◌, true, not, ◌==◌, ==_iff, eq-false_of_ne,
  some, Text, teq, teq_refl, ok, or_throw, >>=-eq-ok, or_throw-eq-ok, ok_injective, Bool-cases,
  List, Among, Among-keep_if, keep_if-Among, if◌then◌else◌, not_found, internal_error, arith,
}
use moddery.Catalog.Moderation.{
  ProjectRow, ProjectStatus, draft, pending_review, approved, rejected, archived,
  ModerationActionKind, approve, reject, archive, restore, request_changes, lock, unlock, Deps,
  State, ModerateProjectInput, moderation_action, moderation_project_data, find_project, moderated,
  moderate_project, delete_project, index_project, is_approved, invalidate_project_by_slug_cache,
}

-- An action's columns leave the identity of the project alone.
pub data-id :
    (action : ModerationActionKind) (now : ℕ) (r : ProjectRow)
    → ((moderation_project_data action now r).id ≡ r.id)
      × ((moderation_project_data action now r).slug ≡ r.slug)
unfolding moderation_project_data
data-id approve now r = (refl, refl)
data-id reject now r = (refl, refl)
data-id request_changes now r = (refl, refl)
data-id archive now r = (refl, refl)
data-id restore now r = (refl, refl)
data-id lock now r = (refl, refl)
data-id unlock now r = (refl, refl)

approved_iff : (status : ProjectStatus) → (is_approved status ≡ true) ↔ (status ≡ approved)
approved_iff draft = ((λ h. cc), λ h. cc)
approved_iff pending_review = ((λ h. cc), λ h. cc)
approved_iff approved = ((λ h. refl), λ h. refl)
approved_iff rejected = ((λ h. cc), λ h. cc)
approved_iff archived = ((λ h. cc), λ h. cc)

pub delete_project-Among :
    (id i : ℕ) (index : List ℕ) → Among i (delete_project id index) ↔ (Among i index × (i ≢ id))
unfolding delete_project
delete_project-Among id i index = (
  λ m.
      let (k, h) = Among-keep_if (λ j. not (j == id)) index i m in
      (k, λ e. let x = (==_iff i id).1 e in ground arith),
  λ m. keep_if-Among (λ j. not (j == id)) index i m.0 (rw (eq-false_of_ne i id m.1) refl),
)

index_project-Among :
    (id i : ℕ) (index : List ℕ)
    → Among i (index_project id index) ↔ ((i ≡ id) ⊎ (Among i index × (i ≢ id)))
unfolding index_project
index_project-Among id i index = (
  λ m. elim m [ inl e ↦ inl e | inr k ↦ inr ((delete_project-Among id i index).0 k) ],
  λ m. elim m [ inl e ↦ inl e | inr k ↦ inr ((delete_project-Among id i index).1 k) ],
)

indexed_again :
    (status : ProjectStatus) (id i : ℕ) (index : List ℕ)
    → Among i (if is_approved status then index_project id index else delete_project id index)
      ↔ (((i ≡ id) × (status ≡ approved)) ⊎ (Among i index × (i ≢ id)))
indexed_again status id i index = elim (Bool-cases (is_approved status)) [
  | inl is_in ↦
      let fits = (approved_iff status).0 is_in in
      let step = index_project-Among id i index in
      (
        λ m. elim (step.0 (rw is_in at m)) [ inl e ↦ inl (e, fits) | inr k ↦ inr k ],
        λ h. rw is_in (step.1 (elim h [ inl k ↦ inl k.0 | inr k ↦ inr k ])),
      )
  | inr out ↦
      let step = delete_project-Among id i index in
      (
        λ m. inr (step.0 (rw out at m)),
        λ h.
            rw out
              (step.1 (elim h [ inl (e, fits) ↦ cc ((approved_iff status).1 fits) | inr k ↦ k ])),
      )
]

module _ (d : Deps) where
  open d use {projects}
  open projects use {Store, Holds}

  abbrev pub IsUniqueId : Store → Type 0
  IsUniqueId s = (q r : ProjectRow) → Holds s q → Holds s r → q.id ≡ r.id → q ≡ r

  -- Identifiers are unique, the search index has exactly the approved projects of the table, and what
  -- is cached is what is stored.
  pub record IsConsistent (s : State d) : Type 0 where
    pub unique_id : IsUniqueId s.projects
    pub indexed : (r : ProjectRow) → Holds s.projects r → Among r.id s.index ↔ (r.status ≡ approved)
    pub listed : (i : ℕ) → Among i s.index → (r : ProjectRow) × Holds s.projects r × (r.id ≡ i)
    pub cached : (r : ProjectRow) → Among r s.cache → Holds s.projects r

  module _ (action : ModerationActionKind) (now : ℕ) (project : ProjectRow) (s : Store) where
    abbrev pub decided : ProjectRow
    decided = moderation_project_data action now project

    abbrev pub written : Store
    written = projects.update (λ r. r.id == project.id) (moderation_project_data action now) s

    pub written_rows :
        IsUniqueId s
        → Holds s project
        → (r : ProjectRow) → Holds written r ↔ ((Holds s r × (r.id ≢ project.id)) ⊎ (r ≡ decided))
    written_rows u held r =
        let step =
          projects.holds_update (λ q. q.id == project.id) (moderation_project_data action now) s
            r in
        (
          λ h. elim (step.0 h) [
            | inl (k, off) ↦ inl (k, λ e. let x = (==_iff r.id project.id).1 e in ground arith)
            | inr (q, k, same, e) ↦ inr (
                e
                ∙ ap (moderation_project_data action now)
                    (u q project k held ((==_iff q.id project.id).0 same)))
          ],
          λ h. step.1 (elim h [
            | inl (k, off) ↦ inl (k, eq-false_of_ne r.id project.id off)
            | inr e ↦ inr (project, held, (==_iff project.id project.id).1 refl, e)
          ]),
        )

    pub found_again :
        IsUniqueId s
        → Holds s project
        → (updated : ProjectRow)
        → projects.find_first (λ r. r.id == project.id) written ≡ some updated
        → updated ≡ decided
    found_again u held updated h =
        let (k, same) = projects.find_sound (λ r. r.id == project.id) written h in
        elim ((written_rows u held updated).0 k) [
          | inl (j, off) ↦ absurd (off ((==_iff updated.id project.id).0 same))
          | inr e ↦ e
        ]

  pub find_project-Holds :
      (slug : Text) (s : Store) (project : ProjectRow)
      → find_project d slug s ≡ some project
      → Holds s project
  unfolding find_project
  find_project-Holds slug s project h = (projects.find_sound _ s h).0

  abbrev Moderation : ℕ → ModerateProjectInput → ℕ → State d → State d → Type 0
  Moderation now input moderator_id s t =
      (action : ModerationActionKind) × (project : ProjectRow) × (updated : ProjectRow)
      × (moderation_action input.action ≡ ok action)
      × (find_project d input.project_slug s.projects ≡ some project)
      × (projects.find_first (λ r. r.id == project.id) (written action now project s.projects)
          ≡ some updated)
      × (t
          ≡ moderated d action moderator_id input project updated
              (written action now project s.projects) s)

  moderate-eq-ok :
      (now : ℕ) (input : ModerateProjectInput) (moderator_id : ℕ) (s t : State d)
      → moderate_project d now input moderator_id s ≡ ok t
      → Moderation now input moderator_id s t
  unfolding moderate_project
  moderate-eq-ok now input moderator_id s t h =
      let (action, parsed, h1) = >>=-eq-ok _ _ h in
      let (project, found, h2) =
        >>=-eq-ok
          (or_throw (find_project d input.project_slug s.projects) (not_found "Project not found"))
          _ h1 in
      let (updated, again, h3) =
        >>=-eq-ok
          (or_throw
            (projects.find_first (λ r. r.id == project.id) (written action now project s.projects))
            (internal_error "Record not found"))
          _ h2 in
      (
        action,
        project,
        updated,
        parsed,
        or_throw-eq-ok _ _ found,
        or_throw-eq-ok _ _ again,
        ok_injective h3,
      )

  module _ (action : ModerationActionKind) (now moderator_id : ℕ) (input : ModerateProjectInput)
      (project : ProjectRow) (s : State d) (w : IsConsistent s)
      (held : Holds s.projects project) where
    abbrev updated_row : ProjectRow
    updated_row = decided action now project s.projects

    abbrev after : State d
    after =
        moderated d action moderator_id input project updated_row
          (written action now project s.projects) s

    updated_id : updated_row.id ≡ project.id
    updated_id = (data-id action now project).0

    after_rows :
        (r : ProjectRow)
        → Holds after.projects r ↔ ((Holds s.projects r × (r.id ≢ project.id)) ⊎ (r ≡ updated_row))
    unfolding moderated
    after_rows = written_rows action now project s.projects w.unique_id held

    slug_apart : (r : ProjectRow) → not (teq r.slug updated_row.slug) ≡ true → r ≢ project
    slug_apart r off e =
        let same : r.slug ≡ updated_row.slug =
          ap (λ (x : ProjectRow). x.slug) e ∙ sym (data-id action now project).1 in
        cc (ap (λ x. not (teq x updated_row.slug)) same, teq_refl updated_row.slug, off)

    after_unique : IsUniqueId after.projects
    after_unique q r h k e = elim ((after_rows q).0 h) [
      | inl (hq, off_q) ↦ elim ((after_rows r).0 k) [
        | inl (hr, off_r) ↦ w.unique_id q r hq hr e
        | inr b ↦ absurd (off_q (e ∙ ap (λ (x : ProjectRow). x.id) b ∙ updated_id))
      ]
      | inr a ↦ elim ((after_rows r).0 k) [
        | inl (hr, off_r) ↦ absurd (off_r (sym e ∙ ap (λ (x : ProjectRow). x.id) a ∙ updated_id))
        | inr b ↦ a ∙ sym b
      ]
    ]

    after_indexed :
        (r : ProjectRow) → Holds after.projects r → Among r.id after.index ↔ (r.status ≡ approved)
    unfolding moderated
    after_indexed r h =
        let (to, back) = indexed_again updated_row.status updated_row.id r.id s.index in
        elim ((after_rows r).0 h) [
          | inl (held_r, off) ↦ (
            λ m. elim (to m) [
              | inl (e, fits) ↦ absurd (off (e ∙ updated_id))
              | inr (k, apart) ↦ (w.indexed r held_r).0 k
            ],
            λ fits. back (inr ((w.indexed r held_r).1 fits, λ e. off (e ∙ updated_id))),
          )
          | inr same ↦
              let here : r.id ≡ updated_row.id = ap (λ (x : ProjectRow). x.id) same in
              let status : r.status ≡ updated_row.status = ap (λ (x : ProjectRow). x.status) same in
              (
                λ m. elim (to m) [
                  | inl (e, fits) ↦ status ∙ fits
                  | inr (k, apart) ↦ absurd (apart here)
                ],
                λ fits. back (inl (here, sym status ∙ fits)),
              )
        ]

    after_listed :
        (i : ℕ) → Among i after.index → (r : ProjectRow) × Holds after.projects r × (r.id ≡ i)
    unfolding moderated
    after_listed i m = elim ((indexed_again updated_row.status updated_row.id i s.index).0 m) [
      | inl (e, fits) ↦ (updated_row, (after_rows updated_row).1 (inr refl), sym e)
      | inr (k, apart) ↦
          let (r, held_r, same) = w.listed i k in
          (r, (after_rows r).1 (inl (held_r, λ e. apart (sym same ∙ e ∙ sym updated_id))), same)
    ]

    after_cached : (r : ProjectRow) → Among r after.cache → Holds after.projects r
    unfolding moderated invalidate_project_by_slug_cache
    after_cached r m =
        let (k, off) =
          Among-keep_if (λ (q : ProjectRow). not (teq q.slug updated_row.slug)) s.cache r m in
        let held_r = w.cached r k in
        (after_rows r).1 (inl (held_r, λ e. slug_apart r off (w.unique_id r project held_r held e)))

    after-IsConsistent : IsConsistent after
    after-IsConsistent = record {
      unique_id = after_unique;
      indexed = after_indexed;
      listed = after_listed;
      cached = after_cached;
    }

  -- Each decision that succeeds keeps the index and the cache right: each document of the index is
  -- that of a project of the table, a project of the table is in the index exactly when it is
  -- approved, a cached project is the stored one, and identifiers stay unique.
  pub moderate_project-IsConsistent :
      (now : ℕ) (input : ModerateProjectInput) (moderator_id : ℕ) (s t : State d)
      → IsConsistent s
      → moderate_project d now input moderator_id s ≡ ok t
      → IsConsistent t
  moderate_project-IsConsistent now input moderator_id s t w h =
      let (action, project, updated, parsed, found, again, e) =
        moderate-eq-ok now input moderator_id s t h in
      let held = find_project-Holds input.project_slug s.projects project found in
      let same = found_again action now project s.projects w.unique_id held updated again in
      rw e (rw same (after-IsConsistent action now moderator_id input project s w held))
