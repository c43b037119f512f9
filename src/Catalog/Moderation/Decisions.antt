-- ===== src/Catalog/Moderation/Decisions.antt =====
-- What a decision does to the table, and whom it is told.
use moddery.Base.{
  ℕ, ◌≡◌, ◌≢◌, ◌↔◌, ◌⊎◌, inl, inr, refl, not, ◌==◌, ==_iff, none, some, ok, ◌>>=◌, Option-cases,
  List, [], ◌∷◌, Among, Among-keep_if, keep_if-Among, keep_if-AreDistinct, Bool-cases, AreDistinct,
  arith,
}
use moddery.Catalog.Moderation.{
  ProjectRow, approved, ModerationActionKind, restore, Deps, State, ModerateProjectInput,
  moderation_action, moderation_project_data, find_project, moderated, moderate_project, recipients,
}
use moddery.Catalog.Moderation.Index.{
  data-id, IsUniqueId, decided, written, written_rows, find_project-Holds,
}

-- The users that are told of a decision are pairwise different, and they are the accepted members.
recipients_lem :
    (users : List ℕ)
    → AreDistinct (recipients users) × ((u : ℕ) → Among u (recipients users) ↔ Among u users)
unfolding recipients
recipients_lem [] = (tt, λ u. ((λ m. m), λ m. m))
recipients_lem (v ∷ users) =
    let (distinct, among) = recipients_lem users in
    (
      (
        (λ m.
            let (k, h) = Among-keep_if (λ x. not (x == v)) (recipients users) v m in
            let e = (==_iff v v).1 refl in ground arith),
        keep_if-AreDistinct (λ x. not (x == v)) (recipients users) distinct,
      ),
      λ u. (
        λ m. elim m [
          | inl e ↦ inl e
          | inr k ↦ inr ((among u).0 (Among-keep_if (λ x. not (x == v)) (recipients users) u k).0)
        ],
        λ m. elim (Bool-cases (u == v)) [
          | inl e ↦ inl ((==_iff u v).0 e)
          | inr e ↦ elim m [
            | inl same ↦ inl same
            | inr k ↦
                inr (
                  keep_if-Among (λ x. not (x == v)) (recipients users) u ((among u).1 k)
                    (rw e refl))
          ]
        ],
      ),
    )

module _ (d : Deps) where
  open d use {projects}
  open projects use {Holds}

  -- The row that was written is found again.
  written_is_found :
      (action : ModerationActionKind) (now : ℕ) (project : ProjectRow) (s : projects.Store)
      → IsUniqueId d s
      → Holds s project
      → projects.find_first (λ r. r.id == project.id) (written d action now project s) ≢ none
  written_is_found action now project s u held miss =
      let row = decided d action now project s in
      let there = (written_rows d action now project s u held row).1 (inr refl) in
      let off = projects.find_complete _ _ miss row there in
      let same = (==_iff row.id project.id).1 (data-id action now project).0 in cc

  -- Where the action is one of the four and the project exists, the decision is carried out: the
  -- row of the project is the decided one, and every other row stays. No exception of the database
  -- is met.
  pub moderate_project_ok :
      (now : ℕ) (input : ModerateProjectInput) (moderator_id : ℕ) (s : State d)
      (action : ModerationActionKind) (project : ProjectRow)
      → IsUniqueId d s.projects
      → moderation_action input.action ≡ ok action
      → find_project d input.project_slug s.projects ≡ some project
      → (t : State d) × (moderate_project d now input moderator_id s ≡ ok t)
        × ((r : ProjectRow)
            → Holds t.projects r ↔ (
                (Holds s.projects r × (r.id ≢ project.id))
                ⊎ (r ≡ moderation_project_data action now project)))
  unfolding moderate_project moderated
  moderate_project_ok now input moderator_id s action project u parsed found =
      let held = find_project-Holds d input.project_slug s.projects project found in
      let rows = written_rows d action now project s.projects u held in
      elim (Option-cases
        (projects.find_first (λ r. r.id == project.id) (written d action now project s.projects))) [
          | inl miss ↦ absurd (written_is_found action now project s.projects u held miss)
          | inr (updated, again) ↦ (
            moderated d action moderator_id input project updated
                (written d action now project s.projects) s,
            rw (parsed, ◌>>=◌) (rw (found, ◌>>=◌) (rw (again, ◌>>=◌) refl)),
            rows,
          )
        ]

  -- A project that was never approved is published by a restoration: afterwards its status is
  -- `APPROVED` although no time of approval is set, and its time of publication is what it was.
  pub restore_skips_review :
      (now : ℕ) (input : ModerateProjectInput) (moderator_id : ℕ) (s : State d)
      (project : ProjectRow)
      → IsUniqueId d s.projects
      → moderation_action input.action ≡ ok restore
      → find_project d input.project_slug s.projects ≡ some project
      → project.approved_at ≡ none
      → (t : State d) × (moderate_project d now input moderator_id s ≡ ok t)
        × ((r : ProjectRow) × Holds t.projects r
            × (r.id ≡ project.id)
            × (r.status ≡ approved)
            × (r.approved_at ≡ none)
            × (r.published_at ≡ project.published_at))
  unfolding moderation_project_data
  restore_skips_review now input moderator_id s project u parsed found never =
      let (t, e, rows) =
        moderate_project_ok now input moderator_id s restore project u parsed found in
      let row = decided d restore now project s.projects in
      (t, e, (row, (rows row).1 (inr refl), refl, refl, never, refl))
