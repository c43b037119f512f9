-- ===== src/Catalog/Moderation/Locks.antt =====
-- The lock of a project under review:
-- apps/api/src/catalog/services/project-moderation-locks.service.ts. Times are in milliseconds.
use moddery.Base.{
  ℕ, ◌+◌, ◌*◌, ◌≡◌, ◌≢◌, ◌↔◌, ◌⊎◌, inl, inr, refl, ap, subst, ◌∙◌, Bool, true, false, not, ◌==◌,
  ==_iff, eq-false_of_ne, Option, none, some, Text, Result, ok, err, forbidden, not_found, ◌>>=◌,
  ◌>>◌, or_throw, throw_if, Option-cases, Bool-cases, arith,
}
use moddery.Database.{Table, upsert, upsert_rows, upsert_keeps, upsert_writes}
use moddery.Catalog.Moderation.{ProjectRow, Deps, find_project}

pub record ModerationLockRow : Type 0 where
  pub moderator_id : ℕ
  pub project_id : ℕ
  pub expires_at : ℕ

-- `expiresAt.setMinutes(expiresAt.getMinutes() + 30)`.
abbrev pub lock_duration : ℕ
lock_duration = 30 * 60000

abbrev pub is_lock_of : ℕ → ModerationLockRow → Bool
is_lock_of project_id l = l.project_id == project_id

-- `project.moderationLock !== null && project.moderationLock.moderatorId !== moderatorId`.
abbrev pub is_other_lock : ℕ → Option ModerationLockRow → Bool
is_other_lock moderator_id none = false
is_other_lock moderator_id (some l) = not (l.moderator_id == moderator_id)

module _ (d : Deps) (locks : Table ModerationLockRow) (s : d.projects.Store) where
  open locks use {Store, Holds}

  abbrev pub new_lock : ℕ → ℕ → ℕ → ModerationLockRow
  new_lock now moderator_id project_id = record {
    moderator_id = moderator_id;
    project_id = project_id;
    expires_at = now + lock_duration;
  }

  abbrev pub retaken : ℕ → ℕ → ModerationLockRow → ModerationLockRow
  retaken now moderator_id l = record l {
    moderator_id = moderator_id;
    expires_at = now + lock_duration;
  }

  unfoldable pub lock_project_for_moderation : ℕ → Text → ℕ → Store → Result Store
  lock_project_for_moderation now project_slug moderator_id t = do
    project ← or_throw (find_project d project_slug s) (not_found "Project not found")
    ok (
        upsert locks (is_lock_of project.id) (retaken now moderator_id)
          (new_lock now moderator_id project.id) t)

  unfoldable pub release_project_moderation_lock : Text → ℕ → Store → Result Store
  release_project_moderation_lock project_slug moderator_id t = do
    project ← or_throw (find_project d project_slug s) (not_found "Project not found")
    throw_if (is_other_lock moderator_id (locks.find_first (is_lock_of project.id) t))
        (forbidden "Only the lock owner can release this lock")
    ok (locks.delete (is_lock_of project.id) t)

  same_lock :
      (now moderator_id project_id : ℕ) (l : ModerationLockRow)
      → is_lock_of project_id l ≡ true
      → retaken now moderator_id l ≡ new_lock now moderator_id project_id
  same_lock now moderator_id project_id l fits =
      ap
        (λ i. record {
          moderator_id = moderator_id;
          project_id = i;
          expires_at = now + lock_duration;
        })
        ((==_iff l.project_id project_id).0 fits)

  off_lock :
      (project_id : ℕ) (l : ModerationLockRow)
      → is_lock_of project_id l ≡ false
      → l.project_id ≢ project_id
  off_lock project_id l off e = let x = (==_iff l.project_id project_id).1 e in ground arith

  -- Whoever takes the lock of a project holds it alone for thirty minutes; the locks of other
  -- projects stay as they were. A lock that another moderator held is overwritten.
  pub lock_takes_over :
      (now : ℕ) (slug : Text) (moderator_id : ℕ) (project : ProjectRow) (t : Store)
      → find_project d slug s ≡ some project
      → (u : Store) × (lock_project_for_moderation now slug moderator_id t ≡ ok u)
        × Holds u (new_lock now moderator_id project.id)
        × ((l : ModerationLockRow)
            → Holds u l
            → (Holds t l × (l.project_id ≢ project.id))
              ⊎ (l ≡ new_lock now moderator_id project.id))
        × ((l : ModerationLockRow) → Holds t l → l.project_id ≢ project.id → Holds u l)
  unfolding lock_project_for_moderation
  lock_takes_over now slug moderator_id project t found =
      let p = is_lock_of project.id in
      let f = retaken now moderator_id in
      let x = new_lock now moderator_id project.id in
      let (row, held, origin) = upsert_writes locks p f x t in
      let same : row ≡ x = elim origin [
        | inl e ↦ e
        | inr (q, k, fits, e) ↦ e ∙ same_lock now moderator_id project.id q fits
      ] in
      (
        upsert locks p f x t,
        rw (found, ◌>>=◌) refl,
        subst (λ l. Holds (upsert locks p f x t) l) same held,
        (λ l h. elim (upsert_rows locks p f x t l h) [
          | inl (k, off) ↦ inl (k, off_lock project.id l off)
          | inr (inl e) ↦ inr e
          | inr (inr (q, k, fits, e)) ↦ inr (e ∙ same_lock now moderator_id project.id q fits)
        ]),
        λ l h off. upsert_keeps locks p f x t l h (eq-false_of_ne l.project_id project.id off),
      )

  gone :
      (project_id : ℕ) (t : Store) (l : ModerationLockRow)
      → Holds (locks.delete (is_lock_of project_id) t) l ↔ (Holds t l × (l.project_id ≢ project_id))
  gone project_id t l =
      let step = locks.holds_delete (is_lock_of project_id) t l in
      (
        λ h. let (k, off) = step.0 h in (k, off_lock project_id l off),
        λ h. step.1 (h.0, eq-false_of_ne l.project_id project_id h.1),
      )

  -- A moderator that does not hold the lock is refused its release; without a lock on the project,
  -- or with the moderator's own, the release leaves no lock on the project and every other lock.
  pub release_lem :
      (slug : Text) (moderator_id : ℕ) (project : ProjectRow) (t : Store)
      → find_project d slug s ≡ some project
      → (release_project_moderation_lock slug moderator_id t
            ≡ err (forbidden "Only the lock owner can release this lock")
          × ((l : ModerationLockRow) × Holds t l
              × (l.project_id ≡ project.id)
              × (l.moderator_id ≢ moderator_id)))
        ⊎ ((u : Store) × (release_project_moderation_lock slug moderator_id t ≡ ok u)
            × ((l : ModerationLockRow) → Holds u l ↔ (Holds t l × (l.project_id ≢ project.id))))
  unfolding release_project_moderation_lock
  release_lem slug moderator_id project t found =
      elim (Option-cases (locks.find_first (is_lock_of project.id) t)) [
        | inl miss ↦ inr (
          locks.delete (is_lock_of project.id) t,
          rw (found, ◌>>=◌) (rw (miss, ◌>>=◌) refl),
          gone project.id t,
        )
        | inr (l, hit) ↦ elim (Bool-cases (l.moderator_id == moderator_id)) [
          | inl own ↦ inr (
            locks.delete (is_lock_of project.id) t,
            rw (found, ◌>>=◌) (rw (hit, ◌>>=◌) (rw (own, ◌>>=◌) refl)),
            gone project.id t,
          )
          | inr other ↦
              let (k, fits) = locks.find_sound (is_lock_of project.id) t hit in
              inl (
                rw (found, ◌>>=◌) (rw (hit, ◌>>=◌) (rw (other, ◌>>=◌) refl)),
                (
                  l,
                  k,
                  (==_iff l.project_id project.id).0 fits,
                  λ e. let x = (==_iff l.moderator_id moderator_id).1 e in ground arith,
                ),
              )
        ]
      ]

  -- The release is no protection: whoever holds the lock of a project, any moderator removes it by
  -- taking the lock first, after which no lock on the project is left.
  pub lock_then_release :
      (now : ℕ) (slug : Text) (moderator_id : ℕ) (project : ProjectRow) (t : Store)
      → find_project d slug s ≡ some project
      → (u : Store) × (v : Store) × (lock_project_for_moderation now slug moderator_id t ≡ ok u)
        × (release_project_moderation_lock slug moderator_id u ≡ ok v)
        × ((l : ModerationLockRow) → Holds v l → l.project_id ≢ project.id)
  lock_then_release now slug moderator_id project t found =
      let (u, locked, held, rows, others) = lock_takes_over now slug moderator_id project t found in
      elim (release_lem slug moderator_id project u found) [
        | inl (refused, (l, k, same, other)) ↦ absurd (elim (rows l k) [
          | inl (j, off) ↦ off same
          | inr e ↦ other (ap (λ (x : ModerationLockRow). x.moderator_id) e)
        ])
        | inr (v, released, left) ↦ (u, v, locked, released, λ l h. ((left l).0 h).1)
      ]
