-- ===== src/Catalog/Follows/Counts.antt =====
-- The number of followers that a project shows is the number of its followers.
use moddery.Base.{
  ℕ, ◌≡◌, ◌≢◌, inl, inr, refl, sym, ap, ◌∙◌, subst, Text, teq, ◌==◌, ==_iff, eq-false_of_ne, Bool,
  true, false, not, ok, not_found, or_throw, >>=-eq-ok, ok-first, Option-cases, keep_if, ◌∷◌, arith,
}
use moddery.Database.{upsert}
use moddery.Catalog.Follows.{
  FollowedProject, ProjectFollow, FollowDeps, FollowState, ProjectFollowState, is_follow,
  is_follow_of, with_followers, set_follow, find_visible, update_project_follow,
}

module _ (d : FollowDeps) where
  open d use {projects, follows}

  abbrev pub IsCounted : FollowState d → Type 0
  IsCounted s =
      (p : FollowedProject)
      → projects.Holds s.projects p
      → p.followers ≡ follows.count (is_follow_of p.id) s.follows

  not_equal : (a b : ℕ) → (a == b) ≡ false → a ≢ b
  not_equal a b h e = let x = (==_iff a b).1 e in ground arith

  other_project :
      (user_id project_id i : ℕ) (f : ProjectFollow)
      → i ≢ project_id
      → is_follow user_id project_id f ≡ true
      → is_follow_of i f ≡ false
  other_project user_id project_id i f off h = ground arith

  -- The followers of the other projects are left alone.
  count_elsewhere :
      (following : Bool) (user_id project_id i : ℕ) (s : follows.Store)
      → i ≢ project_id
      → follows.count (is_follow_of i) (set_follow d following user_id project_id s)
        ≡ follows.count (is_follow_of i) s
  unfolding set_follow
  count_elsewhere false user_id project_id i s off =
      follows.count_delete (is_follow_of i) (is_follow user_id project_id) s
        (λ f h. other_project user_id project_id i f off h)
  count_elsewhere true user_id project_id i s off =
      let p = is_follow user_id project_id in
      let x : ProjectFollow = record { user_id = user_id; project_id = project_id } in
      elim (Option-cases (follows.find_first p s)) [
        | inl miss ↦
            let step = follows.count_create (is_follow_of i) x s in
            let no : is_follow_of i x ≡ false = eq-false_of_ne project_id i (λ e. off (sym e)) in
            rw (miss, upsert) (rw no at step)
        | inr (f, found) ↦
            rw (found, upsert) (follows.count_update (is_follow_of i) p (λ f. f) s (λ r h. refl))
      ]

  -- After a follow or an unfollow, as before it, each project shows the number of the rows that
  -- follow it.
  pub update_project_follow-IsCounted :
      (slug : Text) (user_id : ℕ) (following : Bool) (s t : FollowState d)
      (reply : ProjectFollowState)
      → IsCounted s
      → update_project_follow d slug user_id following s ≡ ok (t, reply)
      → IsCounted t
  unfolding update_project_follow
  update_project_follow-IsCounted slug user_id following s t reply w h =
      let (project, found, h1) =
        >>=-eq-ok (or_throw (find_visible d slug s.projects) (not_found "Project not found")) _ h in
      let new_follows = set_follow d following user_id project.id s.follows in
      let followers = follows.count (is_follow_of project.id) new_follows in
      let same : t ≡ record {
        projects = projects.update (λ p. p.id == project.id) (with_followers followers) s.projects;
        follows = new_follows;
        cache = keep_if (λ slug. not (teq slug project.slug)) s.cache;
        indexed = (project.id, followers) ∷ s.indexed;
      } =
        ok-first h1 in
      subst IsCounted (sym same) (λ p held.
        elim ((projects.holds_update (λ p. p.id == project.id) (with_followers followers) s.projects
            p).0
          held) [
            | inl (k, off) ↦
                w p k
                ∙ sym (
                    count_elsewhere following user_id project.id p.id s.follows
                      (λ e. not_equal p.id project.id off e))
            | inr (q, k, fits, e) ↦
                let here : p.id ≡ project.id =
                  ap (λ (x : FollowedProject). x.id) e ∙ (==_iff q.id project.id).0 fits in
                ap (λ (x : FollowedProject). x.followers) e
                ∙ ap (λ i. follows.count (is_follow_of i) new_follows) (sym here)
          ])
