-- ===== src/Catalog/Follows.antt =====
-- Following and unfollowing a project, and the number of followers that is kept with it:
-- updateProjectFollow of apps/api/src/catalog/services/project-follows.service.ts.
pub mod Counts
pub mod Tests
use moddery.Base.{
  ℕ, ◌≡◌, List, [], ◌∷◌, Option, none, some, Text, teq, ◌==◌, ◌&&◌, Bool, true, false, not,
  if◌then◌else◌, keep_if, Result, ok, err, not_found, ◌>>=◌, or_throw,
}
use moddery.Database.{Table, upsert}

pub record FollowedProject : Type 0 where
  pub id : ℕ
  pub slug : Text
  pub approved : Bool
  pub followers : ℕ

pub record ProjectFollow : Type 0 where
  pub user_id : ℕ
  pub project_id : ℕ

pub record FollowDeps : Type 1 where
  pub projects : Table FollowedProject
  pub follows : Table ProjectFollow

-- The two tables, the slugs whose projects are cached, and what the search index is told.
pub record FollowState (d : FollowDeps) : Type 0 where
  pub projects : d.projects.Store
  pub follows : d.follows.Store
  pub cache : List Text
  pub indexed : List (ℕ × ℕ)

pub record ProjectFollowState : Type 0 where
  pub followers : ℕ
  pub following : Bool
  pub project_slug : Text

abbrev pub is_follow : ℕ → ℕ → ProjectFollow → Bool
is_follow user_id project_id f = f.user_id == user_id && f.project_id == project_id

abbrev pub is_follow_of : ℕ → ProjectFollow → Bool
is_follow_of project_id f = f.project_id == project_id

abbrev pub with_followers : ℕ → FollowedProject → FollowedProject
with_followers followers p = record p { followers = followers }

module _ (d : FollowDeps) where
  -- `upsert` with an empty update, or `deleteMany`.
  unfoldable pub set_follow : Bool → ℕ → ℕ → d.follows.Store → d.follows.Store
  set_follow following user_id project_id s =
      if following
      then upsert d.follows (is_follow user_id project_id) (λ f. f)
          (record { user_id = user_id; project_id = project_id }) s
      else d.follows.delete (is_follow user_id project_id) s

  abbrev pub find_visible : Text → d.projects.Store → Option FollowedProject
  find_visible slug s = d.projects.find_first (λ p. teq p.slug slug && p.approved) s

  unfoldable pub update_project_follow :
      Text → ℕ → Bool → FollowState d → Result (FollowState d × ProjectFollowState)
  update_project_follow project_slug user_id following s = do
    project ← or_throw (find_visible project_slug s.projects) (not_found "Project not found")
    let follows = set_follow following user_id project.id s.follows
    let followers = d.follows.count (is_follow_of project.id) follows
    ok (
      record {
        projects =
            d.projects.update (λ p. p.id == project.id) (with_followers followers) s.projects;
        follows = follows;
        cache = keep_if (λ slug. not (teq slug project.slug)) s.cache;
        indexed = (project.id, followers) ∷ s.indexed;
      },
      record { followers = followers; following = following; project_slug = project.slug },
    )

  unfoldable pub follow_project :
      Text → ℕ → FollowState d → Result (FollowState d × ProjectFollowState)
  unfolding update_project_follow
  follow_project project_slug user_id s = update_project_follow project_slug user_id true s

  unfoldable pub unfollow_project :
      Text → ℕ → FollowState d → Result (FollowState d × ProjectFollowState)
  unfolding update_project_follow
  unfollow_project project_slug user_id s = update_project_follow project_slug user_id false s
