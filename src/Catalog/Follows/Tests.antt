-- ===== src/Catalog/Follows/Tests.antt =====
-- A project with one follower, in tables kept in memory.
use moddery.Base.{◌≡◌, refl, inl, inr, [], ◌∷◌, ok, text, teq, true}
use moddery.Database.Memory.{memory}
use moddery.Catalog.Follows.{
  FollowedProject, ProjectFollow, FollowDeps, FollowState, ProjectFollowState, set_follow,
  update_project_follow, follow_project,
}
use moddery.Catalog.Follows.Counts.{IsCounted, update_project_follow-IsCounted}

abbrev deps : FollowDeps
deps = record { projects = memory FollowedProject; follows = memory ProjectFollow }

abbrev lamp : FollowedProject
lamp = record { id = 1; slug = text "lamp"; approved = true; followers = 1 }

abbrev first : ProjectFollow
first = record { user_id = 7; project_id = 1 }

abbrev before : FollowState deps
before = record {
  projects = lamp ∷ [];
  follows = first ∷ [];
  cache = text "lamp" ∷ [];
  indexed = [];
}

abbrev after : FollowState deps
after = record {
  projects = record lamp { followers = 2 } ∷ [];
  follows = record { user_id = 8; project_id = 1 } ∷ first ∷ [];
  cache = [];
  indexed = (1, 2) ∷ [];
}

abbrev reply : ProjectFollowState
reply = record { followers = 2; following = true; project_slug = text "lamp" }

followed : update_project_follow deps (text "lamp") 8 true before ≡ ok (after, reply)
unfolding update_project_follow set_follow teq
followed = refl

follow_test : (follow_project deps (text "lamp") 8 before ≡ ok (after, reply))
unfolding follow_project set_follow teq
follow_test = refl

before-IsCounted : IsCounted deps before
before-IsCounted p (inl e) = cc
before-IsCounted p (inr e) = absurd e

update_project_follow-IsCounted_example : IsCounted deps after
update_project_follow-IsCounted_example =
    update_project_follow-IsCounted deps (text "lamp") 8 true before after reply before-IsCounted
      followed
