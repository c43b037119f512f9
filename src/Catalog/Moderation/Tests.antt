-- ===== src/Catalog/Moderation/Tests.antt =====
-- Two projects under review, in tables kept in memory.
use moddery.Base.{
  ℕ, ◌≡◌, ◌≢◌, ◌↔◌, refl, sym, inl, inr, none, some, List, [], ◌∷◌, ok, err, text, teq, trim,
  upper_unit, Text, Among, forbidden, arith, nullable_trim,
}
use moddery.Database.Memory.{memory}
use moddery.Catalog.Moderation.{
  ProjectRow, pending_review, approved, approve, restore, Deps, State, ModerateProjectInput,
  moderation_action, find_project, moderate_project, recipients, recorded, notified,
}
use moddery.Catalog.Moderation.Index.{IsUniqueId, IsConsistent, moderate_project-IsConsistent}
use moddery.Catalog.Moderation.Locks.{
  ModerationLockRow, lock_project_for_moderation, release_project_moderation_lock,
  lock_then_release,
}

abbrev lamp : ProjectRow
lamp = record {
  id = 1;
  team_id = 5;
  slug = text "lamp";
  title = text "Lamp";
  kind = text "MOD";
  status = pending_review;
  requested_status = some approved;
  approved_at = none;
  published_at = none;
  archived_at = none;
}

abbrev door : ProjectRow
door = record lamp { id = 2; slug = text "door"; status = approved; approved_at = some 3 }

abbrev deps : Deps
deps = record { projects = memory ProjectRow; members_of = λ team_id. 8 ∷ 9 ∷ 8 ∷ [] }

abbrev before : State deps
before = record {
  projects = lamp ∷ door ∷ [];
  actions = [];
  index = 2 ∷ [];
  cache = door ∷ [];
  events = [];
}

abbrev input : Text → ModerateProjectInput
input action = record { action = action; project_slug = text "lamp"; reason = some (text " ") }

abbrev lamp_approved : ProjectRow
lamp_approved = record lamp {
  status = approved;
  requested_status = none;
  approved_at = some 7;
  published_at = some 7;
}

abbrev after : State deps
after = record {
  projects = lamp_approved ∷ door ∷ [];
  actions = record { kind = approve; moderator_id = 4; project_id = 1; reason = none } ∷ [];
  index = 1 ∷ 2 ∷ [];
  cache = door ∷ [];
  events =
      recorded approve 4 lamp lamp_approved none
      ∷ notified (text "Project approved") (text "Lamp was approved.") 8
      ∷ notified (text "Project approved") (text "Lamp was approved.") 9
      ∷ [];
}

action_test :
    (moderation_action (text "reopen") ≡ err (forbidden "Unsupported moderation action"))
    × (moderation_action (text " restore") ≡ ok restore)
unfolding moderation_action teq trim upper_unit
action_test = (refl, refl)

approved_lamp : moderate_project deps 7 (input (text "approve ")) 4 before ≡ ok after
unfolding moderate_project teq trim nullable_trim upper_unit recipients
approved_lamp = refl

unique_ids : IsUniqueId deps (lamp ∷ door ∷ [])
unique_ids q r h k e = grind arith

before_indexed :
    (r : ProjectRow) → Among r (lamp ∷ door ∷ []) → Among r.id (2 ∷ []) ↔ (r.status ≡ approved)
before_indexed r (inl e) = ((λ m. elim m [ inl x ↦ cc | inr x ↦ absurd x ]), λ x. cc)
before_indexed r (inr (inl e)) = ((λ m. cc), λ x. inl cc)
before_indexed r (inr (inr e)) = absurd e

before_listed :
    (i : ℕ) → Among i (2 ∷ []) → (r : ProjectRow) × Among r (lamp ∷ door ∷ []) × (r.id ≡ i)
before_listed i (inl e) = (door, inr (inl refl), sym e)
before_listed i (inr m) = absurd m

before-IsConsistent : IsConsistent deps before
before-IsConsistent = record {
  unique_id = unique_ids;
  indexed = before_indexed;
  listed = before_listed;
  cached = λ r m. inr m;
}

found : find_project deps (text "lamp") (lamp ∷ door ∷ []) ≡ some lamp
unfolding find_project teq
found = refl

restoring : moderation_action (text "RESTORE") ≡ ok restore
unfolding moderation_action teq trim upper_unit
restoring = refl

approving : moderation_action (text "approve ") ≡ ok approve
unfolding moderation_action teq trim upper_unit
approving = refl

moderate_project-IsConsistent_example : IsConsistent deps after
moderate_project-IsConsistent_example =
    moderate_project-IsConsistent deps 7 (input (text "approve ")) 4 before after
      before-IsConsistent approved_lamp

abbrev projects : List ProjectRow
projects = lamp ∷ door ∷ []

-- Another moderator's lock.
abbrev foreign : ModerationLockRow
foreign = record { moderator_id = 6; project_id = 1; expires_at = 100 }

lock_then_release_example :
    (u : List ModerationLockRow) × (v : List ModerationLockRow) × (lock_project_for_moderation deps
        (memory ModerationLockRow)
        projects
        50
        (text "lamp")
        4
        (foreign ∷ [])
      ≡ ok u)
    × (release_project_moderation_lock deps (memory ModerationLockRow) projects (text "lamp") 4 u
        ≡ ok v)
    × ((l : ModerationLockRow) → Among l v → l.project_id ≢ 1)
lock_then_release_example =
    lock_then_release deps (memory ModerationLockRow) projects 50 (text "lamp") 4 lamp
      (foreign ∷ []) found
