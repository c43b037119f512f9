-- ===== src/Catalog/Moderation.antt =====
-- How a moderator approves, rejects, archives and restores a project:
-- apps/api/src/catalog/services/project-moderation.service.ts.
-- Besides the tables, the state has what the handler keeps in step with them: the identifiers of
-- the documents in the search index, and the projects that are cached by their slugs.
pub mod Index
pub mod Decisions
pub mod Locks
pub mod Tests
use moddery.Base.{
  ℕ, ◌≡◌, List, [], ◌∷◌, ◌++◌, map, Option, none, some, Text, text, teq, trim, to_upper, ◌==◌, Bool,
  true, false, not, if◌then◌else◌, keep_if, Result, ok, err, not_found, forbidden, internal_error,
  ◌>>=◌, or_throw, nullable_trim, includes,
}
use moddery.Database.{Table}

pub data ProjectStatus : Type 0 where
  draft pending_review approved rejected archived : ProjectStatus

pub data ModerationActionKind : Type 0 where
  approve reject request_changes archive restore lock unlock : ModerationActionKind

pub record ProjectRow : Type 0 where
  pub id : ℕ
  pub team_id : ℕ
  pub slug : Text
  pub title : Text
  pub kind : Text
  pub status : ProjectStatus
  pub requested_status : Option ProjectStatus
  pub approved_at : Option ℕ
  pub published_at : Option ℕ
  pub archived_at : Option ℕ

pub record ModerationActionRow : Type 0 where
  pub kind : ModerationActionKind
  pub moderator_id : ℕ
  pub project_id : ℕ
  pub reason : Option Text

pub data ModerationEvent : Type 0 where
  recorded :
      ModerationActionKind
      → (actor_id : ℕ) → (before after : ProjectRow) → (reason : Option Text) → ModerationEvent
  notified : (title body : Text) → (user_id : ℕ) → ModerationEvent

pub record Deps : Type 1 where
  pub projects : Table ProjectRow
  -- The accepted members of a team, by their users.
  pub members_of : ℕ → List ℕ

pub record State (d : Deps) : Type 0 where
  pub projects : d.projects.Store
  pub actions : List ModerationActionRow
  pub index : List ℕ
  pub cache : List ProjectRow
  pub events : List ModerationEvent

pub record ModerateProjectInput : Type 0 where
  pub action : Text
  pub project_slug : Text
  pub reason : Option Text

unfoldable pub moderation_action : Text → Result ModerationActionKind
unfolding teq
moderation_action action =
    let normalized = to_upper (trim action) in
    if teq normalized (text "APPROVE")
    then ok approve
    else if teq normalized (text "REJECT")
    then ok reject
    else if teq normalized (text "ARCHIVE")
    then ok archive
    else if teq normalized (text "RESTORE")
    then ok restore
    else err (forbidden "Unsupported moderation action")

-- The columns that an action sets.
unfoldable pub moderation_project_data : ModerationActionKind → ℕ → ProjectRow → ProjectRow
moderation_project_data approve now r = record r {
  approved_at = some now;
  published_at = some now;
  requested_status = none;
  status = approved;
}
moderation_project_data reject now r = record r { requested_status = none; status = rejected }
moderation_project_data archive now r = record r {
  archived_at = some now;
  requested_status = none;
  status = archived;
}
moderation_project_data _ now r = record r {
  archived_at = none;
  requested_status = none;
  status = approved;
}

abbrev pub project_review_notification_title : ModerationActionKind → Text
project_review_notification_title approve = text "Project approved"
project_review_notification_title reject = text "Project rejected"
project_review_notification_title archive = text "Project archived"
project_review_notification_title _ = text "Project restored"

abbrev pub decision : ModerationActionKind → Text
decision approve = text "approved"
decision reject = text "rejected"
decision archive = text "archived"
decision _ = text "restored"

abbrev pub suffix : Option Text → Text
suffix none = []
suffix (some reason) = text " Reason: " ++ reason

abbrev pub project_review_notification_body : Text → ModerationActionKind → Option Text → Text
project_review_notification_body title action reason =
    title ++ text " was " ++ decision action ++ text "." ++ suffix reason

-- `new Set(…)` on the users of the members.
unfoldable pub recipients : List ℕ → List ℕ
recipients [] = []
recipients (u ∷ users) = u ∷ keep_if (λ v. not (v == u)) (recipients users)

unfoldable pub notices :
    ModerationActionKind → ProjectRow → Option Text → List ℕ → List ModerationEvent
notices action project reason users =
    map
      (notified (project_review_notification_title action)
        (project_review_notification_body project.title action reason))
      (recipients users)

-- `indexProjects` of one document, and `deleteProject`, which passes over a missing one.
unfoldable pub delete_project : ℕ → List ℕ → List ℕ
delete_project id index = keep_if (λ i. not (i == id)) index

unfoldable pub index_project : ℕ → List ℕ → List ℕ
unfolding delete_project
index_project id index = id ∷ delete_project id index

abbrev pub is_approved : ProjectStatus → Bool
is_approved approved = true
is_approved _ = false

-- `redis.delete(projectBySlugCacheKey(slug))`.
unfoldable pub invalidate_project_by_slug_cache : Text → List ProjectRow → List ProjectRow
invalidate_project_by_slug_cache slug cache = keep_if (λ r. not (teq r.slug slug)) cache

module _ (d : Deps) where
  -- `findUnique` by the slug.
  unfoldable pub find_project : Text → d.projects.Store → Option ProjectRow
  find_project slug s = d.projects.find_first (λ r. teq r.slug slug) s

  -- What the handler leaves behind when the update has returned the row `updated`.
  unfoldable pub moderated :
      ModerationActionKind
      → ℕ
      → ModerateProjectInput
      → ProjectRow
      → ProjectRow
      → d.projects.Store
      → State d
      → State d
  unfolding notices index_project delete_project invalidate_project_by_slug_cache
  moderated action moderator_id input project updated projects s = record {
    projects = projects;
    actions =
        record {
          kind = action;
          moderator_id = moderator_id;
          project_id = project.id;
          reason = nullable_trim input.reason;
        }
        ∷ s.actions;
    index =
        if is_approved updated.status
        then index_project updated.id s.index
        else delete_project updated.id s.index;
    cache = invalidate_project_by_slug_cache updated.slug s.cache;
    events =
        s.events
        ++ (recorded action moderator_id project updated (nullable_trim input.reason)
            ∷ notices action project (nullable_trim input.reason) (d.members_of project.team_id));
  }

  unfoldable pub moderate_project : ℕ → ModerateProjectInput → ℕ → State d → Result (State d)
  unfolding moderation_action moderation_project_data find_project moderated
  moderate_project now input moderator_id s = do
    action ← moderation_action input.action
    project ← or_throw (find_project input.project_slug s.projects) (not_found "Project not found")
    let projects =
        d.projects.update (λ r. r.id == project.id) (moderation_project_data action now) s.projects
    updated ←
        or_throw (d.projects.find_first (λ r. r.id == project.id) projects)
          (internal_error "Record not found")
    ok (moderated action moderator_id input project updated projects s)
