-- ===== src/Reports.antt =====
-- What users report to the moderators, and how a report is closed:
-- apps/api/src/reports/services/reports.service.ts.
pub mod Invariant
pub mod Tests
use moddery.Base.{
  ℕ, ◌≡◌, List, [], ◌∷◌, ◌++◌, Option, none, some, Text, text, teq, trim, length, is_empty, ◌==◌,
  ltb, ◌&&◌, ◌||◌, Bool, true, false, not, if◌then◌else◌, Result, ok, err, HttpError, not_found,
  bad_request, ◌>>=◌, ◌>>◌, or_throw, throw_if, required_text,
}
use moddery.Database.{Table}

pub data ReportReason : Type 0 where
  spam malware copyright impersonation hateful_or_abusive broken_or_misleading other : ReportReason

pub data ReportState : Type 0 where
  opened triaged closed : ReportState

-- A row of the table; the default of its state is `OPEN`.
pub record ReportRow : Type 0 where
  pub id : ℕ
  pub reporter_id : ℕ
  pub project_id : Option ℕ
  pub version_id : Option Text
  pub user_target_id : Option ℕ
  pub reason : ReportReason
  pub body : Text
  pub state : ReportState
  pub created_at : ℕ
  pub closed_at : Option ℕ

pub record ProjectRow : Type 0 where
  pub id : ℕ
  pub slug : Text
  pub title : Text
  pub approved : Bool

pub record VersionRow : Type 0 where
  pub id : Text
  pub version_number : Text
  pub approved : Bool
  pub project : ProjectRow

pub record UserRow : Type 0 where
  pub id : ℕ
  pub username : Text
  pub display_name : Option Text

-- A report with the targets that its relations join.
pub record ReportAuditRow : Type 0 where
  pub id : ℕ
  pub project : Option ProjectRow
  pub version : Option VersionRow
  pub user_target : Option UserRow
  pub reason : ReportReason
  pub state : ReportState

-- `targetKind` with its `targetId`.
pub data TargetKind : Type 0 where
  project_kind : ℕ → TargetKind
  version_kind : Text → TargetKind
  user_kind : ℕ → TargetKind
  unknown_kind : TargetKind

pub record ReportAuditSnapshot : Type 0 where
  pub id : ℕ
  pub reason : ReportReason
  pub state : ReportState
  pub target : TargetKind
  pub target_label : Text

pub record Deps : Type 1 where
  pub reports : Table ReportRow
  pub projects : Table ProjectRow
  pub versions : Table VersionRow
  pub users : Table UserRow
  -- The case-insensitive comparison of the database.
  pub same_name : Text → Text → Bool
  -- The relations of a report.
  pub joined : ReportRow → ReportAuditRow

-- The tables that the handlers only read.
pub record Targets (d : Deps) : Type 0 where
  pub projects : d.projects.Store
  pub versions : d.versions.Store
  pub users : d.users.Store

-- Who reports, and the identifier and the time of the new row.
pub record NewReport : Type 0 where
  pub id : ℕ
  pub reporter_id : ℕ
  pub now : ℕ
  pub reason : ReportReason
  pub body : Text

unfoldable pub required_report_body : Text → Result Text
required_report_body value = do
  body ← required_text value "Report body is required"
  throw_if (ltb (length body) 8) (bad_request "Report body must be at least 8 characters")
  ok body

abbrev pub label_of_user : UserRow → Text
label_of_user u = elim u.display_name [ none ↦ u.username | some name ↦ name ]

abbrev pub snapshot_with : ReportAuditRow → TargetKind → Text → ReportAuditSnapshot
snapshot_with report target label = record {
  id = report.id;
  reason = report.reason;
  state = report.state;
  target = target;
  target_label = label;
}

unfoldable pub report_audit_snapshot : ReportAuditRow → ReportAuditSnapshot
report_audit_snapshot report = elim report.project [
  | some p ↦ snapshot_with report (project_kind p.id) p.title
  | none ↦ elim report.version [
    | some v ↦
        snapshot_with report (version_kind v.id) (v.project.title ++ text " " ++ v.version_number)
    | none ↦ elim report.user_target [
      | some u ↦ snapshot_with report (user_kind u.id) (label_of_user u)
      | none ↦ snapshot_with report unknown_kind (text "Unknown target")
    ]
  ]
]

abbrev pub is_closed : ReportState → Bool
is_closed closed = true
is_closed _ = false

-- `activeReportWhere`.
abbrev pub is_active_report : ReportRow → Bool
is_active_report r = elim r.state [ opened ↦ true | triaged ↦ true | closed ↦ false ]

-- The columns that an update of the state sets.
abbrev pub with_state : ℕ → ReportState → ReportRow → ReportRow
with_state now state r = record r {
  closed_at = if is_closed state then some now else none;
  state = state;
}

-- `recordReportStateUpdate`.
pub record StateUpdate : Type 0 where
  pub actor_id : ℕ
  pub after : ReportAuditSnapshot
  pub before : ReportAuditSnapshot

module _ (d : Deps) where
  abbrev pub find_report : ℕ → d.reports.Store → Option ReportRow
  find_report id s = d.reports.find_first (λ r. r.id == id) s

  -- Whatever is thrown inside the transaction becomes `NotFoundException`.
  unfoldable pub update_report_state :
      ℕ → ℕ → ℕ → ReportState → d.reports.Store → Result (d.reports.Store × StateUpdate)
  unfolding report_audit_snapshot
  update_report_state now actor_id id state s = do
    before ← or_throw (find_report id s) (not_found "Report not found")
    let t = d.reports.update (λ r. r.id == id) (with_state now state) s
    report ← or_throw (find_report id t) (not_found "Report not found")
    ok (
      t,
      record {
        actor_id = actor_id;
        after = report_audit_snapshot (d.joined report);
        before = report_audit_snapshot (d.joined before);
      },
    )

  module _ (targets : Targets d) where
    -- The row that each of the three handlers creates, by its target.
    abbrev pub new_report : NewReport → Text → Option ℕ → Option Text → Option ℕ → ReportRow
    new_report q body project_id version_id user_target_id = record {
      id = q.id;
      reporter_id = q.reporter_id;
      project_id = project_id;
      version_id = version_id;
      user_target_id = user_target_id;
      reason = q.reason;
      body = body;
      state = opened;
      created_at = q.now;
      closed_at = none;
    }

    unfoldable pub create_project_report :
        NewReport → Text → d.reports.Store → Result (d.reports.Store)
    create_project_report q project_slug s = do
      body ← required_report_body q.body
      slug ← required_text project_slug "Project is required"
      project ←
          or_throw (d.projects.find_first (λ p. teq p.slug slug && p.approved) targets.projects)
            (not_found "Project not found")
      ok (d.reports.create (new_report q body (some project.id) none none) s)

    unfoldable pub create_version_report :
        NewReport → Text → d.reports.Store → Result (d.reports.Store)
    create_version_report q version_id s = do
      body ← required_report_body q.body
      id ← required_text version_id "Version is required"
      version ←
          or_throw
            (d.versions.find_first (λ v. teq v.id id && v.project.approved && v.approved)
              targets.versions)
            (not_found "Version not found")
      ok (d.reports.create (new_report q body none (some version.id) none) s)

    unfoldable pub create_user_report :
        NewReport → Text → d.reports.Store → Result (d.reports.Store)
    create_user_report q username s = do
      body ← required_report_body q.body
      target_username ← required_text username "User is required"
      user_target ←
          or_throw (d.users.find_first (λ u. d.same_name u.username target_username) targets.users)
            (not_found "User not found")
      throw_if (user_target.id == q.reporter_id) (bad_request "Cannot report yourself")
      ok (d.reports.create (new_report q body none none (some user_target.id)) s)

    -- A call of one of the four handlers; `n` is the time of an update.
    pub data ReportCall : Type 0 where
      on_project on_version on_user : NewReport → Text → ReportCall
      sets_state : (now actor_id id : ℕ) → ReportState → ReportCall

    abbrev pub stored : d.reports.Store → Result (d.reports.Store) → d.reports.Store
    stored s (ok t) = t
    stored s (err error) = s

    abbrev pub updated : d.reports.Store → Result (d.reports.Store × StateUpdate) → d.reports.Store
    updated s (ok (t, change)) = t
    updated s (err error) = s

    -- The table after a call, which is as it was when the call throws.
    unfoldable pub report_step : ReportCall → d.reports.Store → d.reports.Store
    report_step (on_project q slug) s = stored s (create_project_report q slug s)
    report_step (on_version q id) s = stored s (create_version_report q id s)
    report_step (on_user q username) s = stored s (create_user_report q username s)
    report_step (sets_state now actor_id id state) s =
        updated s (update_report_state now actor_id id state s)

    unfoldable pub report_run : List ReportCall → d.reports.Store → d.reports.Store
    report_run [] s = s
    report_run (c ∷ calls) s = report_run calls (report_step c s)
