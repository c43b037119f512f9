-- ===== src/Reports/Tests.antt =====
-- A report of a project and its closing, in tables kept in memory.
use moddery.Base.{
  ◌≡◌, refl, inl, none, some, List, [], ◌∷◌, err, text, teq, trim, true, Among, bad_request,
  required_text,
}
use moddery.Database.Memory.{memory}
use moddery.Reports.{
  spam, opened, closed, ReportRow, ProjectRow, VersionRow, UserRow, Deps, Targets, NewReport,
  ReportCall, on_project, sets_state, create_user_report, create_project_report,
  update_report_state, with_state, report_step, report_run, required_report_body,
}
use moddery.Reports.Invariant.{IsSound, run-IsSound}

abbrev lamp : ProjectRow
lamp = record { id = 1; slug = text "lamp"; title = text "Lamp"; approved = true }

abbrev ann : UserRow
ann = record { id = 4; username = text "ann"; display_name = none }

abbrev deps : Deps
deps = record {
  reports = memory ReportRow;
  projects = memory ProjectRow;
  versions = memory VersionRow;
  users = memory UserRow;
  same_name = teq;
  joined = λ r. record {
    id = r.id;
    project = none;
    version = none;
    user_target = none;
    reason = r.reason;
    state = r.state;
  };
}

abbrev targets : Targets deps
targets = record { projects = lamp ∷ []; versions = []; users = ann ∷ [] }

abbrev complaint : NewReport
complaint = record {
  id = 9;
  reporter_id = 4;
  now = 20;
  reason = spam;
  body = text " too many ads ";
}

abbrev filed : ReportRow
filed = record {
  id = 9;
  reporter_id = 4;
  project_id = some 1;
  version_id = none;
  user_target_id = none;
  reason = spam;
  body = text "too many ads";
  state = opened;
  created_at = 20;
  closed_at = none;
}

own_report_test :
    create_user_report deps targets complaint (text "ann") []
    ≡ err (bad_request "Cannot report yourself")
unfolding create_user_report required_report_body required_text trim teq
own_report_test = refl

short_body_test :
    required_report_body (text "  short  ")
    ≡ err (bad_request "Report body must be at least 8 characters")
unfolding required_report_body required_text trim
short_body_test = refl

abbrev history : List (ReportCall deps targets)
history = on_project complaint (text "lamp ") ∷ sets_state 30 2 9 closed ∷ []

filed_once : Among filed (report_step deps targets (on_project complaint (text "lamp ")) [])
unfolding report_step create_project_report required_report_body required_text trim teq
filed_once = inl refl

closed_once : Among (with_state 30 closed filed) (report_run deps targets history [])
unfolding report_run report_step create_project_report update_report_state required_report_body
    required_text trim teq
closed_once = inl refl

run-IsSound_example : IsSound deps targets (with_state 30 closed filed)
run-IsSound_example =
    run-IsSound deps targets history [] (λ r m. absurd m) (with_state 30 closed filed) closed_once
