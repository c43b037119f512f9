-- ===== src/Reports/Invariant.antt =====
-- Where the rows of the reports come from, and what holds of all of them.
use moddery.Base.{
  ℕ, ◌≡◌, ◌≢◌, ◌↔◌, ◌⊎◌, ◌≤◌, inl, inr, refl, sym, subst, Bool, true, false, ◌==◌, ◌&&◌, ltb,
  length, ==_iff, none, some, Text, teq, Result, ok, err, not_found, bad_request, or_throw,
  throw_if, >>=-eq-ok, >>-eq-ok, or_throw-eq-ok, throw_if-eq-ok, ok-first, ok_injective,
  Result-cases, required_text, if◌then◌else◌, List, [], ◌∷◌, arith,
}
use moddery.Reports.{
  ReportState, opened, triaged, closed, ReportRow, ProjectRow, VersionRow, UserRow, Deps, Targets,
  NewReport, ReportCall, StateUpdate, on_project, on_version, on_user, sets_state,
  required_report_body, is_closed, with_state, find_report, update_report_state, new_report,
  create_project_report, create_version_report, create_user_report, stored, report_step, report_run,
}

at_least : (n : ℕ) → ltb n 8 ≡ false → 8 ≤ n
at_least n h = ground arith

both : (p q : Bool) → (p && q) ≡ true → q ≡ true
both true q h = h
both false q h = cc

unequal : (a b : ℕ) → (a == b) ≡ false → a ≢ b
unequal a b h e = let x = (==_iff a b).1 e in ground arith

long_enough : (value body : Text) → required_report_body value ≡ ok body → 8 ≤ length body
unfolding required_report_body
long_enough value body h =
    let (found, there, h1) = >>=-eq-ok (required_text value "Report body is required") _ h in
    let (long, h2) =
      >>-eq-ok
        (throw_if (ltb (length found) 8) (bad_request "Report body must be at least 8 characters"))
        _ h1 in
    let same : body ≡ found = ok_injective h2 in
    let enough = throw_if-eq-ok (ltb (length found) 8) _ long in
    rw same (at_least (length found) enough)

module _ (d : Deps) (targets : Targets d) where
  open d use {reports}
  open reports use {Store, Holds}

  -- What a new report is about: one approved project, one approved release of an approved project,
  -- or one user other than the reporter.
  abbrev pub IsAbout : ReportRow → Type 0
  IsAbout r =
      ((p : ProjectRow) × d.projects.Holds targets.projects p
        × (p.approved ≡ true)
        × (r.project_id ≡ some p.id)
        × (r.version_id ≡ none)
        × (r.user_target_id ≡ none))
      ⊎ (((v : VersionRow) × d.versions.Holds targets.versions v
            × (v.approved ≡ true)
            × (v.project.approved ≡ true)
            × (r.project_id ≡ none)
            × (r.version_id ≡ some v.id)
            × (r.user_target_id ≡ none))
          ⊎ ((u : UserRow) × d.users.Holds targets.users u
              × (u.id ≢ r.reporter_id)
              × (r.project_id ≡ none)
              × (r.version_id ≡ none)
              × (r.user_target_id ≡ some u.id)))

  abbrev pub IsFiled : ReportRow → Type 0
  IsFiled r = (8 ≤ length r.body) × (r.state ≡ opened) × (r.closed_at ≡ none) × IsAbout r

  project_report-IsFiled :
      (q : NewReport) (slug : Text) (s t : Store)
      → create_project_report d targets q slug s ≡ ok t
      → (r : ReportRow) × IsFiled r × (t ≡ reports.create r s)
  unfolding create_project_report
  project_report-IsFiled q slug s t h =
      let (body, long, h1) = >>=-eq-ok (required_report_body q.body) _ h in
      let (trimmed, named, h2) = >>=-eq-ok (required_text slug "Project is required") _ h1 in
      let (p, found, h3) =
        >>=-eq-ok
          (or_throw (d.projects.find_first (λ p. teq p.slug trimmed && p.approved) targets.projects)
            (not_found "Project not found"))
          _ h2 in
      let (held, fits) = d.projects.find_sound _ targets.projects (or_throw-eq-ok _ _ found) in
      (
        new_report d targets q body (some p.id) none none,
        (
          long_enough q.body body long,
          refl,
          refl,
          inl (p, held, both (teq p.slug trimmed) p.approved fits, refl, refl, refl),
        ),
        ok_injective h3,
      )

  version_report-IsFiled :
      (q : NewReport) (version_id : Text) (s t : Store)
      → create_version_report d targets q version_id s ≡ ok t
      → (r : ReportRow) × IsFiled r × (t ≡ reports.create r s)
  unfolding create_version_report
  version_report-IsFiled q version_id s t h =
      let (body, long, h1) = >>=-eq-ok (required_report_body q.body) _ h in
      let (id, named, h2) = >>=-eq-ok (required_text version_id "Version is required") _ h1 in
      let (v, found, h3) =
        >>=-eq-ok
          (or_throw
            (d.versions.find_first (λ v. teq v.id id && v.project.approved && v.approved)
              targets.versions)
            (not_found "Version not found"))
          _ h2 in
      let (held, fits) = d.versions.find_sound _ targets.versions (or_throw-eq-ok _ _ found) in
      (
        new_report d targets q body none (some v.id) none,
        (
          long_enough q.body body long,
          refl,
          refl,
          inr (inl (v, held, ground arith, ground arith, refl, refl, refl)),
        ),
        ok_injective h3,
      )

  user_report-IsFiled :
      (q : NewReport) (username : Text) (s t : Store)
      → create_user_report d targets q username s ≡ ok t
      → (r : ReportRow) × IsFiled r × (t ≡ reports.create r s)
  unfolding create_user_report
  user_report-IsFiled q username s t h =
      let (body, long, h1) = >>=-eq-ok (required_report_body q.body) _ h in
      let (name, named, h2) = >>=-eq-ok (required_text username "User is required") _ h1 in
      let (u, found, h3) =
        >>=-eq-ok
          (or_throw (d.users.find_first (λ u. d.same_name u.username name) targets.users)
            (not_found "User not found"))
          _ h2 in
      let (other, h4) =
        >>-eq-ok (throw_if (u.id == q.reporter_id) (bad_request "Cannot report yourself")) _ h3 in
      let (held, fits) = d.users.find_sound _ targets.users (or_throw-eq-ok _ _ found) in
      (
        new_report d targets q body none none (some u.id),
        (
          long_enough q.body body long,
          refl,
          refl,
          inr (
              inr
                (u, held, unequal u.id q.reporter_id (throw_if-eq-ok _ _ other), refl, refl, refl)),
        ),
        ok_injective h4,
      )

  state_updated :
      (now actor_id id : ℕ) (state : ReportState) (s t : Store) (change : StateUpdate)
      → update_report_state d now actor_id id state s ≡ ok (t, change)
      → t ≡ reports.update (λ r. r.id == id) (with_state now state) s
  unfolding update_report_state
  state_updated now actor_id id state s t change h =
      let (before, found, h1) =
        >>=-eq-ok (or_throw (find_report d id s) (not_found "Report not found")) _ h in
      let (report, again, h2) =
        >>=-eq-ok
          (or_throw (find_report d id (reports.update (λ r. r.id == id) (with_state now state) s))
            (not_found "Report not found"))
          _ h1 in
      ok-first h2

  -- A row after a call is one from before, a newly filed one, or one whose state was set.
  abbrev pub Origin : Store → ReportRow → Type 0
  Origin s r =
      Holds s r
      ⊎ (IsFiled r
          ⊎ ((q : ReportRow) × (now : ℕ) × (state : ReportState) × Holds s q
              × (r ≡ with_state now state q)))

  created-Origin :
      (s t : Store) (r : ReportRow)
      → ((x : ReportRow) × IsFiled x × (t ≡ reports.create x s))
      → Holds t r
      → Origin s r
  created-Origin s t r (x, filed, e) h =
      elim ((reports.holds_create x s r).0 (subst (λ z. Holds z r) e h)) [
        | inl same ↦ inr (inl (subst IsFiled (sym same) filed))
        | inr k ↦ inl k
      ]

  stored-Origin :
      (s : Store) (made : Result Store) (r : ReportRow)
      → ((t : Store) → made ≡ ok t → (x : ReportRow) × IsFiled x × (t ≡ reports.create x s))
      → Holds (stored d targets s made) r
      → Origin s r
  stored-Origin s (ok t) r filed h = created-Origin s t r (filed t refl) h
  stored-Origin s (err error) r filed h = inl h

  -- A call adds at most one report, which is open, has a body of eight characters or more, and is
  -- about one approved project, one approved release of an approved project, or one user that is
  -- not the reporter; every other row is one from before or one whose state alone was set.
  pub step_rows :
      (c : ReportCall d targets) (s : Store) (r : ReportRow)
      → Holds (report_step d targets c s) r
      → Origin s r
  unfolding report_step
  step_rows (on_project q slug) s r h =
      stored-Origin s (create_project_report d targets q slug s) r (project_report-IsFiled q slug s)
        h
  step_rows (on_version q id) s r h =
      stored-Origin s (create_version_report d targets q id s) r (version_report-IsFiled q id s) h
  step_rows (on_user q username) s r h =
      stored-Origin s (create_user_report d targets q username s) r
        (user_report-IsFiled q username s) h
  step_rows (sets_state now actor_id id state) s r h =
      elim (Result-cases (update_report_state d now actor_id id state s)) [
        | inl ((t, change), e) ↦
            let written = state_updated now actor_id id state s t change e in
            elim ((reports.holds_update (λ q. q.id == id) (with_state now state) s r).0
              (subst (λ z. Holds z r) written (rw (e, report_step) at h))) [
                | inl (k, off) ↦ inl k
                | inr (q, k, fits, same) ↦ inr (inr (q, now, state, k, same))
              ]
        | inr (error, e) ↦ inl (rw (e, report_step) at h)
      ]

  -- A report that stands in the table.
  pub record IsSound (r : ReportRow) : Type 0 where
    pub stamped : (r.state ≡ closed) ↔ (r.closed_at ≢ none)
    pub long : 8 ≤ length r.body
    pub about : IsAbout r

  stamped_state :
      (now : ℕ) (state : ReportState)
      → (state ≡ closed) ↔ ((if is_closed state then some now else none) ≢ none)
  stamped_state now opened = ((λ e. cc), λ h. absurd (h refl))
  stamped_state now triaged = ((λ e. cc), λ h. absurd (h refl))
  stamped_state now closed = ((λ e x. cc), λ h. refl)

  filed-IsSound : (r : ReportRow) → IsFiled r → IsSound r
  filed-IsSound r (long, state, at, about) = record {
    stamped = ((λ e. cc), λ h. absurd (h at));
    long = long;
    about = about;
  }

  step-IsSound :
      (c : ReportCall d targets) (s : Store)
      → ((r : ReportRow) → Holds s r → IsSound r)
      → (r : ReportRow) → Holds (report_step d targets c s) r
      → IsSound r
  step-IsSound c s w r h = elim (step_rows c s r h) [
    | inl k ↦ w r k
    | inr (inl filed) ↦ filed-IsSound r filed
    | inr (inr (q, now, state, k, e)) ↦
        let old = w q k in
        subst IsSound (sym e)
          (record { stamped = stamped_state now state; long = old.long; about = old.about })
  ]

  -- After any calls on a table of sound reports: a report has a time of closing exactly when its
  -- state is `CLOSED`, its body has eight characters or more, and it is about exactly one of a
  -- project, a release and a user, never about its reporter.
  pub run-IsSound :
      (calls : List (ReportCall d targets)) (s : Store)
      → ((r : ReportRow) → Holds s r → IsSound r)
      → (r : ReportRow) → Holds (report_run d targets calls s) r
      → IsSound r
  unfolding report_run
  run-IsSound [] s w r h = w r h
  run-IsSound (c ∷ calls) s w r h =
      run-IsSound calls (report_step d targets c s) (step-IsSound c s w) r h
