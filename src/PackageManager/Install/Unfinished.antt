-- ===== src/PackageManager/Install/Unfinished.antt =====
-- `InstallRef` reports no success: as long as a part of the task is left, its state is another one.
use linglong.Prelude.{
  ℕ, ◌≢◌, sym, ◌∙◌, ◌==◌, ltb, inl, inr, not, Bool-cases, Option-cases, none, List, [], ◌∷◌,
}
use linglong.Prelude.Text.{Text, codes}
use linglong.Prelude.Result.{Result, ok, err, Result-cases}
use linglong.Api.{SubState, failed, succeed, processing}
use linglong.Utils.Transaction.{commit}
use linglong.Package.Qt.{Qt}
use linglong.Package.Reference.{Reference}
use linglong.Repo.Cache.{RepoCache}
use linglong.Repo.Names.{ostree_spec_from_reference, ostree_spec_from_reference_v2}
use linglong.Repo.Pull.{
  progress, caught_error, PullReport, Remote, take_report, take_reports, tell, add_pulled, pull_old,
  pull, has_part, is_main_name,
}
use linglong.Task.{Double, Task, update_task, update_state, update_sub_state, emit, report_error}
use linglong.Task.Reports.{
  IsOpen, SameParts-IsOpen, sub_state_report, failed_report, processing_report,
}

-- A part of the task is left, and no success was reported.
pub record IsUnfinished {d : Double} (t : Task d) : Type 0 where
  pub left : IsOpen t
  pub state : t.state ≢ succeed

module _ {d : Double} where
  pub failed-IsUnfinished :
      (t : Task d) (message : Text)
      → IsUnfinished t
      → IsUnfinished (update_state t failed message none)
  failed-IsUnfinished t message h =
      let (parts, state, _) = failed_report t message h.left in
      record { left = SameParts-IsOpen t _ parts h.left; state = λ e. cc (sym state ∙ e) }

  pub processing-IsUnfinished :
      (t : Task d) (message : Text)
      → IsOpen t
      → IsUnfinished (update_state t processing message none)
  processing-IsUnfinished t message left =
      let (parts, state, _) = processing_report t message left in
      record { left = SameParts-IsOpen t _ parts left; state = λ e. cc (sym state ∙ e) }

  pub sub_state-IsUnfinished :
      (t : Task d) (s : SubState) (message : Text)
      → IsUnfinished t
      → IsUnfinished (update_sub_state t s message)
  sub_state-IsUnfinished t s message h =
      let (parts, state, _) = sub_state_report t s message in
      record { left = SameParts-IsOpen t _ parts h.left; state = λ e. h.state (sym state ∙ e) }

  report_error-IsUnfinished :
      (t : Task d) (message : Text) → IsUnfinished t → IsUnfinished (report_error t message)
  unfolding report_error emit
  report_error-IsUnfinished t message h = record { left = h.left; state = λ e. cc e }

  update_task-IsUnfinished :
      (t : Task d) (part whole : ℕ) (message : Text)
      → IsUnfinished t
      → IsUnfinished (update_task t part whole message)
  unfolding update_task emit
  update_task-IsUnfinished t part whole message h = elim (Bool-cases (whole == 0)) [
    | inl e ↦ rw (e, update_task) h
    | inr e ↦ elim (Bool-cases (ltb whole part)) [
      | inl k ↦ rw (e, k, update_task) h
      | inr k ↦ rw (e, k, update_task) (record { left = h.left; state = h.state })
    ]
  ]

  take_report-IsUnfinished :
      (t : Task d) (report : PullReport) → IsUnfinished t → IsUnfinished (take_report t report)
  unfolding take_report
  take_report-IsUnfinished t (progress part status) h = update_task-IsUnfinished t part 100 status h
  take_report-IsUnfinished t caught_error h = report_error-IsUnfinished t _ h

  take_reports-IsUnfinished :
      (t : Task d) (reports : List PullReport)
      → IsUnfinished t
      → IsUnfinished (take_reports t reports)
  unfolding take_reports
  take_reports-IsUnfinished t [] h = h
  take_reports-IsUnfinished t (report ∷ rest) h =
      take_reports-IsUnfinished (take_report t report) rest (take_report-IsUnfinished t report h)

  tell-IsUnfinished :
      (t : Task d) (p : Result (Unit {0}) × RepoCache) → IsUnfinished t → IsUnfinished (tell t p).1
  unfolding tell
  tell-IsUnfinished t (err e, r) h = report_error-IsUnfinished t (codes e) h
  tell-IsUnfinished t (ok _, r) h = h

  add_pulled-IsUnfinished :
      (v : Text) (o : Remote) (spec : Text) (r : RepoCache) (t : Task d)
      → IsUnfinished t
      → IsUnfinished (add_pulled v o spec r t).1
  unfolding add_pulled
  add_pulled-IsUnfinished v o spec r t h = elim (Result-cases (o.read_commit spec)) [
    | inr (e, bad) ↦ rw (bad, add_pulled) (report_error-IsUnfinished t (codes e) h)
    | inl (commit, read) ↦ elim (Result-cases (o.commit_info commit)) [
      | inr (e, bad) ↦ rw (read, bad, add_pulled) (report_error-IsUnfinished t (codes e) h)
      | inl (info, known) ↦ elim (Result-cases (o.ensure_empty_layer_dir commit)) [
        | inr (e, bad) ↦ rw (read, known, bad, add_pulled) (report_error-IsUnfinished t (codes e) h)
        | inl (tt, made) ↦ rw (read, known, made, add_pulled) (tell-IsUnfinished t _ h)
      ]
    ]
  ]

  pull_old-IsUnfinished :
      (v : Text) (o : Remote) (spec : Text) (r : RepoCache) (t : Task d)
      → IsUnfinished t
      → IsUnfinished (pull_old v o spec r t).1
  unfolding pull_old
  pull_old-IsUnfinished v o spec r t h =
      let t' = take_reports t (o.attempt spec).reports in
      let h' = take_reports-IsUnfinished t (o.attempt spec).reports h in
      elim (Option-cases (o.attempt spec).failure) [
        | inl e ↦ rw (e, pull_old) (add_pulled-IsUnfinished v o spec r t' h')
        | inr (message, e) ↦ rw (e, pull_old) (report_error-IsUnfinished t' _ h')
      ]

  pub pull-IsUnfinished :
      (qt : Qt) (v : Text) (o : Remote) (ref : Reference) (name : Text) (r : RepoCache) (t : Task d)
      → IsUnfinished t
      → IsUnfinished (pull qt v o ref name r t).1
  unfolding pull
  pull-IsUnfinished qt v o ref name r t h =
      let spec = ostree_spec_from_reference_v2 qt ref none name none in
      let t' = take_reports t (o.attempt spec).reports in
      let h' = take_reports-IsUnfinished t (o.attempt spec).reports h in
      elim (Option-cases (o.attempt spec).failure) [
        | inl e ↦ rw (e, pull) (add_pulled-IsUnfinished v o spec r t' h')
        | inr (message, e) ↦ elim (Bool-cases (not (has_part (codes "No such branch") message))) [
          | inl other ↦ rw (e, other, pull) (report_error-IsUnfinished t' _ h')
          | inr missing ↦ elim (Bool-cases (is_main_name name)) [
            | inl main ↦
                rw (e, missing, main, pull)
                  (pull_old-IsUnfinished v o (ostree_spec_from_reference qt ref none name) r t' h')
            | inr part ↦ rw (e, missing, part, pull) (add_pulled-IsUnfinished v o spec r t' h')
          ]
        ]
      ]
