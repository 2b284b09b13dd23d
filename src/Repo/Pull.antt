-- ===== src/Repo/Pull.antt =====
-- repo/ostree_repo.cpp: `pull` and `handleRepositoryUpdate`. What OSTree and the file system answer
-- is an argument, with the reports of the progress of a pull.
use linglong.Prelude.{
  ℕ, ◌==◌, Bool, true, false, not, ◌&&◌, ◌||◌, Option, none, some, List, [], ◌∷◌, if◌then◌else◌,
}
use linglong.Prelude.Text.{Text, codes, text_eq}
use linglong.Prelude.Result.{Result, ok, err}
use linglong.Api.{LayersItem, PackageInfoV2}
use linglong.Package.Qt.{Qt}
use linglong.Package.Reference.{Reference}
use linglong.Repo.Cache.{RepoCache, add_layer_item}
use linglong.Repo.Names.{ostree_spec_from_reference, ostree_spec_from_reference_v2}
use linglong.Task.{Double, Task, update_task, report_error}

-- What `progress_changed` tells the task.
pub data PullReport : Type 0 where
  progress : ℕ → Text → PullReport
  caught_error : PullReport

-- One call of `ostree_repo_pull_with_options`: the reports, and the message of its error.
pub record Attempt : Type 0 where
  pub reports : List PullReport
  pub failure : Option Text

pub record Remote : Type 0 where
  pub default_repo : Text
  pub attempt : Text → Attempt
  pub read_commit : Text → Result Text
  pub commit_info : Text → Result PackageInfoV2
  pub ensure_empty_layer_dir : Text → Result (Unit {0})
  pub checkout : LayersItem → Result (Unit {0})

-- `strstr(text, part)`
unfoldable pub starts_with : Text → Text → Bool
starts_with [] text = true
starts_with (c ∷ part) [] = false
starts_with (c ∷ part) (x ∷ text) = (c == x) && starts_with part text

unfoldable pub has_part : Text → Text → Bool
unfolding starts_with
has_part part [] = starts_with part []
has_part part (x ∷ text) = starts_with part (x ∷ text) || has_part part text

-- The modules of the old and of the new name of the main module.
unfoldable pub is_main_name : Text → Bool
is_main_name name = text_eq name (codes "binary") || text_eq name (codes "runtime")

-- The directory of a layer was made, so that it becomes a part of the cache.
unfoldable pub handle_repository_update :
    Text → Remote → LayersItem → RepoCache → Result (Unit {0}) × RepoCache
handle_repository_update ll_version o layer r = elim (o.checkout layer) [
  | err e ↦ (err e, r)
  | ok _ ↦ add_layer_item ll_version layer r
]

module _ {d : Double} where
  unfoldable pub take_report : Task d → PullReport → Task d
  take_report t (progress part status) = update_task t part 100 status
  take_report t caught_error =
      report_error t (codes "Caught error during pulling data, waiting for outstanding task")

  unfoldable pub take_reports : Task d → List PullReport → Task d
  unfolding take_report
  take_reports t [] = t
  take_reports t (report ∷ rest) = take_reports (take_report t report) rest

  -- An error is told to the task.
  unfoldable pub tell : Task d → Result (Unit {0}) × RepoCache → RepoCache × Task d
  tell t (err e, r) = (r, report_error t (codes e))
  tell t (ok _, r) = (r, t)

  -- The part of `pull` after the data came.
  unfoldable pub add_pulled : Text → Remote → Text → RepoCache → Task d → RepoCache × Task d
  unfolding tell handle_repository_update
  add_pulled ll_version o spec r t = elim (o.read_commit spec) [
    | err e ↦ (r, report_error t (codes e))
    | ok commit ↦ elim (o.commit_info commit) [
      | err e ↦ (r, report_error t (codes e))
      | ok info ↦ elim (o.ensure_empty_layer_dir commit) [
        | err e ↦ (r, report_error t (codes e))
        | ok _ ↦ tell t (
            handle_repository_update ll_version o
              (record { commit = commit; deleted = none; info = info; repo = o.default_repo }) r)
      ]
    ]
  ]

  -- The second try, with the old name of the module.
  unfoldable pub pull_old : Text → Remote → Text → RepoCache → Task d → RepoCache × Task d
  unfolding add_pulled take_reports
  pull_old ll_version o spec r t =
      let t' = take_reports t (o.attempt spec).reports in
      elim (o.attempt spec).failure [
        | some message ↦ (r, report_error t' (codes "ostree_repo_pull"))
        | none ↦ add_pulled ll_version o spec r t'
      ]

  unfoldable pub pull :
      Qt → Text → Remote → Reference → Text → RepoCache → Task d → RepoCache × Task d
  unfolding add_pulled pull_old take_reports has_part is_main_name
  pull qt ll_version o ref name r t =
      let spec = ostree_spec_from_reference_v2 qt ref none name none in
      let t' = take_reports t (o.attempt spec).reports in
      elim (o.attempt spec).failure [
        | none ↦ add_pulled ll_version o spec r t'
        | some message ↦
            if not (has_part (codes "No such branch") message)
            then (r, report_error t' (codes "ostree_repo_pull"))
            else if is_main_name name
            then pull_old ll_version o (ostree_spec_from_reference qt ref none name) r t'
            else add_pulled ll_version o spec r t'
      ]
