-- ===== src/PackageManager/World.antt =====
-- package_manager/package_manager.cpp: what the operations on packages act on, and the helpers that
-- they share. The state is the repository, the task that an operation reports to, and the calls of
-- `exportReference` and `unexportReference`, which link and unlink the files of a package for the
-- desktop. What the outside answers is a record; its answers do not change within an operation.
pub mod Kept
use linglong.Prelude.{
  Bool, true, false, not, ◌&&◌, ◌||◌, Option, none, some, List, [], ◌∷◌, ◌++◌, if◌then◌else◌,
  find_first,
}
use linglong.Prelude.Text.{Text, codes, text_eq}
use linglong.Prelude.Result.{Result, ok, err}
use linglong.Api.{LayersItem, PackageInfoV2, State, SubState, failed, succeed, all_done}
use linglong.Package.Qt.{Qt}
use linglong.Package.Architecture.{Architecture}
use linglong.Package.FuzzyReference.{FuzzyReference}
use linglong.Package.Reference
use linglong.Package.Reference.{Reference}
use linglong.Repo.Cache.{RepoCache}
use linglong.Repo.Layers.{Ostree, get_layer_item, mark_deleted, remove}
use linglong.Repo.Merge.{Merger, merge_modules}
use linglong.Repo.Pull.{Remote, pull}
use linglong.Task.{Double, Task, create_temporary_task, is_done, update_state, update_sub_state}

-- A call that changes what the desktop sees of a package.
pub data Export : Type 0 where
  exported : Reference → Export
  unexported : Reference → Export

pub record Env : Type 0 where
  pub qt : Qt
  pub ll_version : Text
  pub host : Result Architecture
  pub list_remote : FuzzyReference → Result (List PackageInfoV2)
  pub ostree : Reference → Text → Ostree
  pub remote : Remote
  pub merger : Merger
  -- Does the directory of a layer exist, what does its `info.json` say, and does that exist?
  pub has_dir : LayersItem → Bool
  pub read_info : LayersItem → Result PackageInfoV2
  pub has_info : LayersItem → Bool
  -- the lock of the repository, and the applications of the running containers
  pub lock_repo : Result (Unit {0})
  pub running : Result (List Text)

-- `isRefBusy`
unfoldable pub is_ref_busy : Env → Reference → Result Bool
is_ref_busy env ref = elim env.lock_repo [
  | err e ↦ err "failed to lock repo, underlying data will not be removed:"
  | ok _ ↦ elim env.running [
    | err e ↦ err "failed to get running containers:"
    | ok apps ↦ elim (find_first (λ app. text_eq app (Reference.to_string env.qt ref)) apps) [
      | none ↦ ok false
      | some _ ↦ ok true
    ]
  ]
]

-- `getLayerDir` of a reference, as the layer whose directory it is.
unfoldable pub get_layer_dir : Env → Reference → Text → RepoCache → Result LayersItem
get_layer_dir env ref name r = elim (get_layer_item env.qt r.cache ref name none) [
  | err e ↦ err e
  | ok item ↦ if env.has_dir item then ok item else err "layer directory doesn't exist"
]

module _ (d : Double) where
  pub record World : Type 0 where
    pub repo : RepoCache
    pub task : Task d
    pub exports : List Export

module _ {d : Double} where
  unfoldable pub is_task_done : World d → Bool
  unfolding is_done
  is_task_done w = is_done w.task.sub_state

  unfoldable pub set_state : State → Text → World d → World d
  set_state new message w = record w { task = update_state w.task new message none }

  unfoldable pub set_sub_state : SubState → Text → World d → World d
  set_sub_state new message w = record w { task = update_sub_state w.task new message }

  unfoldable pub export_reference : Reference → World d → World d
  export_reference ref w = record w { exports = w.exports ++ (exported ref ∷ []) }

  unfoldable pub unexport_reference : Reference → World d → World d
  unexport_reference ref w = record w { exports = w.exports ++ (unexported ref ∷ []) }

  unfoldable pub with_repo : RepoCache → World d → World d
  with_repo r w = record w { repo = r }

module _ (env : Env) where
  unfoldable pub remove_module : Reference → Text → RepoCache → Result (Unit {0}) × RepoCache
  remove_module ref name r = remove env.qt env.ll_version (env.ostree ref name) ref name none r

  unfoldable pub mark_module : Reference → Bool → Text → RepoCache → Result (Unit {0}) × RepoCache
  mark_module ref flag name r = mark_deleted env.qt env.ll_version ref flag name none r

module _ {d : Double} (env : Env) where
  unfoldable pub merge_world : World d → World d
  unfolding with_repo
  merge_world w = with_repo (merge_modules env.merger env.ll_version w.repo).1 w

  -- `pull` that reports to the task of the operation
  unfoldable pub pull_module : Reference → Text → World d → World d
  pull_module ref name w =
      let (r, t) = pull env.qt env.ll_version env.remote ref name w.repo w.task in
      record w { repo = r; task = t }

  -- The undo functions of the transactions. Those that pull report to a task of their own.
  unfoldable pub undo_mark : Reference → Bool → Text → World d → World d
  unfolding mark_module with_repo
  undo_mark ref flag name w = with_repo (mark_module env ref flag name w.repo).1 w

  unfoldable pub undo_pull : Reference → Text → World d → World d
  unfolding remove_module with_repo
  undo_pull ref name w = with_repo (remove_module env ref name w.repo).1 w

  unfoldable pub undo_remove : Reference → Text → World d → World d
  unfolding with_repo
  undo_remove ref name w =
      with_repo
        (pull env.qt env.ll_version env.remote ref name w.repo (create_temporary_task {d = d})).0 w
