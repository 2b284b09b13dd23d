-- ===== src/PackageManager/Dependencies.antt =====
-- package_manager/package_manager.cpp: `pullDependency`. The result is `none` where a broken version
-- in the cache ends the process.
use linglong.Prelude.{true, false, not, Option, none, some, ◌++◌, if◌then◌else◌}
use linglong.Prelude.Text.{Text, codes}
use linglong.Prelude.Result.{Result, ok, err}
use linglong.Api.{PackageInfoV2, failed, install_base, install_runtime}
use linglong.Utils.Transaction.{Transaction, start, add_roll_back, commit, destroy}
use linglong.Package.FuzzyReference
use linglong.Package.Reference
use linglong.Package.Reference.{Reference}
use linglong.Repo.Cache.{RepoCache}
use linglong.Repo.Resolve.{ClearReferenceOption, clear_reference}
use linglong.Repo.Pull.{is_main_name}
use linglong.Task.{Double}
use linglong.PackageManager.Prune.{is_app}
use linglong.PackageManager.World.{
  Env, World, get_layer_dir, is_task_done, set_state, set_sub_state, pull_module, undo_pull,
}

-- The options of the calls of `clearReference`.
unfoldable pub with_fallback : ClearReferenceOption
with_fallback = record { force_remote = false; fallback_to_remote = true }

-- The package that the text of a base or a runtime stands for.
unfoldable pub resolve_dependency : Env → Text → RepoCache → Option (Result Reference)
resolve_dependency env text r = elim (FuzzyReference.parse env.qt text) [
  | err e ↦ some (err e)
  | ok fuzzy ↦
      clear_reference env.qt env.host r.cache env.list_remote fuzzy with_fallback (codes "binary")
]

-- How a package was obtained: it was there, it was pulled, or the task ended.
pub data Obtained : Type 0 where
  present pulled stopped : Obtained

module _ {d : Double} (env : Env) where
  -- Uses the package if its directory for the first module is there, and pulls the second otherwise.
  unfoldable pub obtain : Reference → Text → Text → World d → Obtained × World d
  obtain ref dir_name name w = elim (get_layer_dir env ref dir_name w.repo) [
    | ok item ↦ (present, w)
    | err e ↦
        let w' = pull_module env ref name w in
        if is_task_done w
        then (stopped, w)
        else if is_task_done w'
        then (stopped, w')
        else (pulled, w')
  ]

  -- The part for the base, with the transaction so far.
  unfoldable pub pull_base :
      PackageInfoV2 → Text → Transaction (World d) → World d → Option (World d)
  unfolding obtain
  pull_base info name tx w = elim (resolve_dependency env info.base w.repo) [
    | none ↦ none
    | some (err e) ↦ some (destroy tx (set_state failed (codes e) w))
    | some (ok base) ↦
        let (how, w') = obtain base name name (
          set_sub_state install_base (codes "Installing base " ++ Reference.to_string env.qt base)
            w) in
        elim how [ stopped ↦ some (destroy tx w') | _ ↦ some (destroy (commit tx) w') ]
  ]

  -- The part for the runtime, and then that for the base.
  unfoldable pub pull_runtime : PackageInfoV2 → Text → Text → World d → Option (World d)
  unfolding obtain pull_base
  pull_runtime info text name w = elim (resolve_dependency env text w.repo) [
    | none ↦ none
    | some (err e) ↦ some (set_state failed (codes e) w)
    | some (ok runtime) ↦
        let (how, w') = obtain runtime (codes "binary") name (
          set_sub_state install_runtime
            (codes "Installing runtime " ++ Reference.to_string env.qt runtime) w) in
        elim how [
          | stopped ↦ some w'
          | present ↦ pull_base info name start w'
          | pulled ↦ pull_base info name (add_roll_back start (undo_pull env runtime name)) w'
        ]
  ]

  unfoldable pub pull_dependency : PackageInfoV2 → Text → World d → Option (World d)
  unfolding pull_base pull_runtime
  pull_dependency info name w =
      if not (is_app info)
      then some w
      else if not (is_main_name name)
      then some w
      else elim info.runtime [
        | none ↦ pull_base info name start w
        | some text ↦ pull_runtime info text name w
      ]
