-- ===== src/PackageManager/Install/GoesOn.antt =====
-- Errors that do not stop an installation.
use linglong.Prelude.{
  ◌≡◌, refl, ap, ◌∙◌, inl, inr, true, false, not, Bool-cases, Option-cases, none, some, [], ◌∷◌,
  ◌++◌, String,
}
use linglong.Prelude.Text.{Text, codes, text_eq}
use linglong.Prelude.Result.{ok, err}
use linglong.Api.{LayersItem, PackageInfoV2, failed, pre_action, install_application}
use linglong.Utils.Transaction.{Transaction, start, commit, run_all, destroy}
use linglong.Package.Architecture
use linglong.Package.Architecture.{Architecture, same}
use linglong.Package.Reference
use linglong.Package.Reference.{Reference}
use linglong.Repo.Pull.{is_main_name}
use linglong.Task.{Double, is_done}
use linglong.Task.Reports.{IsOpen, failed_report, sub_state_report}
use linglong.PackageManager.Prune.{is_app}
use linglong.PackageManager.World.{
  Env, World, is_task_done, set_state, set_sub_state, pull_module, get_layer_dir,
}
use linglong.PackageManager.Dependencies.{
  resolve_dependency, pull_base, pull_runtime, pull_dependency,
}
use linglong.PackageManager.Install.{check_arch, begin_install, pull_needed, pull_modules}

-- What the installation of an application obtains first.
abbrev pub first_dependency : PackageInfoV2 → Text
first_dependency info = elim info.runtime [ none ↦ info.base | some text ↦ text ]

module _ {d : Double} (env : Env) (ref : Reference) where
  check_arch-some :
      (arch : Architecture) (w : World d)
      → env.host ≡ ok arch
      → (w' : World d) × (check_arch env ref w ≡ some w') × (w'.repo ≡ w.repo)
  unfolding check_arch set_state
  check_arch-some arch w host = elim (Bool-cases (not (same ref.arch arch))) [
    | inr fits ↦ (w, rw (host, fits, check_arch) refl, refl)
    | inl other ↦
        let message =
          codes "app arch:"
          ++ (Architecture.to_string ref.arch ++ codes " not match host architecture") in
        (set_state failed message w, rw (host, other, check_arch) refl, refl)
  ]

  -- An installation goes on after the check of the architecture, also where the package is for
  -- another one than that of the host: the task is not done then, and nothing of the repository
  -- changed.
  pub begin_install_goes_on :
      (arch : Architecture) (w : World d)
      → env.host ≡ ok arch
      → (w' : World d) × (begin_install env ref w ≡ some w')
        × (w'.repo ≡ w.repo)
        × (is_task_done w' ≡ false)
  unfolding begin_install set_sub_state is_task_done
  begin_install_goes_on arch w host =
      let w₁ = set_sub_state pre_action (codes "Beginning to install") w in
      let (w₂, checked, repo) = check_arch-some arch w₁ host in
      let message = codes "Installing application " ++ Reference.to_string env.qt ref in
      let (_, _, now) = sub_state_report w₂.task install_application message in
      (
        set_sub_state install_application message w₂,
        rw (checked, begin_install) refl,
        repo,
        ap is_done now ∙ unfold is_done in refl,
      )

  pull_base-fails :
      (info : PackageInfoV2) (name : Text) (w : World d) (e : String)
      → resolve_dependency env info.base w.repo ≡ some (err e)
      → pull_base env info name start w ≡ some (set_state failed (codes e) w)
  unfolding pull_base destroy start run_all
  pull_base-fails info name w e bad = rw (bad, pull_base) refl

  -- A first dependency that cannot be resolved ends the task and nothing else.
  pull_dependency-fails :
      (info : PackageInfoV2) (w : World d) (e : String)
      → is_app info ≡ true
      → resolve_dependency env (first_dependency info) w.repo ≡ some (err e)
      → pull_dependency env info (codes "binary") w ≡ some (set_state failed (codes e) w)
  unfolding pull_dependency pull_runtime is_main_name text_eq
  pull_dependency-fails info w e app bad = elim (Option-cases info.runtime) [
    | inl no_runtime ↦
        rw (app, no_runtime, pull_dependency)
          (pull_base-fails info (codes "binary") w e (rw no_runtime at bad))
    | inr (text, named) ↦
        let unresolved : resolve_dependency env text w.repo ≡ some (err e) = rw named at bad in
        rw (app, named, unresolved, pull_dependency, pull_runtime) refl
  ]

  pull_needed-some :
      (item : LayersItem) (info : PackageInfoV2) (w w' : World d)
      → get_layer_dir env ref (codes "binary") w.repo ≡ ok item
      → env.read_info item ≡ ok info
      → pull_dependency env info (codes "binary") w ≡ some w'
      → pull_needed env ref w ≡ some (true, w')
  unfolding pull_needed
  pull_needed-some item info w w' dir described pulled =
      rw (dir, described, pulled, pull_needed) refl

  -- The main module of an application, pulled as the last one, stays when what the application needs
  -- first, its runtime or without one its base, cannot be resolved: the task has failed, and the
  -- repository is what the pulling made of it; if the task was going on before and after the
  -- pulling, and the directory and the info of the application can be read.
  pub pull_modules_without_dependency :
      (name : Text) (tx : Transaction (World d)) (w : World d) (item : LayersItem)
      (info : PackageInfoV2) (e : String)
      → IsOpen (pull_module env ref name w).task
      → is_task_done w ≡ false
      → is_task_done (pull_module env ref name w) ≡ false
      → is_main_name name ≡ true
      → get_layer_dir env ref (codes "binary") (pull_module env ref name w).repo ≡ ok item
      → env.read_info item ≡ ok info
      → is_app info ≡ true
      → resolve_dependency env (first_dependency info) (pull_module env ref name w).repo
        ≡ some (err e)
      → (w' : World d) × (pull_modules env ref (name ∷ []) tx w ≡ some w')
        × (w'.task.state ≡ failed)
        × (w'.repo ≡ (pull_module env ref name w).repo)
  unfolding pull_modules destroy commit run_all set_state
  pull_modules_without_dependency name tx w item info e left going pulled main dir described app
        bad =
      let w₁ = pull_module env ref name w in
      let fails = pull_dependency-fails info w₁ e app bad in
      let needed =
        pull_needed-some item info w₁ (set_state failed (codes e) w₁) dir described fails in
      let (_, state, _) = failed_report w₁.task (codes e) left in
      (
        set_state failed (codes e) w₁,
        rw (going, pulled, main, needed, pull_modules) refl,
        state,
        refl,
      )
