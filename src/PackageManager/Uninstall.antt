-- ===== src/PackageManager/Uninstall.antt =====
-- package_manager/package_manager.cpp: `Uninstall` and `UninstallRef` of a task.
pub mod Shrinks
pub mod Removes
use linglong.Prelude.{Bool, true, false, List, [], ◌∷◌, ◌++◌, if◌then◌else◌}
use linglong.Prelude.Text.{Text, codes}
use linglong.Prelude.Result.{ok, err}
use linglong.Api.{SubState, processing, succeed, failed, pre_action, uninstall}
use linglong.Utils.Transaction.{Transaction, start, add_roll_back, commit, destroy}
use linglong.Package.Reference
use linglong.Package.Reference.{Reference}
use linglong.Repo.Layers.{get_module_list}
use linglong.Repo.Pull.{is_main_name}
use linglong.Task.{Double, create_temporary_task}
use linglong.PackageManager.World.{
  Env, World, is_task_done, set_state, set_sub_state, export_reference, unexport_reference,
  with_repo, merge_world, remove_module, undo_remove,
}

module _ {d : Double} (env : Env) where
  -- The loop of `UninstallRef`, with its transaction.
  unfoldable pub uninstall_modules :
      Reference → List Text → Transaction (World d) → World d → World d
  uninstall_modules ref [] tx w = destroy (commit tx) w
  uninstall_modules ref (name ∷ rest) tx w =
      let (result, r) = remove_module env ref name w.repo in
      elim result [
        | err e ↦ destroy tx (set_state failed (codes e) (with_repo r w))
        | ok _ ↦
            uninstall_modules ref rest (add_roll_back tx (undo_remove env ref name)) (with_repo r w)
      ]

  unfoldable pub uninstall_ref : Reference → List Text → World d → World d
  unfolding uninstall_modules
  uninstall_ref ref names w =
      if is_task_done w
      then w
      else uninstall_modules ref names start
          (set_sub_state uninstall (codes "Remove layer files") w)

  -- What an installation undoes: an uninstallation with a task of its own.
  unfoldable pub undo_install : Reference → List Text → World d → World d
  unfolding uninstall_ref
  undo_install ref names w =
      record (uninstall_ref ref names (record w { task = create_temporary_task })) { task = w.task }

  -- The end of `Uninstall`.
  unfoldable pub finish_uninstall : Reference → Transaction (World d) → World d → World d
  finish_uninstall ref tx w =
      if is_task_done w
      then destroy tx w
      else merge_world env (
          set_state succeed
            (codes "Uninstall " ++ (Reference.to_string env.qt ref ++ codes " success"))
            (destroy (commit tx) w))

  unfoldable pub uninstall_package : Reference → Text → World d → World d
  unfolding uninstall_ref finish_uninstall
  uninstall_package ref name w =
      let w₁ =
        set_sub_state pre_action (codes "prepare uninstalling package")
          (set_state processing (codes "start to uninstalling package") w) in
      if is_task_done w
      then w
      else if is_main_name name
      then finish_uninstall ref (add_roll_back start (export_reference ref))
          (uninstall_ref ref (get_module_list env.qt w₁.repo.cache ref) (unexport_reference ref w₁))
      else finish_uninstall ref start (uninstall_ref ref (name ∷ []) w₁)
