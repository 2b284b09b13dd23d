-- ===== src/PackageManager/Replace.antt =====
-- package_manager/package_manager.cpp: `removeAfterInstall`, which removes the old version of an
-- application, or marks it as deleted while it runs.
pub mod Stops
pub mod Keeps
use linglong.Prelude.{Bool, true, false, List, [], ◌∷◌, if◌then◌else◌}
use linglong.Prelude.Text.{Text, codes}
use linglong.Prelude.Result.{Result, ok, err}
use linglong.Utils.Transaction.{Transaction, start, add_roll_back, commit, destroy}
use linglong.Package.Reference.{Reference}
use linglong.Task.{Double}
use linglong.PackageManager.World.{
  Env, World, is_ref_busy, export_reference, unexport_reference, with_repo, merge_world,
  remove_module, mark_module, undo_mark, undo_remove,
}

module _ {d : Double} (env : Env) where
  -- The loop for a version that is in use.
  unfoldable pub mark_modules :
      Reference → List Text → Transaction (World d) → World d → Result (Unit {0}) × World d
  mark_modules ref [] tx w = (ok tt, destroy (commit tx) w)
  mark_modules ref (name ∷ rest) tx w =
      let (result, r) = mark_module env ref true name w.repo in
      elim result [
        | err e ↦ (err "Failed to mark old reference as deleted", destroy tx (with_repo r w))
        | ok _ ↦
            mark_modules ref rest (add_roll_back tx (undo_mark env ref false name)) (with_repo r w)
      ]

  -- The end for a version that is not in use.
  unfoldable pub finish_replace :
      Reference → Transaction (World d) → World d → Result (Unit {0}) × World d
  finish_replace new tx w = (ok tt, destroy (commit tx) (export_reference new (merge_world env w)))

  -- The loop for a version that is not in use: every round removes the module `binary`, which is
  -- what `remove` is for without a module.
  unfoldable pub remove_modules :
      Reference
      → Reference
      → List Text
      → Transaction (World d)
      → World d
      → Result (Unit {0}) × World d
  unfolding finish_replace
  remove_modules old new [] tx w = finish_replace new tx w
  remove_modules old new (name ∷ rest) tx w =
      let (result, r) = remove_module env old (codes "binary") w.repo in
      elim result [
        | err e ↦ (err "Failed to remove old reference", destroy tx (with_repo r w))
        | ok _ ↦
            remove_modules old new rest (add_roll_back tx (undo_remove env old name))
              (with_repo r w)
      ]

  unfoldable pub remove_after_install :
      Reference → Reference → List Text → World d → Result (Unit {0}) × World d
  unfolding mark_modules remove_modules
  remove_after_install old new names w = elim (is_ref_busy env old) [
    | err e ↦ (err e, w)
    | ok true ↦ mark_modules old names start w
    | ok false ↦
        remove_modules old new names (add_roll_back start (export_reference old))
          (unexport_reference old w)
  ]
