-- ===== src/PackageManager/World/Kept.antt =====
-- What the undo functions and the merging of modules leave alone.
use linglong.Prelude.{◌≡◌, refl, ap, ◌∙◌}
use linglong.Utils.Transaction.{Transaction, start, add_roll_back, run_all, destroy}
use linglong.Utils.Transaction.Undo.{destroy-add_roll_back}
use linglong.Repo.Merge.Records.{merge_modules-layers}
use linglong.Task.{Double}
use linglong.PackageManager.World.{Env, World, with_repo, merge_world}

module _ {d : Double} where
  -- Undoing leaves the task alone.
  abbrev pub KeepsTask : Transaction (World d) → Type 0
  KeepsTask tx = (w : World d) → (destroy tx w).task ≡ w.task

  pub start-KeepsTask : KeepsTask start
  unfolding start destroy run_all
  start-KeepsTask w = refl

  pub add-KeepsTask :
      (tx : Transaction (World d)) (f : World d → World d)
      → KeepsTask tx
      → ((w : World d) → (f w).task ≡ w.task)
      → KeepsTask (add_roll_back tx f)
  add-KeepsTask tx f kept same w =
      ap (λ s. s.task) (destroy-add_roll_back tx f w) ∙ kept (f w) ∙ same w

-- The merging of modules changes no layer, and not the task.
pub merge_world-layers :
    {d : Double} (env : Env) (w : World d)
    → (merge_world env w).repo.cache.layers ≡ w.repo.cache.layers
unfolding merge_world with_repo
merge_world-layers env w = merge_modules-layers env.merger env.ll_version w.repo

pub merge_world-task : {d : Double} (env : Env) (w : World d) → (merge_world env w).task ≡ w.task
unfolding merge_world with_repo
merge_world-task env w = refl
