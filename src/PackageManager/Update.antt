-- ===== src/PackageManager/Update.antt =====
-- package_manager/package_manager.cpp: `Update` of a task, for one package and for the list of a
-- request.
use linglong.Prelude.{Option, none, some, List, [], ◌∷◌, ◌++◌, if◌then◌else◌}
use linglong.Prelude.Partial.{◌>>=◌}
use linglong.Prelude.Text.{Text, codes}
use linglong.Prelude.Result.{ok, err}
use linglong.Api.{processing, part_completed, package_manager_done}
use linglong.Package.Reference
use linglong.Package.Reference.{Reference}
use linglong.Repo.Layers.{get_layer_item, get_module_list}
use linglong.Task.{Double}
use linglong.PackageManager.Prune.{is_app}
use linglong.PackageManager.World.{Env, World, is_task_done, set_state, merge_world}
use linglong.PackageManager.Replace.{remove_after_install}
use linglong.PackageManager.Install.{install_ref}

module _ {d : Double} (env : Env) where
  -- `setSubState` and `setMessage`, which send no signal
  unfoldable pub set_restart : World d → World d
  set_restart w = record w {
    task = record (w.task) {
      sub_state = package_manager_done;
      message =
          codes
            "Please restart the application after saving the data to experience the new version.";
    };
  }

  -- `Update` after its `InstallRef`; an error of the removal does not end the task.
  unfoldable pub after_update_ref : Reference → Reference → List Text → World d → World d
  unfolding set_restart
  after_update_ref ref new names w =
      let w' = set_restart (
        set_state part_completed
          (codes "Upgrade "
            ++ (Reference.to_string env.qt ref
                ++ (codes " to " ++ (Reference.to_string env.qt new ++ codes " success"))))
          w) in
      elim (get_layer_item env.qt w'.repo.cache new (codes "binary") none) [
        | err e ↦ w'
        | ok item ↦
            if is_app item.info
            then (remove_after_install env ref new names w').1
            else merge_world env w'
      ]

  unfoldable pub update : Reference → Reference → World d → Option (World d)
  unfolding after_update_ref
  update ref new w =
      let w' = set_state processing (codes "start to uninstalling package") w in
      let names = get_module_list env.qt w'.repo.cache ref in
      install_ref env new names w' >>= λ w''.
      if is_task_done w'' then some w'' else some (after_update_ref ref new names w'')

  -- The job of a request to update.
  unfoldable pub update_all : List (Reference × Reference) → World d → Option (World d)
  unfolding update
  update_all [] w = some w
  update_all ((ref, new) ∷ rest) w = update ref new w >>= λ w'. update_all rest w'

  unfoldable pub update_job : List (Reference × Reference) → World d → Option (World d)
  unfolding update_all
  update_job pairs w = if is_task_done w then some w else update_all pairs w
