-- ===== src/PackageManager/Install.antt =====
-- package_manager/package_manager.cpp: `Install` and `InstallRef` of a task. The result is `none`
-- where the process ends: at a broken version in the cache, and where the architecture of the host
-- is compared although it is not known.
pub mod GoesOn
pub mod Unfinished
pub mod Runs
pub mod Installed
pub mod Succeeds
use linglong.Prelude.{
  Bool, true, false, not, ◌&&◌, ◌||◌, Option, none, some, List, [], ◌∷◌, ◌++◌, if◌then◌else◌,
  find_first, erase_first,
}
use linglong.Prelude.Partial.{◌>>=◌}
use linglong.Prelude.Text.{Text, codes, text_eq}
use linglong.Prelude.Result.{Result, ok, err}
use linglong.Api.{
  LayersItem, processing, failed, succeed, pre_action, post_action, install_application,
}
use linglong.Utils.Transaction.{Transaction, start, add_roll_back, commit, destroy}
use linglong.Package.Version
use linglong.Package.Architecture
use linglong.Package.Architecture.{same}
use linglong.Package.Reference
use linglong.Package.Reference.{Reference}
use linglong.Repo.Cache.{any, Query, RepoCache, query_layer_item}
use linglong.Repo.Layers.{get_layer_item, get_module_list}
use linglong.Repo.Pull.{is_main_name}
use linglong.Task.{Double, report_error}
use linglong.PackageManager.Prune.{is_app}
use linglong.PackageManager.World.{
  Env, World, get_layer_dir, is_task_done, set_state, set_sub_state, export_reference, with_repo,
  merge_world, mark_module, pull_module, undo_mark, undo_pull,
}
use linglong.PackageManager.Uninstall.{undo_install}
use linglong.PackageManager.Replace.{remove_after_install}
use linglong.PackageManager.Dependencies.{pull_dependency}

-- The query for the layers of a reference that are marked as deleted.
unfoldable pub deleted_of : Env → Reference → Query
deleted_of env ref = record any {
  id = some ref.id;
  channel = some ref.channel;
  version = some (Version.to_string env.qt ref.version);
  deleted = some true;
}

-- Is this the module of the deleted layer? `binary` and `runtime` are one.
unfoldable pub is_module_of : LayersItem → Text → Bool
is_module_of item name =
    let have = item.info.package_info_v2_module in
    (text_eq name (codes "runtime") && text_eq have (codes "binary"))
    || ((text_eq name (codes "binary") && text_eq have (codes "runtime")) || text_eq name have)

-- `InstallRef` between two of its steps: it has returned, or it goes on with these modules.
pub data Stage (d : Double) : Type 0 where
  returned : World d → Stage d
  going : List Text → Transaction (World d) → World d → Stage d

module _ {d : Double} (env : Env) where
  -- The end of the task is reported, but the function goes on.
  unfoldable pub check_arch : Reference → World d → Option (World d)
  check_arch ref w = elim env.host [
    | err e ↦ none
    | ok arch ↦
        if not (same ref.arch arch)
        then some (
            set_state failed
              (codes "app arch:"
                ++ (Architecture.to_string ref.arch ++ codes " not match host architecture"))
              w)
        else some w
  ]

  -- `InstallRef` up to its transaction.
  unfoldable pub begin_install : Reference → World d → Option (World d)
  unfolding check_arch
  begin_install ref w =
      check_arch ref (set_sub_state pre_action (codes "Beginning to install") w) >>= λ w'. some (
        set_sub_state install_application
          (codes "Installing application " ++ Reference.to_string env.qt ref) w')

  -- A layer that is marked as deleted is taken back, without its error.
  unfoldable pub unmark : Reference → Text → World d → World d
  unmark ref name w =
      let (result, r) = mark_module env ref false name w.repo in
      elim result [
        | err e ↦ set_state failed (codes "install failed") (with_repo r w)
        | ok _ ↦ with_repo r w
      ]

  -- The loop over the deleted layers, which takes their modules from the list.
  unfoldable pub restore_modules :
      Reference → List LayersItem → List Text → Transaction (World d) → World d → Stage d
  unfolding unmark is_module_of
  restore_modules ref [] names tx w = going names tx w
  restore_modules ref (item ∷ rest) names tx w = elim (is_task_done w) [
    | true ↦ returned (destroy tx w)
    | false ↦ elim (find_first (is_module_of item) names) [
      | none ↦ restore_modules ref rest names tx w
      | some _ ↦
          restore_modules ref rest (erase_first (is_module_of item) names)
            (add_roll_back tx (undo_mark env ref true item.info.package_info_v2_module))
            (unmark ref item.info.package_info_v2_module w)
    ]
  ]

  -- The dependencies of the package in the directory of the layer; an error ends the function.
  unfoldable pub pull_needed : Reference → World d → Option (Bool × World d)
  pull_needed ref w = elim (get_layer_dir env ref (codes "binary") w.repo) [
    | err e ↦ some (false, set_state failed (codes e) w)
    | ok item ↦ elim (env.read_info item) [
      | err e ↦ some (false, set_state failed (codes e) w)
      | ok info ↦ pull_dependency env info (codes "binary") w >>= λ w'. some (true, w')
    ]
  ]

  -- The loop over the modules that are to be pulled.
  unfoldable pub pull_modules :
      Reference → List Text → Transaction (World d) → World d → Option (World d)
  unfolding pull_needed
  pull_modules ref [] tx w = some (destroy (commit tx) w)
  pull_modules ref (name ∷ rest) tx w = elim (is_task_done w) [
    | true ↦ some (destroy tx w)
    | false ↦
        let w' = pull_module env ref name w in
        let tx' = add_roll_back tx (undo_pull env ref name) in
        elim (is_task_done w') [
          | true ↦ some (destroy tx w')
          | false ↦ elim (is_main_name name) [
            | false ↦ pull_modules ref rest tx' w'
            | true ↦ pull_needed ref w' >>= λ p. elim p.0 [
              | false ↦ some (destroy tx' p.1)
              | true ↦ pull_modules ref rest tx' p.1
            ]
          ]
        ]
  ]

  unfoldable pub install_ref : Reference → List Text → World d → Option (World d)
  unfolding begin_install restore_modules pull_modules deleted_of
  install_ref ref names w = begin_install ref w >>= λ w'.
      elim (restore_modules ref (query_layer_item w'.repo.cache (deleted_of env ref)) names start
        w') [ returned w'' ↦ some w'' | going names' tx w'' ↦ pull_modules ref names' tx w'' ]

  -- The success at the end of `Install`.
  unfoldable pub finish_install : Reference → Transaction (World d) → World d → World d
  finish_install ref tx w =
      set_state succeed (codes "Install " ++ (Reference.to_string env.qt ref ++ codes " success"))
        (destroy (commit tx) w)

  -- Only an application replaces its old version or shows its files.
  unfoldable pub replace_old :
      Reference → Option Reference → Transaction (World d) → World d → World d
  unfolding finish_install
  replace_old new none tx w = finish_install new tx (export_reference new w)
  replace_old new (some old) tx w =
      let (result, w') =
        remove_after_install env old new (get_module_list env.qt w.repo.cache old) w in
      elim result [
        | err e ↦ destroy tx (
            set_state failed
              (codes "Failed to remove old reference "
                ++ (Reference.to_string env.qt old
                    ++ (codes " after install " ++ Reference.to_string env.qt new)))
              w')
        | ok _ ↦ finish_install new tx w'
      ]

  -- `Install` after its `InstallRef`.
  unfoldable pub after_install_ref : Reference → Option Reference → List Text → World d → World d
  unfolding replace_old finish_install
  after_install_ref new old names w =
      let tx = add_roll_back start (undo_install env new names) in
      let w' = merge_world env (set_sub_state post_action (codes "processing after install") w) in
      elim (get_layer_item env.qt w'.repo.cache new (codes "binary") none) [
        | err e ↦ destroy tx (record w' { task = report_error w'.task (codes e) })
        | ok layer ↦
            if is_app layer.info then replace_old new old tx w' else finish_install new tx w'
      ]

  unfoldable pub install : Reference → Option Reference → List Text → World d → Option (World d)
  unfolding install_ref after_install_ref
  install new old names w =
      install_ref new names
        (set_state processing (codes "Installing " ++ Reference.to_string env.qt new) w)
      >>= λ w'. if is_task_done w' then some w' else some (after_install_ref new old names w')
