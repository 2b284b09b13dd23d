-- ===== src/PackageManager/InstallRequest.antt =====
-- package_manager/package_manager.cpp: what the request `Install` checks before it makes a task, and
-- the job of the task.
pub mod Versions
use linglong.Prelude.{
  Bool, true, false, not, ◌&&◌, Option, none, some, List, [], ◌∷◌, ◌++◌, if◌then◌else◌,
}
use linglong.Prelude.Text.{Text, codes}
use linglong.Prelude.Result.{Result, ok, err}
use linglong.Api.{canceled}
use linglong.Package.Version
use linglong.Package.FuzzyReference.{FuzzyReference}
use linglong.Package.Reference
use linglong.Package.Reference.{Reference}
use linglong.Repo.Cache.{RepoCache}
use linglong.Repo.Pull.{is_main_name}
use linglong.Task.{Double}
use linglong.PackageManager.Prune.{local_only}
use linglong.PackageManager.World.{Env, World, get_layer_dir, is_task_done, set_state}
use linglong.PackageManager.Install.{install}
use linglong.PackageManager.Requests.{
  PackageManager1Package, CommonOptions, Answer, refused, accepted, fuzzy_reference_from_package,
  module_or_binary, force_remote, clear_as, start_for,
}

-- What a task installs, and whether the user is asked.
pub record InstallJob : Type 0 where
  pub spec : Text
  pub new_ref : Reference
  pub old_ref : Option Reference
  pub module_name : Text
  pub asks : Bool

unfoldable pub new_job : Reference → Option Reference → Text → Bool → Text → InstallJob
new_job new old name asks spec = record {
  spec = spec;
  new_ref = new;
  old_ref = old;
  module_name = name;
  asks = asks;
}

unfoldable pub ok_or_none : {A : Type 0} → Result A → Option A
ok_or_none (ok a) = some a
ok_or_none (err e) = none

-- A module that is not the main one is wanted in the version that is installed.
unfoldable pub wanted : FuzzyReference → Text → Option Reference → FuzzyReference
wanted fuzzy name none = fuzzy
wanted fuzzy name (some old) =
    if is_main_name name then fuzzy else record fuzzy { version = some old.version }

module _ (env : Env) where
  -- Is the main module of a reference there?
  unfoldable pub has_binary : RepoCache → Reference → Bool
  has_binary r ref = elim (get_layer_dir env ref (codes "binary") r) [
    | err e ↦ false
    | ok item ↦ env.has_info item
  ]

  -- The comparison of the versions.
  unfoldable pub check_versions :
      List (List Text) → CommonOptions → Reference → Option Reference → Text → Answer InstallJob
  check_versions tasks opts new none name =
      start_for env tasks new name (new_job new none name false)
  check_versions tasks opts new (some old) name =
      if Version.eq new.version old.version
      then refused (Reference.to_string env.qt old ++ codes " is already installed")
      else if Version.gt new.version old.version
      then start_for env tasks new name (new_job new (some old) name (not opts.skip_interaction))
      else if not opts.force
      then refused (
          codes
            "The latest version has been installed. If you want to replace it, try using 'll-cli install "
          ++ (new.id ++ (codes "/" ++ (Version.to_string env.qt new.version ++ codes " --force'"))))
      else start_for env tasks new name (new_job new (some old) name false)

  -- The request once the latest version that is installed is known.
  unfoldable pub install_from :
      RepoCache
      → List (List Text)
      → CommonOptions
      → FuzzyReference
      → Option Reference
      → Text
      → Option (Answer InstallJob)
  unfolding check_versions has_binary wanted
  install_from r tasks opts fuzzy old name =
      elim (clear_as env r force_remote (wanted fuzzy name old) name) [
        | none ↦ none
        | some (err e) ↦ some (refused (codes e))
        | some (ok new) ↦
            if not (is_main_name name) && not (has_binary r new)
            then some (refused (codes "to install the module, one must first install the binary"))
            else some (check_versions tasks opts new old name)
      ]

  unfoldable pub install_latest :
      RepoCache
      → List (List Text)
      → CommonOptions
      → FuzzyReference
      → Text
      → Option (Answer InstallJob)
  unfolding install_from ok_or_none
  install_latest r tasks opts fuzzy name =
      elim (clear_as env r local_only (record fuzzy { version = none }) (codes "binary")) [
        | none ↦ none
        | some local ↦ install_from r tasks opts fuzzy (ok_or_none local) name
      ]

  -- `Install`: a version that is asked for and installed is refused at once.
  unfoldable pub install_request :
      RepoCache
      → List (List Text)
      → PackageManager1Package
      → CommonOptions
      → Option (Answer InstallJob)
  unfolding install_latest
  install_request r tasks pkg opts = elim (fuzzy_reference_from_package env.qt pkg) [
    | err e ↦ some (refused (codes e))
    | ok fuzzy ↦
        let name = module_or_binary pkg.module_name in
        elim fuzzy.version [
          | none ↦ install_latest r tasks opts fuzzy name
          | some v ↦ elim (clear_as env r local_only fuzzy (codes "binary")) [
            | none ↦ none
            | some (ok ref) ↦
                some (refused (Reference.to_string env.qt ref ++ codes " is already installed."))
            | some (err e) ↦ install_latest r tasks opts fuzzy name
          ]
        ]
  ]

  -- The job: the user, who answered so, is asked before an upgrade.
  unfoldable pub run_install : {d : Double} → Bool → InstallJob → World d → Option (World d)
  run_install says_yes job w =
      let w' = if job.asks && not says_yes then set_state canceled (codes "canceled") w else w in
      if is_task_done w'
      then some w'
      else install env job.new_ref job.old_ref (job.module_name ∷ []) w'
