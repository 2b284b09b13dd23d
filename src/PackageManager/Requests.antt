-- ===== src/PackageManager/Requests.antt =====
-- package_manager/package_manager.cpp: what the requests over D-Bus check before they make a task:
-- `Install`, `Uninstall` and `Update` of a package. The tasks of the list are known by the
-- references that they operate on. The result is `none` where a broken version in the cache ends the
-- process.
pub mod Sound
use linglong.Prelude.{
  Bool, true, false, not, ◌&&◌, ◌||◌, Option, none, some, List, [], ◌∷◌, ◌++◌, if◌then◌else◌,
  find_first,
}
use linglong.Prelude.Text.{Text, codes, text_eq}
use linglong.Prelude.Result.{Result, ok, err}
use linglong.Api.{LayersItem, PackageInfoV2, canceled}
use linglong.Package.Qt.{Qt}
use linglong.Package.Version
use linglong.Package.Architecture
use linglong.Package.FuzzyReference
use linglong.Package.FuzzyReference.{FuzzyReference}
use linglong.Package.Reference
use linglong.Package.Reference.{Reference}
use linglong.Repo.Cache.{RepoCache}
use linglong.Repo.Resolve.{ClearReferenceOption, clear_reference}
use linglong.Repo.Layers.{get_layer_item}
use linglong.Repo.Pull.{is_main_name}
use linglong.Task.{Double}
use linglong.PackageManager.Prune.{local_only}
use linglong.PackageManager.World.{Env, World, is_ref_busy, get_layer_dir, is_task_done, set_state}
use linglong.PackageManager.Install.{install}

-- PackageManager1Package.hpp
pub record PackageManager1Package : Type 0 where
  pub channel : Option Text
  pub id : Text
  pub module_name : Option Text
  pub version : Option Text

-- CommonOptions.hpp
pub record CommonOptions : Type 0 where
  pub force : Bool
  pub skip_interaction : Bool

-- A request is refused with a message, for the user to read or as a notification, or it goes on.
pub data Answer (A : Type 0) : Type 0 where
  refused : Text → Answer A
  notified : Text → Answer A
  accepted : A → Answer A

unfoldable pub parse_optional_version : Qt → Option Text → Result (Option Version.Version)
parse_optional_version qt none = ok none
parse_optional_version qt (some text) = elim (Version.parse qt text) [
  | err e ↦ err e
  | ok v ↦ ok (some v)
]

unfoldable pub fuzzy_reference_from_package : Qt → PackageManager1Package → Result FuzzyReference
unfolding parse_optional_version
fuzzy_reference_from_package qt pkg = elim (parse_optional_version qt pkg.version) [
  | err e ↦ err e
  | ok version ↦ FuzzyReference.create pkg.channel pkg.id version none
]

-- `module.value_or("binary")`
unfoldable pub module_or_binary : Option Text → Text
module_or_binary none = codes "binary"
module_or_binary (some name) = name

-- "%1:%2/%3/%4/%5"
unfoldable pub ref_spec : Text → Reference → Text → Text
ref_spec repo ref name =
    repo
    ++ (b':'
        ∷ (ref.channel
            ++ (b'/' ∷ (ref.id ++ (b'/' ∷ (Architecture.to_string ref.arch ++ (b'/' ∷ name)))))))

-- `isRefExist`, for any task of the list
unfoldable pub is_operated : Text → List (List Text) → Bool
is_operated spec [] = false
is_operated spec (refs ∷ rest) = elim (find_first (text_eq spec) refs) [
  | none ↦ is_operated spec rest
  | some _ ↦ true
]

unfoldable pub force_remote : ClearReferenceOption
force_remote = record { force_remote = true; fallback_to_remote = false }

module _ (env : Env) where
  unfoldable pub clear_as :
      RepoCache → ClearReferenceOption → FuzzyReference → Text → Option (Result Reference)
  clear_as r opts fuzzy name =
      clear_reference env.qt env.host r.cache env.list_remote fuzzy opts name

  -- A task for this reference and module, unless one operates on it.
  unfoldable pub start_for :
      {A : Type 0} → List (List Text) → Reference → Text → (Text → A) → Answer A
  unfolding ref_spec is_operated
  start_for tasks ref name make =
      let spec = ref_spec env.remote.default_repo ref name in
      if is_operated spec tasks
      then refused (codes "the target " ++ (spec ++ codes " is being operated"))
      else accepted (make spec)

  -- `Uninstall`: what is uninstalled, with its entry for the list of the tasks.
  unfoldable pub uninstall_found :
      List (List Text) → Reference → Text → Answer (Text × Reference × Text)
  unfolding start_for
  uninstall_found tasks ref name = elim (is_ref_busy env ref) [
    | err e ↦
        refused (codes "failed to get the state of target ref:" ++ Reference.to_string env.qt ref)
    | ok true ↦ notified (
        codes
          "The application is currently running and cannot be uninstalled. Please turn off the application and try again.")
    | ok false ↦ start_for tasks ref name (λ spec. (spec, ref, name))
  ]

  unfoldable pub uninstall_request :
      RepoCache
      → List (List Text)
      → PackageManager1Package
      → Option (Answer (Text × Reference × Text))
  unfolding uninstall_found fuzzy_reference_from_package module_or_binary clear_as
  uninstall_request r tasks pkg = elim (fuzzy_reference_from_package env.qt pkg) [
    | err e ↦ some (refused (codes e))
    | ok fuzzy ↦ elim (clear_as r local_only fuzzy (codes "binary")) [
      | none ↦ none
      | some (err e) ↦
          some (refused (FuzzyReference.to_string env.qt fuzzy ++ codes " not installed."))
      | some (ok ref) ↦ some (uninstall_found tasks ref (module_or_binary pkg.module_name))
    ]
  ]

  -- `latestRemoteReference`: an application may be updated to any version.
  unfoldable pub latest_remote_reference :
      RepoCache → Text → FuzzyReference → Option (Result Reference)
  unfolding clear_as
  latest_remote_reference r kind fuzzy =
      if text_eq kind (codes "app")
      then clear_as r force_remote (record fuzzy { version = none }) (codes "binary")
      else clear_as r force_remote fuzzy (codes "binary")

  -- The round of `Update` once the old and the new version are known.
  unfoldable pub update_found :
      List (List Text) → Reference → Reference → Text → Answer (Text × Reference × Reference)
  unfolding start_for
  update_found tasks ref new name =
      if Version.le new.version ref.version
      then refused (
          codes "remote version is "
          ++ (Version.to_string env.qt new.version
              ++ (codes ", the latest version "
                  ++ (Version.to_string env.qt ref.version ++ codes " is already installed"))))
      else start_for tasks ref name (λ spec. (spec, ref, new))

  -- One round of the loop of `Update`.
  unfoldable pub update_package :
      RepoCache
      → List (List Text)
      → PackageManager1Package
      → Option (Answer (Text × Reference × Reference))
  unfolding update_found latest_remote_reference fuzzy_reference_from_package module_or_binary
      clear_as
  update_package r tasks pkg = elim (fuzzy_reference_from_package env.qt pkg) [
    | err e ↦ some (refused (codes e))
    | ok fuzzy ↦ elim (clear_as r local_only fuzzy (codes "binary")) [
      | none ↦ none
      | some (err e) ↦
          some (refused (FuzzyReference.to_string env.qt fuzzy ++ codes " not installed."))
      | some (ok ref) ↦ elim (get_layer_item env.qt r.cache ref (codes "binary") none) [
        | err e ↦ some (refused (codes e))
        | ok item ↦ elim (latest_remote_reference r item.info.kind fuzzy) [
          | none ↦ none
          | some (err e) ↦ some (refused (codes e))
          | some (ok new) ↦ some (update_found tasks ref new (module_or_binary pkg.module_name))
        ]
      ]
    ]
  ]

  -- What was accepted before it.
  unfoldable pub join_answers : {A : Type 0} → A → Answer (List A) → Answer (List A)
  join_answers first (refused message) = refused message
  join_answers first (notified message) = notified message
  join_answers first (accepted rest) = accepted (first ∷ rest)

  -- `Update`: the entries for the list of the tasks, with the old and the new versions.
  unfoldable pub update_request :
      RepoCache
      → List (List Text)
      → List PackageManager1Package
      → Option (Answer (List (Text × Reference × Reference)))
  unfolding update_package join_answers
  update_request r tasks [] = some (accepted [])
  update_request r tasks (pkg ∷ rest) = elim (update_package r tasks pkg) [
    | none ↦ none
    | some (refused message) ↦ some (refused message)
    | some (notified message) ↦ some (notified message)
    | some (accepted first) ↦ elim (update_request r tasks rest) [
      | none ↦ none
      | some later ↦ some (join_answers first later)
    ]
  ]
