-- ===== src/PackageManager/Deferred.antt =====
-- package_manager/package_manager.cpp: `deferredUninstall`, which removes the layers that are marked
-- as deleted once nothing runs of them. The result is `none` where a broken version in the cache, or
-- the use of a value that is not there, ends the process. The order of an unordered map is not
-- specified; the references are taken in the order in which they were met.
use linglong.Prelude.{
  Bool, true, false, Option, none, some, List, [], ◌∷◌, ◌++◌, if◌then◌else◌, keep, find_first,
}
use linglong.Prelude.Text.{Text, codes, text_eq}
use linglong.Prelude.Result.{Result, ok, err}
use linglong.Api.{LayersItem}
use linglong.Package.FuzzyReference
use linglong.Package.Reference
use linglong.Package.Reference.{Reference}
use linglong.Repo.Cache.{any, Query, RepoCache, query_layer_item}
use linglong.Repo.Layers.{remove}
use linglong.Repo.Resolve.{clear_reference}
use linglong.Task.{Double}
use linglong.PackageManager.Prune.{local_only}
use linglong.PackageManager.World.{
  Env, World, export_reference, unexport_reference, with_repo, merge_world,
}

-- The layers of each reference.
abbrev pub Pending : Type 0
Pending = List (Text × List LayersItem)

-- `try_emplace` and `push_back`
unfoldable pub push_pending : Text → LayersItem → Pending → Pending
push_pending key item [] = (key, item ∷ []) ∷ []
push_pending key item (entry ∷ rest) =
    let later = push_pending key item rest in
    if text_eq entry.0 key then (entry.0, entry.1 ++ (item ∷ [])) ∷ rest else entry ∷ later

-- The query for every layer that is marked as deleted.
unfoldable pub deleted_layers : Query
deleted_layers = record any { deleted = some true }

module _ (env : Env) where
  -- The loop that groups the layers; a layer without a reference ends it all.
  unfoldable pub group_pending : List LayersItem → Pending → Option (Result Pending)
  unfolding push_pending
  group_pending [] pending = some (ok pending)
  group_pending (item ∷ rest) pending = elim (Reference.from_package_info env.qt item.info) [
    | none ↦ none
    | some (err e) ↦ some (err e)
    | some (ok ref) ↦
        group_pending rest (push_pending (Reference.to_string env.qt ref) item pending)
  ]

  -- Does a container run that is called so?
  unfoldable pub is_idle : List Text → Text × List LayersItem → Bool
  is_idle apps entry = elim (find_first (text_eq entry.0) apps) [ none ↦ true | some _ ↦ false ]

  -- The loop over the layers of a reference, which goes on after an error.
  unfoldable pub remove_layers : Reference → List LayersItem → RepoCache → RepoCache
  remove_layers ref [] r = r
  remove_layers ref (item ∷ rest) r =
      let name = item.info.package_info_v2_module in
      remove_layers ref rest
        (remove env.qt env.ll_version (env.ostree ref name) ref name item.info.uuid r).1

  -- What is shown after a version was removed.
  unfoldable pub latest_local : Reference → RepoCache → Option (Result Reference)
  latest_local ref r = elim (FuzzyReference.create (some ref.channel) ref.id none (some ref.arch)) [
    | err e ↦ some (err e)
    | ok fuzzy ↦
        clear_reference env.qt env.host r.cache env.list_remote fuzzy local_only (codes "binary")
  ]

  module _ {d : Double} where
    -- One round for a reference, up to the export.
    unfoldable pub uninstall_pending : Reference → List LayersItem → World d → World d
    unfolding remove_layers
    uninstall_pending ref items w =
        let w' = unexport_reference ref w in
        merge_world env (with_repo (remove_layers ref items w'.repo) w')

    unfoldable pub uninstall_all : Pending → World d → Option (World d)
    unfolding uninstall_pending latest_local
    uninstall_all [] w = some w
    uninstall_all ((key, items) ∷ rest) w = elim (Reference.parse env.qt key) [
      | err e ↦ some w
      | ok ref ↦
          let w' = uninstall_pending ref items w in
          elim (latest_local ref w'.repo) [
            | none ↦ none
            | some (err e) ↦ none
            | some (ok latest) ↦ uninstall_all rest (export_reference latest w')
          ]
    ]

    unfoldable pub deferred_uninstall : World d → Option (World d)
    unfolding group_pending is_idle uninstall_all
    deferred_uninstall w = elim env.lock_repo [
      | err e ↦ some w
      | ok _ ↦ elim (group_pending (query_layer_item w.repo.cache deleted_layers) []) [
        | none ↦ none
        | some (err e) ↦ some w
        | some (ok []) ↦ some w
        | some (ok (entry ∷ more)) ↦ elim env.running [
          | err e ↦ some w
          | ok apps ↦ uninstall_all (keep (is_idle apps) (entry ∷ more)) w
        ]
      ]
    ]
