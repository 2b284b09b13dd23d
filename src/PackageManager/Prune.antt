-- ===== src/PackageManager/Prune.antt =====
-- `PackageManager::Prune`: the bases and runtimes that no installed application uses are removed.
-- The result is `none` where a broken version in the cache ends the process. The uses are counted
-- in ℕ, since there are at most two for each installed package.
pub mod Counts
pub mod Needed
pub mod Kept
pub mod Whole
pub mod Total
use linglong.Prelude.{
  ℕ, suc, Bool, true, false, not, ◌&&◌, ◌||◌, ◌==◌, Option, none, some, List, [], ◌∷◌, ◌++◌,
  if◌then◌else◌, keep, map,
}
use linglong.Prelude.Partial.{◌>>=◌}
use linglong.Prelude.Text.{Text, codes, text_eq}
use linglong.Prelude.Result.{Result, ok, err}
use linglong.Api.{LayersItem, PackageInfoV2, RepositoryCache}
use linglong.Package.Qt.{Qt}
use linglong.Package.Architecture.{Architecture}
use linglong.Package.FuzzyReference
use linglong.Package.FuzzyReference.{FuzzyReference}
use linglong.Package.Reference
use linglong.Package.Reference.{Reference}
use linglong.Repo.Cache.{RepoCache}
use linglong.Repo.Resolve.{ClearReferenceOption, clear_reference}
use linglong.Repo.Layers.{Ostree, list_local, get_layer_item, get_module_list, remove}

-- `std::unordered_map<package::Reference, int>`
abbrev pub Target : Type 0
Target = List (Reference × ℕ)

-- `target.try_emplace(ref, 0)`
unfoldable pub try_emplace : Reference → Target → Target
try_emplace ref [] = (ref, 0) ∷ []
try_emplace ref (entry ∷ rest) =
    let later = try_emplace ref rest in
    if Reference.eq entry.0 ref then entry ∷ rest else entry ∷ later

-- `target[ref] += 1`
unfoldable pub add_use : Reference → Target → Target
add_use ref [] = (ref, 1) ∷ []
add_use ref (entry ∷ rest) =
    let later = add_use ref rest in
    if Reference.eq entry.0 ref then (entry.0, suc entry.1) ∷ rest else entry ∷ later

-- Only the modules `binary` and `runtime` count.
unfoldable pub is_main : PackageInfoV2 → Bool
is_main info =
    text_eq info.package_info_v2_module (codes "binary")
    || text_eq info.package_info_v2_module (codes "runtime")

unfoldable pub is_app : PackageInfoV2 → Bool
is_app info = text_eq info.kind (codes "app")

-- The options of the calls of `clearReference`.
unfoldable pub local_only : ClearReferenceOption
local_only = record { force_remote = false; fallback_to_remote = false }

module _ (qt : Qt) (host : Result Architecture) (c : RepositoryCache)
    (list_remote : FuzzyReference → Result (List PackageInfoV2)) where
  -- The installed package that the text of a base or a runtime stands for.
  unfoldable pub resolve : Text → Option (Result Reference)
  resolve text = elim (FuzzyReference.parse qt text) [
    | err e ↦ some (err e)
    | ok fuzzy ↦ clear_reference qt host c list_remote fuzzy local_only (codes "binary")
  ]

  -- A use of what the text stands for; without such a package the round of the loop ends.
  unfoldable pub count_use : Text → Target → (Target → Option Target) → Option Target
  count_use text target next = elim (resolve text) [
    | none ↦ none
    | some (err e) ↦ some target
    | some (ok ref) ↦ next (add_use ref target)
  ]

  unfoldable pub count_app : PackageInfoV2 → Target → Option Target
  count_app info target = elim info.runtime [
    | none ↦ count_use info.base target some
    | some runtime ↦ count_use runtime target (λ more. count_use info.base more some)
  ]

  -- One round of the first loop.
  unfoldable pub count_package : PackageInfoV2 → Target → Option Target
  count_package info target =
      if not (is_main info)
      then some target
      else if not (is_app info)
      then elim (Reference.from_package_info qt info) [
        | none ↦ none
        | some (err e) ↦ some target
        | some (ok ref) ↦ some (try_emplace ref target)
      ]
      else count_app info target

  unfoldable pub count_all : List PackageInfoV2 → Target → Option Target
  count_all [] target = some target
  count_all (info ∷ rest) target = count_package info target >>= λ more. count_all rest more

  -- What the loop over the installed packages counts.
  unfoldable pub targets : Option Target
  targets = count_all (list_local c) []

-- The references that the second loop does not pass over.
unfoldable pub unused : Target → List Reference
unused target = map (λ entry. entry.0) (keep (λ entry. entry.1 == 0) target)

module _ (qt : Qt) (ll_version : Text) (ostree : Reference → Text → Ostree)
    (read_info : LayersItem → Result PackageInfoV2) where
  -- The description in the directory of the layer of a module.
  unfoldable pub layer_info : Reference → Text → RepoCache → Result PackageInfoV2
  layer_info ref name r = elim (get_layer_item qt r.cache ref name none) [
    | err e ↦ err e
    | ok item ↦ read_info item
  ]

  -- The modules of an unused package are removed; the list `removed` grows with each.
  unfoldable pub prune_modules :
      Reference
      → List Text
      → RepoCache × List PackageInfoV2
      → Result (Unit {0}) × RepoCache × List PackageInfoV2
  prune_modules ref [] (r, removed) = (ok tt, r, removed)
  prune_modules ref (name ∷ rest) (r, removed) = elim (layer_info ref name r) [
    | err e ↦ prune_modules ref rest (r, removed)
    | ok info ↦ elim (remove qt ll_version (ostree ref name) ref name none r).0 [
      | err e ↦ (
        err e,
        (remove qt ll_version (ostree ref name) ref name none r).1,
        removed ++ (info ∷ []),
      )
      | ok _ ↦
          prune_modules ref rest
            ((remove qt ll_version (ostree ref name) ref name none r).1, removed ++ (info ∷ []))
    ]
  ]

  -- The second loop of `Prune`.
  unfoldable pub prune_refs :
      List Reference
      → RepoCache × List PackageInfoV2
      → Result (Unit {0}) × RepoCache × List PackageInfoV2
  prune_refs [] (r, removed) = (ok tt, r, removed)
  prune_refs (ref ∷ rest) (r, removed) =
      let done = prune_modules ref (get_module_list qt r.cache ref) (r, removed) in
      elim done.0 [ err e ↦ (err e, done.1, done.2) | ok _ ↦ prune_refs rest (done.1, done.2) ]

-- `Prune` up to the clean-up that follows its loops. The order of an unordered map is not
-- specified; the references are taken in the order in which they were met.
unfoldable pub prune :
    Qt
    → Text
    → (Reference → Text → Ostree)
    → (LayersItem → Result PackageInfoV2)
    → Result Architecture
    → (FuzzyReference → Result (List PackageInfoV2))
    → RepoCache
    → Option (Result (Unit {0}) × RepoCache × List PackageInfoV2)
prune qt ll_version ostree read_info host list_remote r =
    targets qt host r.cache list_remote >>= λ t.
    some (prune_refs qt ll_version ostree read_info (unused t) (r, []))
