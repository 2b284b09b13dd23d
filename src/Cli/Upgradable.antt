-- ===== src/Cli/Upgradable.antt =====
-- cli/cli.cpp: `listUpgradable` and `filterPackageInfosFromType`. The list of the remote repository
-- is an argument. The result is `none` where the version of an installed package, which is not one,
-- is used nevertheless.
pub mod Newer
pub mod Offers
use linglong.Prelude.{
  Bool, true, false, not, Option, none, some, List, [], ◌∷◌, ◌++◌, keep, if◌then◌else◌,
}
use linglong.Prelude.Text.{Text, codes, text_eq, is_empty}
use linglong.Prelude.Result.{Result, ok, err}
use linglong.Api.{PackageInfoV2, RepositoryCache}
use linglong.Package.Qt.{Qt}
use linglong.Package.Version
use linglong.Package.Architecture
use linglong.Package.FuzzyReference
use linglong.Package.FuzzyReference.{FuzzyReference}
use linglong.Package.Reference
use linglong.Package.Reference.{Reference}
use linglong.Repo.Resolve.{better}
use linglong.Repo.Layers.{list_local_latest}

pub record UpgradeListResult : Type 0 where
  pub id : Text
  pub new_version : Text
  pub old_version : Text

unfoldable pub filter_package_infos_from_type : Text → List PackageInfoV2 → List PackageInfoV2
filter_package_infos_from_type type list =
    if text_eq type (codes "all") then list else keep (λ info. text_eq info.kind type) list

-- The reference that a remote record stands for; `none` where the inner loop goes on.
unfoldable pub upgrade_candidate : Qt → FuzzyReference → PackageInfoV2 → Option Reference
upgrade_candidate qt fuzzy info =
    let other_channel : Bool = elim fuzzy.channel [
      | none ↦ false
      | some c ↦ not (text_eq c info.channel)
    ] in
    if other_channel
    then none
    else if not (text_eq fuzzy.id info.id)
    then none
    else elim (Version.parse qt info.version) [
      | err e ↦ none
      | ok v ↦ elim info.arch [
        | [] ↦ none
        | raw ∷ _ ↦ elim (Architecture.parse raw) [
          | err e ↦ none
          | ok arch ↦ elim (Reference.create info.channel fuzzy.id v arch) [
            | err e ↦ none
            | ok ref ↦ some ref
          ]
        ]
      ]
    ]

-- The inner loop, with the reference so far.
unfoldable pub newest_offer :
    Qt → FuzzyReference → Option Reference → List PackageInfoV2 → Option Reference
newest_offer qt fuzzy best [] = best
newest_offer qt fuzzy best (info ∷ rest) =
    newest_offer qt fuzzy (better best (upgrade_candidate qt fuzzy info)) rest

-- The end of a round of the outer loop.
unfoldable pub compare_versions : Qt → PackageInfoV2 → Reference → Option (List UpgradeListResult)
compare_versions qt pkg ref = elim (Version.parse qt pkg.version) [
  | err e ↦ none
  | ok old ↦
      if Version.le ref.version old
      then some []
      else some (
          record {
            id = pkg.id;
            new_version = Version.to_string qt ref.version;
            old_version = Version.to_string qt old;
          }
          ∷ [])
]

-- A round of the outer loop.
unfoldable pub upgrade_of :
    Qt → List PackageInfoV2 → PackageInfoV2 → Option (List UpgradeListResult)
unfolding newest_offer compare_versions
upgrade_of qt remote pkg = elim (FuzzyReference.parse qt pkg.id) [
  | err e ↦ some []
  | ok fuzzy ↦ elim (newest_offer qt fuzzy none remote) [
    | none ↦ some []
    | some ref ↦ compare_versions qt pkg ref
  ]
]

unfoldable pub upgrades :
    Qt → List PackageInfoV2 → List PackageInfoV2 → Option (List UpgradeListResult)
unfolding upgrade_of
upgrades qt remote [] = some []
upgrades qt remote (pkg ∷ rest) =
    let later = upgrades qt remote rest in
    elim (upgrade_of qt remote pkg) [
      | none ↦ none
      | some found ↦ elim later [ none ↦ none | some more ↦ some (found ++ more) ]
    ]

-- `listUpgradable`. The filter takes the type from the options of the command.
unfoldable pub list_upgradable :
    Qt
    → RepositoryCache
    → (FuzzyReference → Result (List PackageInfoV2))
    → Text
    → Text
    → Option (Result (List UpgradeListResult))
unfolding filter_package_infos_from_type upgrades
list_upgradable qt c list_remote type option_type = elim (list_local_latest qt c) [
  | err e ↦ some (err e)
  | ok pkgs ↦
      let wanted =
        if is_empty type then pkgs else filter_package_infos_from_type option_type pkgs in
      elim (FuzzyReference.parse qt (codes ".")) [
        | err e ↦ some (err e)
        | ok all ↦ elim (list_remote all) [
          | err e ↦ some (err e)
          | ok remote ↦ elim (upgrades qt remote wanted) [ none ↦ none | some us ↦ some (ok us) ]
        ]
      ]
]
