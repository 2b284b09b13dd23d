-- ===== src/Repo/Resolve.antt =====
-- repo/ostree_repo.cpp: from a fuzzy reference to a reference, in the local cache or in the list that
-- the remote repository sends. `qFatal` and the use of a value that is not there give `none`.
pub mod Remote
pub mod Local
pub mod Total
use linglong.Prelude.{
  Bool, true, false, not, ◌&&◌, ◌||◌, Option, none, some, List, [], ◌∷◌, if◌then◌else◌, xor,
}
use linglong.Prelude.Text.{Text, codes, text_eq}
use linglong.Prelude.Result.{Result, ok, err}
use linglong.Api.{LayersItem, PackageInfoV2, RepositoryCache}
use linglong.Package.Qt.{Qt}
use linglong.Package.Version
use linglong.Package.Version.{Version}
use linglong.Package.Architecture
use linglong.Package.Architecture.{Architecture}
use linglong.Package.FuzzyReference.{FuzzyReference}
use linglong.Package.Reference
use linglong.Package.Reference.{Reference}
use linglong.Repo.Cache.{Query, any, is_deleted, query_layer_item}

-- The version of a layer, without its tweak if the wanted one has none.
unfoldable pub drop_tweak : Version → Version → Version
drop_tweak want v = elim want.tweak [ none ↦ record v { tweak = none } | some t ↦ v ]

-- The loop of `clearReferenceLocal` over the layers that have the id.
unfoldable pub find_layer : Qt → Option Version → List LayersItem → Option (Result LayersItem)
find_layer qt want [] = some (err "compatible layer not found")
find_layer qt want (layer ∷ rest) =
    let later = find_layer qt want rest in
    if is_deleted layer then later else elim (Version.parse qt layer.info.version) [
      | err e ↦ none
      | ok v ↦ elim want [
        | none ↦ some (ok layer)
        | some w ↦ if Version.eq (drop_tweak w v) w then some (ok layer) else later
      ]
    ]

-- The reference of the layer that was found.
unfoldable pub layer_reference : Qt → LayersItem → Option (Result Reference)
layer_reference qt layer = elim (Version.parse qt layer.info.version) [
  | err e ↦ none
  | ok v ↦ elim layer.info.arch [
    | [] ↦ none
    | raw ∷ _ ↦ elim (Architecture.parse raw) [
      | err e ↦ none
      | ok arch ↦ some (Reference.create layer.info.channel layer.info.id v arch)
    ]
  ]
]

-- The architecture of the host has to be the wanted one, if one is wanted.
unfoldable pub check_arch : Result Architecture → Option Architecture → Result (Unit {0})
check_arch host none = ok tt
check_arch (err e) (some want) = err e
check_arch (ok host) (some want) =
    if text_eq (Architecture.to_string host) (Architecture.to_string want)
    then ok tt
    else err "arch mismatch with host arch"

-- `query.id`
unfoldable pub by_id : Text → Query
by_id id = record any { id = some id }

unfoldable pub clear_reference_local :
    Qt → Result Architecture → RepositoryCache → FuzzyReference → Option (Result Reference)
clear_reference_local qt host c fuzzy = elim (check_arch host fuzzy.arch) [
  | err e ↦ some (err e)
  | ok _ ↦ elim (query_layer_item c (by_id fuzzy.id)) [
    | [] ↦ some (err "package not found")
    | layer ∷ rest ↦ elim (find_layer qt fuzzy.version (layer ∷ rest)) [
      | none ↦ none
      | some (err e) ↦ some (err e)
      | some (ok found) ↦ layer_reference qt found
    ]
  ]
]

-- Does the record of the remote repository offer the module?
unfoldable pub offers_module : Text → PackageInfoV2 → Bool
offers_module name record' =
    let have = record'.package_info_v2_module in
    if text_eq name (codes "binary")
    then text_eq have (codes "binary") || text_eq have (codes "runtime")
    else text_eq have name

-- The reference that a record of the remote repository stands for; `none` where the loop goes on.
unfoldable pub candidate : Qt → FuzzyReference → Text → PackageInfoV2 → Option Reference
candidate qt fuzzy name info =
    let other_channel : Bool = elim fuzzy.channel [
      | none ↦ false
      | some c ↦ not (text_eq c info.channel)
    ] in
    if other_channel
    then none
    else if not (text_eq fuzzy.id info.id)
    then none
    else elim (Version.parse qt info.version) [
      | err e ↦ none
      | ok v ↦ elim info.arch [
        | [] ↦ none
        | raw ∷ _ ↦ if not (offers_module name info) then none else elim (Architecture.parse raw) [
          | err e ↦ none
          | ok arch ↦ elim (Reference.create info.channel fuzzy.id v arch) [
            | err e ↦ none
            | ok ref ↦ some ref
          ]
        ]
      ]
    ]

-- One round of the loop, with the reference so far.
unfoldable pub better : Option Reference → Option Reference → Option Reference
better best none = best
better none (some new) = some new
better (some best) (some new) = if Version.ge best.version new.version then some best else some new

unfoldable pub pick :
    Qt → FuzzyReference → Text → Option Reference → List PackageInfoV2 → Option Reference
pick qt fuzzy name best [] = best
pick qt fuzzy name best (info ∷ rest) =
    pick qt fuzzy name (better best (candidate qt fuzzy name info)) rest

-- The part of `clearReference` that asks the remote repository, which answers with a list.
unfoldable pub clear_reference_remote :
    Qt → (FuzzyReference → Result (List PackageInfoV2)) → FuzzyReference → Text → Result Reference
clear_reference_remote qt list_remote fuzzy name = elim (list_remote fuzzy) [
  | err e ↦ err "get ref list from remote"
  | ok list ↦ elim (pick qt fuzzy name none list) [
    | none ↦ err "not found ref from remote repo"
    | some ref ↦ ok ref
  ]
]

-- `clearReferenceOption`
pub record ClearReferenceOption : Type 0 where
  pub force_remote : Bool
  pub fallback_to_remote : Bool

unfoldable pub clear_reference :
    Qt
    → Result Architecture
    → RepositoryCache
    → (FuzzyReference → Result (List PackageInfoV2))
    → FuzzyReference
    → ClearReferenceOption
    → Text
    → Option (Result Reference)
clear_reference qt host c list_remote fuzzy opts name =
    let remote = some (clear_reference_remote qt list_remote fuzzy name) in
    if opts.force_remote then remote else elim (clear_reference_local qt host c fuzzy) [
      | none ↦ none
      | some (ok ref) ↦ some (ok ref)
      | some (err e) ↦ if opts.fallback_to_remote then remote else some (err e)
    ]
