-- ===== src/Repo/Layers.antt =====
-- repo/ostree_repo.cpp: the operations of `OSTreeRepo` that read the layers of the cache, and
-- those that mark a layer as deleted and remove it. What OSTree answers is an argument, and of the
-- directories nothing is modelled.
pub mod Marks
pub mod Unique
pub mod Rounds
pub mod Latest
use linglong.Prelude.{
  Bool, true, false, not, ◌&&◌, Option, none, some, List, [], ◌∷◌, ◌++◌, if◌then◌else◌, find_first,
  keep, erase_first, update_first, map,
}
use linglong.Prelude.Text.{Text, codes, text_eq, text_lt}
use linglong.Prelude.Result.{Result, ok, err, ◌>>=◌}
use linglong.Api.{LayersItem, PackageInfoV2, RepositoryCache}
use linglong.Utils.Transaction.{Transaction, start, add_roll_back, commit, destroy}
use linglong.Package.Qt.{Qt}
use linglong.Package.Version
use linglong.Package.Version.{Version}
use linglong.Package.Reference.{Reference}
use linglong.Repo.Cache.{
  Query, any, RepoCache, save, matches, find_matching_item, delete_layer_item, is_deleted,
  query_existing_layer_item, query_layer_item,
}

-- `listLocal`
unfoldable pub list_local : RepositoryCache → List PackageInfoV2
list_local c =
    map (λ item. item.info) (keep (λ item. not (is_deleted item)) (query_existing_layer_item c))

unfoldable pub has_id : Text → PackageInfoV2 → Bool
has_id id info = text_eq id info.id

-- The round of `listLocalLatest` for a package of which an entry is in the list.
unfoldable pub replace_older :
    Qt → List PackageInfoV2 → PackageInfoV2 → PackageInfoV2 → Result (List PackageInfoV2)
replace_older qt infos info it = Version.parse qt it.version >>= λ old.
    Version.parse qt info.version >>= λ new.
    if Version.le new old then ok infos else ok (erase_first (has_id info.id) infos ++ (info ∷ []))

unfoldable pub latest_step : Qt → List PackageInfoV2 → LayersItem → Result (List PackageInfoV2)
latest_step qt infos item =
    if is_deleted item then ok infos else elim (find_first (has_id item.info.id) infos) [
      | none ↦ ok (infos ++ (item.info ∷ []))
      | some it ↦ replace_older qt infos item.info it
    ]

unfoldable pub latest_from : Qt → List PackageInfoV2 → List LayersItem → Result (List PackageInfoV2)
latest_from qt infos [] = ok infos
latest_from qt infos (item ∷ rest) = latest_step qt infos item >>= λ more. latest_from qt more rest

-- `listLocalLatest`
unfoldable pub list_local_latest : Qt → RepositoryCache → Result (List PackageInfoV2)
list_local_latest qt c = latest_from qt [] (query_existing_layer_item c)

-- The query of `getLayerItem`.
unfoldable pub exactly : Qt → Reference → Text → Option Text → Query
exactly qt ref name sub_ref = record any {
  id = some ref.id;
  channel = some ref.channel;
  version = some (Version.to_string qt ref.version);
  module_name = some name;
  uuid = sub_ref;
}

-- The only layer; with none, what comes next.
unfoldable pub only_layer : List LayersItem → Result LayersItem → Result LayersItem
only_layer [] next = next
only_layer (item ∷ []) next = ok item
only_layer (item ∷ other ∷ rest) next =
    err "ambiguous ref has been detected, maybe underlying storage already broken."

-- `runtime` is an old name of the module `binary`.
unfoldable pub current_name : Text → Text
current_name name = if text_eq name (codes "runtime") then codes "binary" else name

unfoldable pub get_layer_item :
    Qt → RepositoryCache → Reference → Text → Option Text → Result LayersItem
get_layer_item qt c ref name sub_ref =
    only_layer (query_layer_item c (exactly qt ref (current_name name) sub_ref)) (
      if not (text_eq (current_name name) (codes "binary"))
      then err "couldn't find layer item"
      else only_layer (query_layer_item c (exactly qt ref (codes "runtime") sub_ref))
          (err "fallback to runtime still not found"))

-- `std::sort` by the name of the module, the least first.
unfoldable pub insert_module : LayersItem → List LayersItem → List LayersItem
insert_module x [] = x ∷ []
insert_module x (y ∷ ys) =
    let rest = insert_module x ys in
    if text_lt y.info.package_info_v2_module x.info.package_info_v2_module
    then y ∷ rest
    else x ∷ y ∷ ys

unfoldable pub sort_modules : List LayersItem → List LayersItem
sort_modules [] = []
sort_modules (x ∷ xs) = insert_module x (sort_modules xs)

unfoldable pub get_module_list : Qt → RepositoryCache → Reference → List Text
get_module_list qt c ref =
    map (λ item. item.info.package_info_v2_module)
      (sort_modules (
        query_layer_item c (record any {
          id = some ref.id;
          channel = some ref.channel;
          version = some (Version.to_string qt ref.version);
        })))

-- The item that the iterator points to, with another mark.
unfoldable pub set_deleted : Option Bool → LayersItem → LayersItem
set_deleted flag item = record item { deleted = flag }

unfoldable pub set_mark : LayersItem → Option Bool → RepositoryCache → RepositoryCache
set_mark item flag c = record c { layers = update_first (matches item) (set_deleted flag) c.layers }

-- The end of a transaction: an error leaves it to its destructor, else it is committed first.
unfoldable pub settle :
    Transaction RepoCache → Result (Unit {0}) × RepoCache → Result (Unit {0}) × RepoCache
settle transaction (err e, s) = (err e, destroy transaction s)
settle transaction (ok _, s) = (ok tt, destroy (commit transaction) s)

-- The part of `markDeleted` after the item was found, with the transaction around the writing.
unfoldable pub mark_item :
    Text → LayersItem → LayersItem → Option Bool → RepoCache → Result (Unit {0}) × RepoCache
mark_item ll_version item it flag r =
    let undo = λ (s : RepoCache). record s { cache = set_mark item it.deleted s.cache } in
    settle (add_roll_back start undo) (save ll_version (set_mark item flag r.cache) r)

unfoldable pub mark_deleted :
    Qt → Text → Reference → Bool → Text → Option Text → RepoCache → Result (Unit {0}) × RepoCache
mark_deleted qt ll_version ref deleted name sub_ref r =
    elim (get_layer_item qt r.cache ref name sub_ref) [
      | err e ↦ (err e, r)
      | ok item ↦ elim (find_matching_item r.cache item) [
        | err e ↦ (err e, r)
        | ok it ↦ mark_item ll_version item it (if deleted then some true else none) r
      ]
    ]

-- What OSTree answers when a reference is looked up and deleted.
pub record Ostree : Type 0 where
  pub can_resolve : Bool
  pub can_unset : Bool

unfoldable pub remove_ostree_ref :
    Text → Ostree → LayersItem → RepoCache → Result (Unit {0}) × RepoCache
remove_ostree_ref ll_version o layer r =
    if not o.can_resolve
    then (err "couldn't resolve ref on local machine", r)
    else if not o.can_unset
    then (err "ostree_repo_set_ref_immediate", r)
    else delete_layer_item ll_version layer r

-- `remove`, which deletes the directories afterwards, whatever comes of it.
unfoldable pub remove :
    Qt → Text → Ostree → Reference → Text → Option Text → RepoCache → Result (Unit {0}) × RepoCache
remove qt ll_version o ref name sub_ref r = elim (get_layer_item qt r.cache ref name sub_ref) [
  | err e ↦ (err e, r)
  | ok layer ↦ remove_ostree_ref ll_version o layer r
]
