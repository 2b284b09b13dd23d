-- ===== src/Repo/Cache.antt =====
-- repo/repo_cache.{h,cpp}: the record of the layers in the local repository, kept in memory and in
-- a file. The file system is a value: what its operations will answer, and what the files hold. The
-- JSON text of a cache is taken for the cache. `front()` of an empty vector, which is undefined, is
-- read as an empty text.
pub mod Sorted
pub mod Changes
pub mod Refines
pub mod Rebuild
use linglong.Prelude.{
  Bool, true, false, not, ◌&&◌, ◌||◌, Option, none, some, List, [], ◌∷◌, ◌++◌, if◌then◌else◌, keep,
  find_first, erase_first, update_first, xor,
}
use linglong.Prelude.Text.{Text, text_eq, text_lt}
use linglong.Prelude.Result.{Result, ok, err}
use linglong.Api.{LayersItem, MergedItem, PackageInfoV2, RepositoryCache}

-- The directory of the cache file, and the JSON of a cache.
pub record Disk : Type 0 where
  -- what the calls answer
  pub parent_exists : Bool
  pub can_open_temp : Bool
  pub can_rename : Bool
  pub can_remove : Bool
  pub can_open_tag : Bool
  -- `nlohmann::json(cache).dump()`
  pub dump : RepositoryCache → Text
  -- what stands in a file after a text was written to it: the text, or less of it if a write fails
  pub stored : Text → Text
  -- what stands in `states.json`, in the temporary file and in `.version`
  pub file : Option Text
  pub temp : Option Text
  pub tag : Option Text

-- `repoCacheQuery`
pub record Query : Type 0 where
  pub id : Option Text
  pub repo : Option Text
  pub channel : Option Text
  pub version : Option Text
  pub module_name : Option Text
  pub uuid : Option Text
  pub deleted : Option Bool

-- A query that asks for nothing.
abbrev pub any : Query
any = record {
  id = none;
  repo = none;
  channel = none;
  version = none;
  module_name = none;
  uuid = none;
  deleted = none;
}

unfoldable pub front : List Text → Text
front [] = []
front (x ∷ xs) = x

-- The test of `findMatchingItem`.
unfoldable pub matches : LayersItem → LayersItem → Bool
matches item val = not (
    not (text_eq item.commit val.commit)
    || (not (text_eq item.repo val.repo)
        || (not (text_eq item.info.channel val.info.channel)
            || (not (text_eq item.info.id val.info.id)
                || (not (text_eq item.info.version val.info.version)
                    || (not (text_eq (front item.info.arch) (front val.info.arch))
                        || not (
                            text_eq item.info.package_info_v2_module
                              val.info.package_info_v2_module)))))))

unfoldable pub find_matching_item : RepositoryCache → LayersItem → Result LayersItem
find_matching_item c item = elim (find_first (matches item) c.layers) [
  | none ↦ err "item doesn't exist"
  | some val ↦ ok val
]

-- The text that a writing of the cache leaves in the temporary file.
abbrev pub written : Disk → RepositoryCache → Text
written d c = d.stored (d.dump c)

-- `writeToDisk`: to a temporary file that is then renamed. Whether the stream failed is not asked.
-- `LINGLONG_VERSION` is an argument.
unfoldable pub write_to_disk : Text → RepositoryCache → Disk → Result (Unit {0}) × Disk
write_to_disk ll_version c d =
    if not d.parent_exists
    then (err "The parent directory of state.json doesn't exist", d)
    else if not d.can_open_temp
    then (err "failed to update cache", d)
    else if not d.can_rename
    then (
      err "failed to update cache",
      record d { temp = if d.can_remove then none else some (written d c) },
    )
    else (
      ok tt,
      record d {
        file = some (written d c);
        temp = none;
        tag = if d.can_open_tag then some (d.stored ll_version) else d.tag;
      },
    )

-- The cache in memory and the directory that it is written to.
pub record RepoCache : Type 0 where
  pub cache : RepositoryCache
  pub disk : Disk

-- Keeps what is in memory, and writes it.
unfoldable pub save : Text → RepositoryCache → RepoCache → Result (Unit {0}) × RepoCache
save ll_version c r =
    let (result, d) = write_to_disk ll_version c r.disk in (result, record { cache = c; disk = d })

unfoldable pub add_layer_item : Text → LayersItem → RepoCache → Result (Unit {0}) × RepoCache
add_layer_item ll_version item r = elim (find_matching_item r.cache item) [
  | ok it ↦ (err "item already exist", r)
  | err e ↦ save ll_version (record (r.cache) { layers = r.cache.layers ++ (item ∷ []) }) r
]

unfoldable pub delete_layer_item : Text → LayersItem → RepoCache → Result (Unit {0}) × RepoCache
delete_layer_item ll_version item r = elim (find_matching_item r.cache item) [
  | err e ↦ (err e, r)
  | ok it ↦
      save ll_version (record (r.cache) { layers = erase_first (matches item) r.cache.layers }) r
]

-- `deleted.has_value() && deleted.value()`
unfoldable pub is_deleted : LayersItem → Bool
is_deleted item = elim item.deleted [ none ↦ false | some b ↦ b ]

unfoldable pub query_existing_layer_item : RepositoryCache → List LayersItem
query_existing_layer_item c = keep (λ item. not (is_deleted item)) c.layers

-- `query.x && query.x.value() != value` is false
unfoldable pub accepts : Option Text → Text → Bool
accepts none value = true
accepts (some want) value = text_eq want value

-- The same for a property that the layer may lack.
unfoldable pub accepts_option : Option Text → Option Text → Bool
accepts_option none value = true
accepts_option (some want) none = false
accepts_option (some want) (some have) = text_eq want have

unfoldable pub accepts_flag : Option Bool → Option Bool → Bool
accepts_flag none value = true
accepts_flag (some want) none = false
accepts_flag (some want) (some have) = not (xor want have)

-- The tests of the loop of `queryLayerItem`, in their order.
unfoldable pub selects : Query → LayersItem → Bool
selects q layer =
    accepts q.id layer.info.id
    && (accepts q.repo layer.repo
        && (accepts q.channel layer.info.channel
            && (accepts q.version layer.info.version
                && (accepts q.module_name layer.info.package_info_v2_module
                    && (accepts_flag q.deleted layer.deleted
                        && accepts_option q.uuid layer.info.uuid)))))

-- `std::sort` by the text of the version, the greatest first. The order that it leaves equal
-- versions in is not specified; here they keep theirs.
unfoldable pub insert_layer : LayersItem → List LayersItem → List LayersItem
insert_layer x [] = x ∷ []
insert_layer x (y ∷ ys) =
    let rest = insert_layer x ys in
    if text_lt x.info.version y.info.version then y ∷ rest else x ∷ y ∷ ys

unfoldable pub sort_layers : List LayersItem → List LayersItem
unfolding insert_layer
sort_layers [] = []
sort_layers (x ∷ xs) = insert_layer x (sort_layers xs)

unfoldable pub query_layer_item : RepositoryCache → Query → List LayersItem
unfolding sort_layers selects
query_layer_item c q = sort_layers (keep (selects q) c.layers)

unfoldable pub update_merged_items :
    Text → List MergedItem → RepoCache → Result (Unit {0}) × RepoCache
update_merged_items ll_version items r =
    save ll_version (record (r.cache) { merged = some items }) r
