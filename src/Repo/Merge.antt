-- ===== src/Repo/Merge.antt =====
-- repo/ostree_repo.cpp: `mergeModules`, which makes one directory of the modules of a package, and
-- `getMergedModuleDir`, which looks it up. SHA-256, the checkouts of OSTree and the answers of the
-- file system are arguments; the directories that are left over are not modelled, as their removal
-- changes no record.

pub mod Groups
pub mod Records
pub mod Wanted
use linglong.Prelude.{
  Bool, true, false, not, ◌&&◌, Option, none, some, List, [], ◌∷◌, ◌++◌, if◌then◌else◌, map, String,
}
use linglong.Prelude.Text.{Text, codes, text_eq, text_lt, is_empty}
use linglong.Prelude.Result.{Result, ok, err}
use linglong.Api.{LayersItem, MergedItem, RepositoryCache}
use linglong.Repo.Cache.{RepoCache, front, query_existing_layer_item, update_merged_items}
use linglong.Repo.Layers.{sort_modules}

-- The arguments: the hash of a list of commits, and what the file system and OSTree answer.
pub record Merger : Type 0 where
  pub hash : List Text → Text
  pub can_clean_temp : Text → Bool
  pub can_create_temp : Text → Bool
  pub can_checkout : Text → Text → Bool
  pub can_clean_output : Text → Bool
  pub can_rename : Text → Bool
  pub can_read_merged : Bool

-- `id/version/arch`
unfoldable pub group_key : LayersItem → Text
group_key layer =
    layer.info.id ++ (codes "/" ++ (layer.info.version ++ (codes "/" ++ front layer.info.arch)))

-- `std::map`, whose keys ascend.
abbrev pub Groups : Type 0
Groups = List (Text × List LayersItem)

-- `layerGroup[groupKey].push_back(layer)`
unfoldable pub push_group : Text → LayersItem → Groups → Groups
push_group key layer [] = (key, layer ∷ []) ∷ []
push_group key layer ((k, layers) ∷ rest) =
    let later = push_group key layer rest in
    if text_eq k key
    then (k, layers ++ (layer ∷ [])) ∷ rest
    else if text_lt key k
    then (key, layer ∷ []) ∷ (k, layers) ∷ rest
    else (k, layers) ∷ later

-- The loop that makes the groups.
unfoldable pub group_layers : List LayersItem → Groups → Groups
unfolding push_group group_key
group_layers [] groups = groups
group_layers (layer ∷ rest) groups = group_layers rest (push_group (group_key layer) layer groups)

unfoldable pub is_single : List LayersItem → Bool
is_single (layer ∷ []) = true
is_single _ = false

unfoldable pub commits_of : List LayersItem → List Text
commits_of layers = map (λ layer. layer.commit) layers

unfoldable pub modules_of : List LayersItem → List Text
modules_of layers = map (λ layer. layer.info.package_info_v2_module) layers

-- The commit of the last module `binary`, and an empty text if there is none.
unfoldable pub binary_commit_from : Text → List LayersItem → Text
binary_commit_from commit [] = commit
binary_commit_from commit (layer ∷ rest) =
    binary_commit_from
      (if text_eq layer.info.package_info_v2_module (codes "binary") then layer.commit else commit)
      rest

unfoldable pub texts_eq : List Text → List Text → Bool
texts_eq [] [] = true
texts_eq (x ∷ xs) (y ∷ ys) = text_eq x y && texts_eq xs ys
texts_eq _ _ = false

-- The loop over the records of the last merging: the first with this id, if its commits are these.
unfoldable pub find_merged : Text → List Text → List MergedItem → Option MergedItem
find_merged id commits [] = none
find_merged id commits (merge ∷ rest) =
    let later = find_merged id commits rest in
    if text_eq merge.id id
    then (if texts_eq merge.commits commits then some merge else none)
    else later

unfoldable pub old_items : RepositoryCache → List MergedItem
old_items c = elim c.merged [ none ↦ [] | some items ↦ items ]

unfoldable pub can_checkout_all : Merger → Text → List Text → Bool
can_checkout_all m id [] = true
can_checkout_all m id (commit ∷ rest) = m.can_checkout id commit && can_checkout_all m id rest

-- The new directory of a group, and its record.
unfoldable pub merge_group : Merger → Text → List LayersItem → Result MergedItem
unfolding commits_of modules_of binary_commit_from can_checkout_all
merge_group m key layers =
    let commits = commits_of layers in
    let id = m.hash commits in
    if not (m.can_clean_temp id)
    then err "clean merge tmp dir"
    else if not (m.can_create_temp id)
    then err "create merge tmp dir"
    else if not (can_checkout_all m id commits)
    then err "ostree_repo_checkout_at"
    else if not (m.can_clean_output id)
    then err "clean merge dir"
    else if not (m.can_rename id)
    then err "rename merge dir"
    else ok (record {
      binary_commit = some (binary_commit_from [] layers);
      commits = commits;
      id = id;
      modules = modules_of layers;
      name = some key;
    })

-- The record of a group: that of the last merging, or a new one.
unfoldable pub merged_item : Merger → List MergedItem → Text → List LayersItem → Result MergedItem
unfolding find_merged commits_of merge_group
merged_item m old key layers =
    elim (find_merged (m.hash (commits_of layers)) (commits_of layers) old) [
      | some merge ↦ ok merge
      | none ↦ merge_group m key layers
    ]

-- Is there anything to merge in the sorted group?
unfoldable pub is_mergeable : List LayersItem → Bool
unfolding is_single binary_commit_from
is_mergeable layers = not (is_single layers) && not (is_empty (binary_commit_from [] layers))

unfoldable pub push_item : Result MergedItem → Result (List MergedItem) → Result (List MergedItem)
push_item (err e) items = err e
push_item (ok item) (err e) = err e
push_item (ok item) (ok items) = ok (item ∷ items)

-- The loop over the groups. The groups that were merged before an error stay merged, but no record
-- of them is kept.
unfoldable pub merge_groups : Merger → List MergedItem → Groups → Result (List MergedItem)
unfolding push_item merged_item is_mergeable
merge_groups m old [] = ok []
merge_groups m old ((key, layers) ∷ rest) =
    let later = merge_groups m old rest in
    if is_mergeable (sort_modules layers)
    then push_item (merged_item m old key (sort_modules layers)) later
    else later

unfoldable pub existing_groups : RepositoryCache → Groups
unfolding group_layers
existing_groups c = group_layers (query_existing_layer_item c) []

unfoldable pub finish_merge : Merger → Result (Unit {0}) × RepoCache → Result (Unit {0}) × RepoCache
finish_merge m (err e, r) = (err "update merged items", r)
finish_merge m (ok _, r) = if m.can_read_merged then (ok tt, r) else (err "read merge directory", r)

unfoldable pub record_merged :
    Merger → Text → Result (List MergedItem) → RepoCache → Result (Unit {0}) × RepoCache
unfolding finish_merge
record_merged m ll_version (err e) r = (err e, r)
record_merged m ll_version (ok items) r = finish_merge m (update_merged_items ll_version items r)

unfoldable pub merge_modules : Merger → Text → RepoCache → Result (Unit {0}) × RepoCache
unfolding merge_groups existing_groups old_items record_merged
merge_modules m ll_version r =
    record_merged m ll_version (merge_groups m (old_items r.cache) (existing_groups r.cache)) r

-- Which directory stands for a layer: that of a merging, by its id, or its own.
pub data ModuleDir : Type 0 where
  merged_dir : Text → ModuleDir
  layer_dir : LayersItem → ModuleDir

unfoldable pub fallback_dir : Bool → LayersItem → String → Result ModuleDir
fallback_dir fallback layer message = if fallback then ok (layer_dir layer) else err message

unfoldable pub is_binary_of : LayersItem → MergedItem → Bool
is_binary_of layer item = elim item.binary_commit [
  | none ↦ false
  | some commit ↦ text_eq commit layer.commit
]

-- The loop over the records, with what it is known of the directories.
unfoldable pub find_merged_dir : (Text → Bool) → LayersItem → List MergedItem → Option Text
unfolding is_binary_of
find_merged_dir exists layer [] = none
find_merged_dir exists layer (item ∷ rest) =
    let later = find_merged_dir exists layer rest in
    if is_binary_of layer item && exists item.id then some item.id else later

unfoldable pub get_merged_module_dir :
    (Text → Bool) → RepositoryCache → LayersItem → Bool → Result ModuleDir
unfolding find_merged_dir fallback_dir
get_merged_module_dir exists c layer fallback = elim c.merged [
  | none ↦ fallback_dir fallback layer "no merged item found"
  | some items ↦ elim (find_merged_dir exists layer items) [
    | some id ↦ ok (merged_dir id)
    | none ↦ fallback_dir fallback layer "merged doesn't exist"
  ]
]
