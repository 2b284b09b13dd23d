-- ===== src/Repo/Merge/Records.antt =====
-- The records that `mergeModules` keeps, compared with the groups of layers.
use linglong.Prelude.{
  ◌≡◌, refl, ap, ◌∙◌, true, Bool-cases, Option-cases, &&_true, inl, inr, some, List, [], ◌∷◌, map,
  keep, arith, not,
}
use linglong.Prelude.Text.{Text, text_eq, text_eq_iff}
use linglong.Prelude.Result.{Result, ok, err}
use linglong.Api.{LayersItem, MergedItem, RepositoryCache}
use linglong.Repo.Cache.{
  RepoCache, written, save, is_deleted, query_existing_layer_item, update_merged_items,
}
use linglong.Repo.Cache.Changes.{write_to_disk_atomic}
use linglong.Repo.Layers.{sort_modules}
use linglong.Repo.Merge.{
  Merger, Groups, commits_of, texts_eq, find_merged, old_items, merge_group, merged_item,
  is_mergeable, push_item, merge_groups, existing_groups, finish_merge, record_merged,
  merge_modules,
}
use linglong.Repo.Merge.Groups.{IsGrouping, group_layers-IsGrouping}
use linglong.Repo.Merge.Wanted.{is_wanted, is_mergeable-wanted}

texts_eq-eq : (xs ys : List Text) → texts_eq xs ys ≡ true → xs ≡ ys
unfolding texts_eq
texts_eq-eq [] [] h = refl
texts_eq-eq (x ∷ xs) (y ∷ ys) h =
    let (same, rest) = &&_true (text_eq x y) (texts_eq xs ys) h in
    cc ((text_eq_iff x y).0 same, texts_eq-eq xs ys rest)
texts_eq-eq [] (y ∷ ys) h = cc h
texts_eq-eq (x ∷ xs) [] h = cc h

-- A record for these commits: they are its commits, and its id is their hash.
abbrev pub IsFor : Merger → List LayersItem → MergedItem → Type 0
IsFor m layers item = (item.commits ≡ commits_of layers) × (item.id ≡ m.hash (commits_of layers))

find_merged-found :
    (id : Text) (commits : List Text) (old : List MergedItem) {item : MergedItem}
    → find_merged id commits old ≡ some item
    → (item.commits ≡ commits) × (item.id ≡ id)
unfolding find_merged
find_merged-found id commits [] h = cc h
find_merged-found id commits (merge ∷ rest) h = elim (Bool-cases (text_eq merge.id id)) [
  | inr other ↦ find_merged-found id commits rest (rw (other, find_merged) at h)
  | inl same ↦ elim (Bool-cases (texts_eq merge.commits commits)) [
    | inl e ↦
        let found : some merge ≡ some _ = rw (same, e, find_merged) at h in
        (
          cc (texts_eq-eq merge.commits commits e, found),
          cc ((text_eq_iff merge.id id).0 same, found),
        )
    | inr e ↦ cc (rw (same, e, find_merged) at h)
  ]
]

merge_group-IsFor :
    (m : Merger) (key : Text) (layers : List LayersItem) {item : MergedItem}
    → merge_group m key layers ≡ ok item
    → IsFor m layers item
unfolding merge_group
merge_group-IsFor m key layers h = ground arith

merged_item-IsFor :
    (m : Merger) (old : List MergedItem) (key : Text) (layers : List LayersItem) {item : MergedItem}
    → merged_item m old key layers ≡ ok item
    → IsFor m layers item
unfolding merged_item
merged_item-IsFor m old key layers h =
    elim (Option-cases (find_merged (m.hash (commits_of layers)) (commits_of layers) old)) [
      | inl e ↦ merge_group-IsFor m key layers (rw (e, merged_item) at h)
      | inr (merge, e) ↦
          let same : ok merge ≡ ok _ = rw (e, merged_item) at h in
          let (commits, id) =
            find_merged-found (m.hash (commits_of layers)) (commits_of layers) old e in
          (cc (commits, same), cc (id, same))
    ]

-- The groups that are merged, each sorted by the names of its modules.
abbrev pub merged_groups : Groups → List (List LayersItem)
merged_groups groups = keep is_mergeable (map (λ group. sort_modules group.1) groups)

push_item-eq-ok :
    (first : Result MergedItem) (later : Result (List MergedItem)) {items : List MergedItem}
    → push_item first later ≡ ok items
    → (item : MergedItem) × (more : List MergedItem) × (first ≡ ok item)
      × (later ≡ ok more)
      × (ok (item ∷ more) ≡ ok items)
unfolding push_item
push_item-eq-ok (err e) later h = cc h
push_item-eq-ok (ok item) (err e) h = cc h
push_item-eq-ok (ok item) (ok more) h = (item, more, refl, refl, h)

merge_groups_for :
    (m : Merger) (old : List MergedItem) (groups : Groups) {items : List MergedItem}
    → merge_groups m old groups ≡ ok items
    → (map (λ item. item.commits) items ≡ map commits_of (merged_groups groups))
      × (map (λ item. item.id) items
          ≡ map (λ layers. m.hash (commits_of layers)) (merged_groups groups))
unfolding merge_groups keep
merge_groups_for m old [] h = (cc h, cc h)
merge_groups_for m old ((key, layers) ∷ rest) h =
    elim (Bool-cases (is_mergeable (sort_modules layers))) [
      | inr no_merge ↦
          rw (no_merge, keep) (merge_groups_for m old rest (rw (no_merge, merge_groups) at h))
      | inl merge ↦
          let (item, more, first, later, whole) =
            push_item-eq-ok (merged_item m old key (sort_modules layers)) (merge_groups m old rest)
              (rw (merge, merge_groups) at h) in
          let (commits, id) = merged_item-IsFor m old key (sort_modules layers) first in
          let (all_commits, all_ids) = merge_groups_for m old rest later in
          rw (merge, keep) (cc (whole, commits, all_commits), cc (whole, id, all_ids))
    ]

finish_merge-eq-ok :
    (m : Merger) (p : Result (Unit {0}) × RepoCache)
    → (finish_merge m p).0 ≡ ok tt
    → (p.0 ≡ ok tt) × ((finish_merge m p).1 ≡ p.1)
unfolding finish_merge
finish_merge-eq-ok m (err e, r) h = cc h
finish_merge-eq-ok m (ok tt, r) h = elim (Bool-cases m.can_read_merged) [
  | inl e ↦ (refl, rw (e, finish_merge))
  | inr e ↦ cc (rw (e, finish_merge) at h)
]

pub finish_merge-same :
    (m : Merger) (p : Result (Unit {0}) × RepoCache) → (finish_merge m p).1 ≡ p.1
unfolding finish_merge
finish_merge-same m (err e, r) = refl
finish_merge-same m (ok tt, r) = elim (Bool-cases m.can_read_merged) [
  | inl e ↦ rw (e, finish_merge)
  | inr e ↦ rw (e, finish_merge)
]

record_merged-layers :
    (m : Merger) (v : Text) (merged : Result (List MergedItem)) (r : RepoCache)
    → (record_merged m v merged r).1.cache.layers ≡ r.cache.layers
unfolding record_merged update_merged_items save
record_merged-layers m v (err e) r = refl
record_merged-layers m v (ok items) r =
    ap (λ s. s.cache.layers) (finish_merge-same m (update_merged_items v items r))

pub merge_modules-layers :
    (m : Merger) (v : Text) (r : RepoCache) → (merge_modules m v r).1.cache.layers ≡ r.cache.layers
unfolding merge_modules
merge_modules-layers m v r =
    record_merged-layers m v (merge_groups m (old_items r.cache) (existing_groups r.cache)) r

-- The cache after a merging that gave these records.
abbrev with_merged : List MergedItem → RepoCache → RepositoryCache
with_merged items r = record (r.cache) { merged = some items }

update_merged_items-ok :
    (v : Text) (items : List MergedItem) (r : RepoCache)
    → (update_merged_items v items r).0 ≡ ok tt
    → (update_merged_items v items r).1.disk.file ≡ some (written r.disk (with_merged items r))
unfolding update_merged_items save
update_merged_items-ok v items r h = elim (write_to_disk_atomic v (with_merged items r) r.disk) [
  | inl (_, file) ↦ file
  | inr (e, failed, _, _, _) ↦ cc (failed, h)
]

record_merged-ok :
    (m : Merger) (v : Text) (merged : Result (List MergedItem)) (r : RepoCache)
    → (record_merged m v merged r).0 ≡ ok tt
    → (items : List MergedItem) × (merged ≡ ok items)
      × ((record_merged m v merged r).1.cache ≡ with_merged items r)
      × ((record_merged m v merged r).1.disk.file ≡ some (written r.disk (with_merged items r)))
unfolding record_merged update_merged_items save
record_merged-ok m v (err e) r h = cc h
record_merged-ok m v (ok items) r h =
    let (done, same) = finish_merge-eq-ok m (update_merged_items v items r) h in
    (
      items,
      refl,
      ap (λ s. s.cache) same,
      ap (λ s. s.disk.file) same ∙ update_merged_items-ok v items r done,
    )

-- The groups that are wanted, each sorted by the names of its modules.
abbrev pub wanted_groups : Groups → List (List LayersItem)
wanted_groups groups = keep is_wanted (map (λ group. sort_modules group.1) groups)

keep-wanted : (groups : List (List LayersItem)) → keep is_mergeable groups ≡ keep is_wanted groups
unfolding keep
keep-wanted [] = refl
keep-wanted (layers ∷ rest) = elim (Bool-cases (is_wanted layers)) [
  | inl e ↦ rw (is_mergeable-wanted layers ∙ e, e, keep) (ap (λ l. layers ∷ l) (keep-wanted rest))
  | inr e ↦ rw (is_mergeable-wanted layers ∙ e, e, keep) (keep-wanted rest)
]

-- The layers of the cache that are not marked as deleted.
abbrev pub existing : RepositoryCache → List LayersItem
existing c = keep (λ l. not (is_deleted l)) c.layers

-- The records of the wanted groups, in the order of the groups.
abbrev pub AreRecords : Merger → Groups → List MergedItem → Type 0
AreRecords m groups items =
    (map (λ item. item.commits) items ≡ map commits_of (wanted_groups groups))
    × (map (λ item. item.id) items
        ≡ map (λ layers. m.hash (commits_of layers)) (wanted_groups groups))

-- When `mergeModules` succeeds, the layers of the cache are the same, and the cache and its file
-- hold one record for each group that is wanted, in the order of the groups. The groups are those
-- of the layers that are not marked as deleted, by id, version and architecture, with ascending
-- labels; one is wanted if it has more than one layer and its last module `binary`, by the names of
-- the modules, has a commit. The commits of a record are those of the layers of its group by the
-- names of their modules, and its id is the hash of the commits, whatever was merged before.
pub merge_modules_records :
    (m : Merger) (v : Text) (r : RepoCache)
    → (merge_modules m v r).0 ≡ ok tt
    → (groups : Groups) × (items : List MergedItem) × IsGrouping (existing r.cache) groups
      × AreRecords m groups items
      × ((merge_modules m v r).1.cache ≡ record (r.cache) { merged = some items })
      × ((merge_modules m v r).1.disk.file
          ≡ some (written r.disk (record (r.cache) { merged = some items })))
unfolding merge_modules existing_groups query_existing_layer_item
merge_modules_records m v r h =
    let old = old_items r.cache in
    let groups = existing_groups r.cache in
    let (items, merged, cache, file) = record_merged-ok m v (merge_groups m old groups) r h in
    let (commits, ids) = merge_groups_for m old groups merged in
    let same = keep-wanted (map (λ group. sort_modules group.1) groups) in
    (
      groups,
      items,
      group_layers-IsGrouping (existing r.cache),
      (commits ∙ ap (map commits_of) same, ids ∙ ap (map (λ l. m.hash (commits_of l))) same),
      cache,
      file,
    )
