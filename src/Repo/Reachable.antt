-- ===== src/Repo/Reachable.antt =====
-- The states that the operations of the repository lead to, as a step relation.
use linglong.Prelude.{◌≡◌, ◌⊎◌, Bool, Option, some, List, []}
use linglong.Prelude.Text.{Text}
use linglong.Prelude.Result.{Result, ok, err}
use linglong.Repo.Cache.Rebuild.{Source, Versions, layers_of_refs, rebuild_cache}
use linglong.Api.{RepoConfig, LayersItem}
use linglong.Package.Qt.{Qt}
use linglong.Package.Reference.{Reference}
use linglong.Repo.Cache.{RepoCache, written, add_layer_item, delete_layer_item}
use linglong.Repo.Cache.Changes.{AreDistinct}
use linglong.Repo.Layers.{Ostree, mark_deleted, remove}
use linglong.Repo.Merge.{Merger, merge_modules}

-- The layers of the references that OSTree lists.
abbrev pub listed : Source → List LayersItem
listed o = elim o.list_refs [ err e ↦ [] | ok refs ↦ layers_of_refs o refs ]

module _ (qt : Qt) (v : Text) where
  infix 40 ◌⟶◌ ◌⟶*◌
  -- One operation, whatever the outside answers.
  pub data ◌⟶◌ : RepoCache → RepoCache → Type 0 where
    add : {r : RepoCache} (item : LayersItem) → r ⟶ (add_layer_item v item r).1
    delete : {r : RepoCache} (item : LayersItem) → r ⟶ (delete_layer_item v item r).1
    mark :
        {r : RepoCache} (ref : Reference) (flag : Bool) (name : Text) (sub_ref : Option Text)
        → r ⟶ (mark_deleted qt v ref flag name sub_ref r).1
    take :
        {r : RepoCache} (o : Ostree) (ref : Reference) (name : Text) (sub_ref : Option Text)
        → r ⟶ (remove qt v o ref name sub_ref r).1
    merge : {r : RepoCache} (m : Merger) → r ⟶ (merge_modules m v r).1
    rebuild :
        {r : RepoCache} (o : Source) (versions : Versions) (config : RepoConfig)
        → AreDistinct (listed o)
        → r ⟶ (rebuild_cache o versions config r).1

  -- Any number of operations.
  pub data ◌⟶*◌ : RepoCache → RepoCache → Type 0 where
    here : {r : RepoCache} → r ⟶* r
    after : {r s t : RepoCache} → r ⟶* s → s ⟶ t → r ⟶* t

-- The file is the same, or it holds what was stored of the JSON of what is in memory.
abbrev Written : RepoCache → RepoCache → Type 0
Written r s = (s.disk.file ≡ r.disk.file) ⊎ (s.disk.file ≡ some (written r.disk s.cache))

module _ (qt : Qt) (v : Text) where
  -- The file is that of the start, or it holds what a writing since then stored of the JSON of what
  -- was in memory at its time.
  abbrev pub IsRecent : RepoCache → RepoCache → Type 0
  IsRecent r s =
      (s.disk.file ≡ r.disk.file)
      ⊎ ((before now : RepoCache) × ◌⟶*◌ qt v r before
          × ◌⟶◌ qt v before now
          × (s.disk.file ≡ some (written before.disk now.cache)))
