-- ===== src/Repo/Cache/Changes.antt =====
-- What the operations that change the cache do to it and to its file.
use linglong.Prelude.{
  ◌&&◌, ◌≡◌, ◌≢◌, refl, ap, ◌∙◌, ◌⊎◌, inl, inr, Bool, true, false, none, some, Option-cases,
  Bool-cases, List, [], ◌∷◌, ◌++◌, String, find_first, erase_first, All, All-append,
  find_first-none, find_first-append, erase_first-append, erase_first-All,
}
use linglong.Prelude.Text.{Text, text_eq_refl}
use linglong.Prelude.Result.{Result, ok, err}
use linglong.Api.{LayersItem, RepositoryCache}
use linglong.Repo.Cache.{
  Disk, written, RepoCache, matches, find_matching_item, write_to_disk, save, add_layer_item,
  delete_layer_item,
}

pub matches_refl : (item : LayersItem) → matches item item ≡ true
unfolding matches
matches_refl item = simp text_eq_refl

-- The directory is there, and the temporary file can be opened and renamed.
abbrev pub can_write : Disk → Bool
can_write d = d.parent_exists && d.can_open_temp && d.can_rename

-- A write succeeds and the file holds what was stored of the JSON of the cache, or it fails and the
-- file holds what it held, which is only where the calls fail.
abbrev pub Written : RepositoryCache → Disk → Result (Unit {0}) × Disk → Type 0
Written c d p =
    ((p.0 ≡ ok tt) × (p.1.file ≡ some (written d c)))
    ⊎ ((e : String) × (p.0 ≡ err e)
        × (p.1.file ≡ d.file)
        × (p.1.tag ≡ d.tag)
        × (can_write d ≡ false))

-- Writing succeeds and `states.json` holds what was stored of the JSON of the cache in the temporary
-- file, also where the stream stored less than all of it; or it fails and `states.json` and
-- `.version` hold what they held. It fails only if the directory is not there, or the temporary file
-- cannot be opened or renamed.
pub write_to_disk_atomic :
    (v : Text) (c : RepositoryCache) (d : Disk) → Written c d (write_to_disk v c d)
unfolding write_to_disk
write_to_disk_atomic v c d = elim (Bool-cases d.parent_exists) [
  | inr e ↦ rw (e, write_to_disk) (inr (_, refl, refl, refl, refl))
  | inl e ↦ elim (Bool-cases d.can_open_temp) [
    | inr f ↦ rw (e, f, write_to_disk) (inr (_, refl, refl, refl, refl))
    | inl f ↦ elim (Bool-cases d.can_rename) [
      | inr g ↦ rw (e, f, g, write_to_disk) (inr (_, refl, refl, refl, refl))
      | inl g ↦ rw (e, f, g, write_to_disk) (inl (refl, refl))
    ]
  ]
]

find_cases :
    (c : RepositoryCache) (item : LayersItem)
    → ((find_first (matches item) c.layers ≡ none)
        × (find_matching_item c item ≡ err "item doesn't exist"))
      ⊎ ((it : LayersItem) × (find_first (matches item) c.layers ≡ some it)
          × (find_matching_item c item ≡ ok it))
unfolding find_matching_item
find_cases c item = elim (Option-cases (find_first (matches item) c.layers)) [
  | inl e ↦ inl (e, rw (e, find_matching_item))
  | inr (it, e) ↦ inr (it, e, rw (e, find_matching_item))
]

-- The layers in memory, and whether the file holds them.
abbrev pub Saved : List LayersItem → RepoCache → Result (Unit {0}) × RepoCache → Type 0
Saved layers r p =
    (p.1.cache.layers ≡ layers)
    × (p.1.cache.merged ≡ r.cache.merged)
    × (((p.0 ≡ ok tt) × (p.1.disk.file ≡ some (written r.disk p.1.cache)))
        ⊎ ((e : String) × (p.0 ≡ err e)
            × (p.1.disk.file ≡ r.disk.file)
            × (can_write r.disk ≡ false)))

save-Saved :
    (v : Text) (layers : List LayersItem) (r : RepoCache)
    → Saved layers r (save v (record (r.cache) { layers = layers }) r)
unfolding save
save-Saved v layers r =
    elim (write_to_disk_atomic v (record (r.cache) { layers = layers }) r.disk) [
      | inl (done, file) ↦ (refl, refl, inl (done, file))
      | inr (e, failed, file, _, cannot) ↦ (refl, refl, inr (e, failed, file, cannot))
    ]

-- A layer that is there already is refused and nothing changes. Any other is in memory afterwards,
-- behind the layers that were there, and the file holds what was stored of the JSON of that if the
-- writing succeeds. If it fails, which is only where the calls of the file system fail, the layer
-- stays in memory.
pub add_layer_item_cases :
    (v : Text) (item : LayersItem) (r : RepoCache)
    → ((find_first (matches item) r.cache.layers ≢ none)
        × (add_layer_item v item r ≡ (err "item already exist", r)))
      ⊎ ((find_first (matches item) r.cache.layers ≡ none)
          × Saved (r.cache.layers ++ (item ∷ [])) r (add_layer_item v item r))
unfolding add_layer_item
add_layer_item_cases v item r = elim (find_cases r.cache item) [
  | inl (e, e') ↦ inr (e, rw (e', add_layer_item) (save-Saved v (r.cache.layers ++ (item ∷ [])) r))
  | inr (it, e, e') ↦ inl (λ n. cc (e, n), rw (e', add_layer_item))
]

-- A layer that is not there cannot be deleted and nothing changes. Otherwise the first that
-- matches is erased in memory, and in the file too if the writing succeeds.
pub delete_layer_item_cases :
    (v : Text) (item : LayersItem) (r : RepoCache)
    → ((find_first (matches item) r.cache.layers ≡ none)
        × (delete_layer_item v item r ≡ (err "item doesn't exist", r)))
      ⊎ ((find_first (matches item) r.cache.layers ≢ none)
          × Saved (erase_first (matches item) r.cache.layers) r (delete_layer_item v item r))
unfolding delete_layer_item
delete_layer_item_cases v item r = elim (find_cases r.cache item) [
  | inl (e, e') ↦ inl (e, rw (e', delete_layer_item))
  | inr (it, e, e') ↦ inr (
    λ n. cc (e, n),
    rw (e', delete_layer_item) (save-Saved v (erase_first (matches item) r.cache.layers) r),
  )
]

layers-add :
    (v : Text) (item : LayersItem) (r : RepoCache)
    → find_first (matches item) r.cache.layers ≡ none
    → (add_layer_item v item r).1.cache.layers ≡ r.cache.layers ++ (item ∷ [])
layers-add v item r h = elim (add_layer_item_cases v item r) [
  | inl (there, _) ↦ absurd (there h)
  | inr (_, saved) ↦ saved.0
]

-- Deleting a layer that was added where none matched gives the layers in memory back, whether or
-- not the writes succeed.
delete-add_layer_item :
    (v : Text) (item : LayersItem) (r : RepoCache)
    → find_first (matches item) r.cache.layers ≡ none
    → (delete_layer_item v item (add_layer_item v item r).1).1.cache.layers ≡ r.cache.layers
delete-add_layer_item v item r h =
    let r₁ = (add_layer_item v item r).1 in
    let added : r₁.cache.layers ≡ r.cache.layers ++ (item ∷ []) = layers-add v item r h in
    let there = find_first-append (matches item) r.cache.layers item h (matches_refl item) in
    elim (delete_layer_item_cases v item r₁) [
      | inl (gone, _) ↦ cc (gone, ap (find_first (matches item)) added, there)
      | inr (_, saved) ↦
          saved.0
          ∙ ap (erase_first (matches item)) added
          ∙ erase_first-append (matches item) r.cache.layers item h (matches_refl item)
    ]

-- No two layers of a cache match.
abbrev pub AreDistinct : List LayersItem → Type 0
AreDistinct [] = Unit
AreDistinct (x ∷ xs) = All (λ y. matches y x ≡ false) xs × AreDistinct xs

AreDistinct-append :
    (xs : List LayersItem) (item : LayersItem)
    → AreDistinct xs
    → All (λ x. matches item x ≡ false) xs
    → AreDistinct (xs ++ (item ∷ []))
AreDistinct-append [] item d h = (tt, tt)
AreDistinct-append (x ∷ xs) item d h = (
  All-append (λ y. matches y x ≡ false) xs (item ∷ []) d.0 (h.0, tt),
  AreDistinct-append xs item d.1 h.1,
)

pub AreDistinct-erase_first :
    (p : LayersItem → Bool) (xs : List LayersItem) → AreDistinct xs → AreDistinct (erase_first p xs)
unfolding erase_first
AreDistinct-erase_first p [] d = tt
AreDistinct-erase_first p (x ∷ xs) d = elim (Bool-cases (p x)) [
  | inl e ↦ rw (e, erase_first) d.1
  | inr e ↦
      rw (e, erase_first)
        (erase_first-All (λ y. matches y x ≡ false) p xs d.0, AreDistinct-erase_first p xs d.1)
]

add-AreDistinct :
    (v : Text) (item : LayersItem) (r : RepoCache)
    → AreDistinct r.cache.layers
    → AreDistinct (add_layer_item v item r).1.cache.layers
add-AreDistinct v item r d = elim (add_layer_item_cases v item r) [
  | inl (_, same) ↦ rw same d
  | inr (free, saved) ↦ rw (saved.0) (
      AreDistinct-append r.cache.layers item d (find_first-none (matches item) r.cache.layers free))
]

delete-AreDistinct :
    (v : Text) (item : LayersItem) (r : RepoCache)
    → AreDistinct r.cache.layers
    → AreDistinct (delete_layer_item v item r).1.cache.layers
delete-AreDistinct v item r d = elim (delete_layer_item_cases v item r) [
  | inl (_, same) ↦ rw same d
  | inr (_, saved) ↦ rw (saved.0) (AreDistinct-erase_first (matches item) r.cache.layers d)
]

-- Adding and deleting layers keeps the layers of a cache distinct, also where the writing fails.
pub AreDistinct-kept :
    (v : Text) (item : LayersItem) (r : RepoCache)
    → AreDistinct r.cache.layers
    → AreDistinct (add_layer_item v item r).1.cache.layers
      × AreDistinct (delete_layer_item v item r).1.cache.layers
AreDistinct-kept v item r d = (add-AreDistinct v item r d, delete-AreDistinct v item r d)
