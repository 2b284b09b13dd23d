-- ===== src/PackageManager/Uninstall/Shrinks.antt =====
-- What the removal of a module leaves in the cache, counted by the layers of its reference.
use mathlib.Core.List.{Mem}
use linglong.Prelude.{
  suc, ◌+◌, ◌≡◌, refl, ap, ◌∙◌, inl, inr, true, not, Bool-cases, none, some, List, [], ◌∷◌, length,
  keep, erase_first, keep-erase_outside, length-erase_first, length-keep, length-none, length-map,
  arith,
}
use linglong.Prelude.Text.{Text, text_lt}
use linglong.Prelude.Result.{ok}
use linglong.Api.{LayersItem}
use linglong.Package.Qt.{Qt}
use linglong.Package.Version
use linglong.Package.Reference.{Reference}
use linglong.Repo.Cache.{
  any, Query, RepoCache, matches, accepts, accepts_flag, accepts_option, selects, sort_layers,
  query_layer_item,
}
use linglong.Repo.Cache.Changes.{matches_refl}
use linglong.Repo.Layers.{Ostree, exactly, insert_module, sort_modules, get_module_list, remove}
use linglong.Repo.Layers.Marks.{get_layer_item-IsOnly, remove_cases}
use linglong.PackageManager.Replace.Stops.{length-insert_layer, selects-matches}

-- The query for all modules of a reference.
abbrev pub all_of : Qt → Reference → Query
all_of qt ref = record any {
  id = some ref.id;
  channel = some ref.channel;
  version = some (Version.to_string qt ref.version);
}

-- The layers of a reference, and the others.
abbrev pub own_layers : Qt → Reference → RepoCache → List LayersItem
own_layers qt ref r = keep (selects (all_of qt ref)) r.cache.layers

abbrev pub other_layers : Qt → Reference → RepoCache → List LayersItem
other_layers qt ref r = keep (λ l. not (selects (all_of qt ref) l)) r.cache.layers

module _ (qt : Qt) where
  pub exactly-all :
      (ref : Reference) (name : Text) (l : LayersItem)
      → selects (exactly qt ref name none) l ≡ true
      → selects (all_of qt ref) l ≡ true
  unfolding selects exactly accepts accepts_flag accepts_option
  exactly-all ref name l h = ground arith

  -- A module that was removed was one layer of the reference, and the others are the same.
  abbrev pub Shrinks : Reference → RepoCache → RepoCache → Type 0
  Shrinks ref r r' =
      (suc (length r'.cache.layers) ≡ length r.cache.layers)
      × (other_layers qt ref r' ≡ other_layers qt ref r)

  erase-Shrinks :
      (ref : Reference) (name : Text) (item : LayersItem) (r r' : RepoCache)
      → selects (exactly qt ref name none) item ≡ true
      → Mem item r.cache.layers
      → r'.cache.layers ≡ erase_first (matches item) r.cache.layers
      → Shrinks ref r r'
  erase-Shrinks ref name item r r' selected there erased =
      let outside = λ (x : LayersItem) (m : matches item x ≡ true).
        let own = exactly-all ref name x (selects-matches qt ref name item x selected m) in
        ap not own in
      (
        ap (λ l. suc (length l)) erased
            ∙ length-erase_first (matches item) item r.cache.layers there (matches_refl item),
        ap (keep (λ l. not (selects (all_of qt ref) l))) erased
            ∙ keep-erase_outside (λ l. not (selects (all_of qt ref) l)) (matches item)
                r.cache.layers outside,
      )

  pub remove-Shrinks :
      (v : Text) (o : Ostree) (ref : Reference) (name : Text) (r : RepoCache)
      → (remove qt v o ref name none r).0 ≡ ok tt
      → Shrinks ref r (remove qt v o ref name none r).1
  remove-Shrinks v o ref name r done =
      let r' = (remove qt v o ref name none r).1 in
      elim (remove_cases qt v ref name none o r) [
        | inr (e, refused) ↦ cc (ap (λ p. p.0) refused, done)
        | inl (item, found, _, _, saved) ↦
            elim (get_layer_item-IsOnly qt r.cache ref name none item found) [
              | inl (_, there, selected) ↦ erase-Shrinks ref _ item r r' selected there saved.0
              | inr (_, _, (_, there, selected)) ↦
                  erase-Shrinks ref _ item r r' selected there saved.0
            ]
      ]

length-sort_layers : (xs : List LayersItem) → length (sort_layers xs) ≡ length xs
unfolding sort_layers
length-sort_layers [] = refl
length-sort_layers (x ∷ xs) =
    length-insert_layer x (sort_layers xs) ∙ ap suc (length-sort_layers xs)

length-insert_module :
    (x : LayersItem) (xs : List LayersItem) → length (insert_module x xs) ≡ suc (length xs)
unfolding insert_module
length-insert_module x [] = refl
length-insert_module x (y ∷ ys) =
    elim (Bool-cases (text_lt y.info.package_info_v2_module x.info.package_info_v2_module)) [
      | inl e ↦ rw (e, insert_module) (ap suc (length-insert_module x ys))
      | inr e ↦ rw (e, insert_module)
    ]

length-sort_modules : (xs : List LayersItem) → length (sort_modules xs) ≡ length xs
unfolding sort_modules
length-sort_modules [] = refl
length-sort_modules (x ∷ xs) =
    length-insert_module x (sort_modules xs) ∙ ap suc (length-sort_modules xs)

length-get_module_list :
    (qt : Qt) (ref : Reference) (r : RepoCache)
    → length (get_module_list qt r.cache ref) ≡ length (own_layers qt ref r)
unfolding get_module_list query_layer_item
length-get_module_list qt ref r =
    length-map _ (sort_modules (query_layer_item r.cache (all_of qt ref)))
    ∙ length-sort_modules (query_layer_item r.cache (all_of qt ref))
    ∙ length-sort_layers (own_layers qt ref r)

-- As many layers are gone as the reference had, and no other: it has none.
pub own_layers-none :
    (qt : Qt) (ref : Reference) (r r' : RepoCache)
    → length r'.cache.layers + length (get_module_list qt r.cache ref) ≡ length r.cache.layers
    → other_layers qt ref r' ≡ other_layers qt ref r
    → own_layers qt ref r' ≡ []
own_layers-none qt ref r r' count others =
    let before = length-keep (selects (all_of qt ref)) r.cache.layers in
    let after = length-keep (selects (all_of qt ref)) r'.cache.layers in
    let same : length (other_layers qt ref r') ≡ length (other_layers qt ref r) =
      ap length others in
    let names = length-get_module_list qt ref r in
    length-none (own_layers qt ref r') (omega (arith, count, before, after, same, names))
