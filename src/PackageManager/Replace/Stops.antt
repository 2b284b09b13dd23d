-- ===== src/PackageManager/Replace/Stops.antt =====
-- What `removeAfterInstall` does to an old version of several modules.
use linglong.Prelude.{
  ℕ, suc, length, ◌≡◌, refl, ap, ◌∙◌, inl, inr, true, false, Bool-cases, none, List, [], ◌∷◌,
  String, keep, erase_first, arith, keep-erase_first, keep-erase_none,
}
use linglong.Prelude.Text.{Text, codes, text_eq, text_eq_iff, text_lt}
use linglong.Prelude.Result.{ok, err, Result-cases}
use linglong.Api.{LayersItem, RepositoryCache}
use linglong.Utils.Transaction.{Transaction, start, add_roll_back}
use linglong.Package.Qt.{Qt}
use linglong.Package.Reference.{Reference}
use linglong.Repo.Cache.{
  RepoCache, matches, accepts, accepts_flag, accepts_option, selects, insert_layer, sort_layers,
  query_layer_item,
}
use linglong.Repo.Cache.Changes.{matches_refl}
use linglong.Repo.Layers.{Ostree, exactly, only_layer, current_name, get_layer_item, remove}
use linglong.Repo.Layers.Marks.{get_layer_item-IsOnly, remove_cases}
use linglong.Task.{Double}
use linglong.PackageManager.World.{
  Env, World, is_ref_busy, remove_module, undo_remove, with_repo, export_reference,
  unexport_reference,
}
use linglong.PackageManager.Replace.{remove_modules, remove_after_install}

insert_layer-some :
    (x : LayersItem) (xs : List LayersItem)
    → (y : LayersItem) × (ys : List LayersItem) × (insert_layer x xs ≡ y ∷ ys)
unfolding insert_layer
insert_layer-some x [] = (x, [], refl)
insert_layer-some x (y ∷ ys) = elim (Bool-cases (text_lt x.info.version y.info.version)) [
  | inl e ↦ (y, insert_layer x ys, rw (e, insert_layer))
  | inr e ↦ (x, y ∷ ys, rw (e, insert_layer))
]

pub length-insert_layer :
    (x : LayersItem) (xs : List LayersItem) → length (insert_layer x xs) ≡ suc (length xs)
unfolding insert_layer
length-insert_layer x [] = refl
length-insert_layer x (y ∷ ys) = elim (Bool-cases (text_lt x.info.version y.info.version)) [
  | inl e ↦ rw (e, insert_layer) (ap suc (length-insert_layer x ys))
  | inr e ↦ rw (e, insert_layer)
]

not_one : (n : ℕ) → ¬ (suc (suc n) ≡ 1)
not_one n h = omega (arith, h)

sort_layers-none : (xs : List LayersItem) → sort_layers xs ≡ [] → xs ≡ []
unfolding sort_layers
sort_layers-none [] h = refl
sort_layers-none (x ∷ xs) h = let (y, ys, e) = insert_layer-some x (sort_layers xs) in cc (e, h)

sort_layers-one :
    (xs : List LayersItem) (item : LayersItem) → sort_layers xs ≡ item ∷ [] → xs ≡ item ∷ []
unfolding sort_layers
sort_layers-one [] item h = cc h
sort_layers-one (x ∷ []) item h = h
sort_layers-one (x ∷ y ∷ ys) item h =
    let count = length-insert_layer x (sort_layers (y ∷ ys)) in
    let more = length-insert_layer y (sort_layers ys) in
    let one : length (sort_layers (x ∷ y ∷ ys)) ≡ 1 = ap length h in
    absurd (not_one (length (sort_layers ys)) (omega (arith, count, more, one)))

module _ (qt : Qt) where
  pub selects-matches :
      (ref : Reference) (name : Text) (item x : LayersItem)
      → selects (exactly qt ref name none) item ≡ true
      → matches item x ≡ true
      → selects (exactly qt ref name none) x ≡ true
  unfolding selects exactly matches accepts accepts_flag accepts_option
  selects-matches ref name item x h m =
      let id = (text_eq_iff item.info.id x.info.id).0 (ground arith) in
      let channel = (text_eq_iff item.info.channel x.info.channel).0 (ground arith) in
      let version = (text_eq_iff item.info.version x.info.version).0 (ground arith) in
      let module_name =
        (text_eq_iff item.info.package_info_v2_module x.info.package_info_v2_module).0
          (ground arith) in
      rw⁻¹ (id, channel, version, module_name) h

  -- After the only main layer was erased the queries for both names of the main module find nothing.
  erased-none :
      (c c' : RepositoryCache) (ref : Reference) (item : LayersItem)
      → query_layer_item c (exactly qt ref (codes "binary") none) ≡ item ∷ []
      → selects (exactly qt ref (codes "binary") none) item ≡ true
      → query_layer_item c (exactly qt ref (codes "runtime") none) ≡ []
      → c'.layers ≡ erase_first (matches item) c.layers
      → (query_layer_item c' (exactly qt ref (codes "binary") none) ≡ [])
        × (query_layer_item c' (exactly qt ref (codes "runtime") none) ≡ [])
  unfolding query_layer_item
  erased-none c c' ref item only selected other erased =
      let p = selects (exactly qt ref (codes "binary") none) in
      let p' = selects (exactly qt ref (codes "runtime") none) in
      let rest : keep p (erase_first (matches item) c.layers) ≡ [] =
        keep-erase_first p (matches item) c.layers
          (λ x m. selects-matches ref (codes "binary") item x selected m)
        ∙ ap (erase_first (matches item)) (sort_layers-one (keep p c.layers) item only)
        ∙ unfold erase_first in rw (matches_refl item) refl in
      let rest' =
        keep-erase_none p' (matches item) c.layers (sort_layers-none (keep p' c.layers) other) in
      (rw (erased, rest) refl, rw (erased, rest') refl)

  get_layer_item-none :
      (c : RepositoryCache) (ref : Reference)
      → query_layer_item c (exactly qt ref (codes "binary") none) ≡ []
      → query_layer_item c (exactly qt ref (codes "runtime") none) ≡ []
      → get_layer_item qt c ref (codes "binary") none ≡ err "fallback to runtime still not found"
  unfolding get_layer_item only_layer current_name text_eq
  get_layer_item-none c ref h k = rw (h, k, get_layer_item) refl

  binary-only :
      (c : RepositoryCache) (ref : Reference) (item : LayersItem)
      → query_layer_item c (exactly qt ref (codes "runtime") none) ≡ []
      → get_layer_item qt c ref (codes "binary") none ≡ ok item
      → (query_layer_item c (exactly qt ref (codes "binary") none) ≡ item ∷ [])
        × (selects (exactly qt ref (codes "binary") none) item ≡ true)
  unfolding current_name text_eq
  binary-only c ref item other found =
      elim (get_layer_item-IsOnly qt c ref (codes "binary") none item found) [
        | inl (only, _, selected) ↦ (only, selected)
        | inr (_, _, (only, _, _)) ↦ cc (only, other)
      ]

  -- The main module cannot be removed twice if no layer has its old name.
  remove_twice :
      (v : Text) (o : Ostree) (ref : Reference) (r : RepoCache)
      → query_layer_item r.cache (exactly qt ref (codes "runtime") none) ≡ []
      → (remove qt v o ref (codes "binary") none r).0 ≡ ok tt
      → get_layer_item qt
          (remove qt v o ref (codes "binary") none r).1.cache
          ref
          (codes "binary")
          none
        ≡ err "fallback to runtime still not found"
  remove_twice v o ref r other done = elim (remove_cases qt v ref (codes "binary") none o r) [
    | inr (e, failed) ↦ cc (ap (λ p. p.0) failed, done)
    | inl (item, found, _, _, saved) ↦
        let (only, selected) = binary-only r.cache ref item other found in
        let c' = (remove qt v o ref (codes "binary") none r).1.cache in
        let (gone, gone') = erased-none r.cache c' ref item only selected other saved.0 in
        get_layer_item-none c' ref gone gone'
  ]

module _ {d : Double} (env : Env) (old new : Reference) where
  remove_modules-fails :
      (name : Text) (rest : List Text) (tx : Transaction (World d)) (w : World d) (e : String)
      → get_layer_item env.qt w.repo.cache old (codes "binary") none ≡ err e
      → (remove_modules env old new (name ∷ rest) tx w).0 ≡ err "Failed to remove old reference"
  unfolding remove_modules remove_module remove
  remove_modules-fails name rest tx w e none_left = rw (none_left, remove_modules) refl

  remove_modules-stops :
      (first second : Text) (rest : List Text) (tx : Transaction (World d)) (w : World d)
      → query_layer_item w.repo.cache (exactly env.qt old (codes "runtime") none) ≡ []
      → (remove_modules env old new (first ∷ second ∷ rest) tx w).0
        ≡ err "Failed to remove old reference"
  unfolding remove_modules remove_module with_repo
  remove_modules-stops first second rest tx w other =
      let o = env.ostree old (codes "binary") in
      let p = remove env.qt env.ll_version o old (codes "binary") none w.repo in
      elim (Result-cases p.0) [
        | inr (e, failed) ↦ rw (failed, remove_modules) refl
        | inl (tt, done) ↦
            rw (done, remove_modules)
              (remove_modules-fails second rest (add_roll_back tx (undo_remove env old first))
                (with_repo p.1 w) "fallback to runtime still not found"
                (remove_twice env.qt env.ll_version o old w.repo other done))
      ]

  -- After the installation of a new version the removal of the old one fails whenever the old one
  -- has two modules or more, does not run, and no layer has its old module name `runtime`: each
  -- round of the loop removes the module `binary`, which the second does not find.
  pub remove_after_install_stops :
      (first second : Text) (rest : List Text) (w : World d)
      → is_ref_busy env old ≡ ok false
      → query_layer_item w.repo.cache (exactly env.qt old (codes "runtime") none) ≡ []
      → (remove_after_install env old new (first ∷ second ∷ rest) w).0
        ≡ err "Failed to remove old reference"
  unfolding remove_after_install unexport_reference
  remove_after_install_stops first second rest w idle other =
      rw (idle, remove_after_install)
        (remove_modules-stops first second rest (add_roll_back start (export_reference old))
          (unexport_reference old w) other)
