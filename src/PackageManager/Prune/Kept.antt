-- ===== src/PackageManager/Prune/Kept.antt =====
-- What the removing loops of `Prune` leave, and what they are called on.
use mathlib.Core.List.{Mem}
use linglong.Prelude.{
  ◌≡◌, sym, ◌∙◌, inl, inr, true, Bool-cases, Option, none, List, [], ◌∷◌, ◌++◌, All, arith,
}
use linglong.Prelude.Members.{mem-erase_first_of}
use linglong.Prelude.Text.{Text, text_eq_iff}
use linglong.Prelude.Result.{Result, ok, Result-cases}
use linglong.Api.{LayersItem, PackageInfoV2, RepositoryCache}
use linglong.Package.Qt.{Qt}
use linglong.Package.Version
use linglong.Package.Reference.{Reference}
use linglong.Repo.Cache.{RepoCache, matches, selects, accepts}
use linglong.Repo.Layers.{Ostree, exactly, get_layer_item, get_module_list, remove}
use linglong.Repo.Layers.Marks.{get_layer_item-IsOnly, remove_cases}
use linglong.PackageManager.Prune.{layer_info, prune_modules, prune_refs}

module _ (qt : Qt) where
  -- The layer has the id, the channel and the version of the reference.
  pub record IsOf (ref : Reference) (l : LayersItem) : Type 0 where
    pub id : l.info.id ≡ ref.id
    pub channel : l.info.channel ≡ ref.channel
    pub version : l.info.version ≡ Version.to_string qt ref.version

  exactly-IsOf :
      (ref : Reference) (name : Text) (sub_ref : Option Text) (l : LayersItem)
      → selects (exactly qt ref name sub_ref) l ≡ true
      → IsOf ref l
  unfolding selects exactly accepts
  exactly-IsOf ref name sub_ref l h = record {
    id = sym ((text_eq_iff ref.id l.info.id).0 (ground arith));
    channel = sym ((text_eq_iff ref.channel l.info.channel).0 (ground arith));
    version =
        sym ((text_eq_iff (Version.to_string qt ref.version) l.info.version).0 (ground arith));
  }

  pub get_layer_item-IsOf :
      (c : RepositoryCache) (ref : Reference) (name : Text) (sub_ref : Option Text)
      (item : LayersItem)
      → get_layer_item qt c ref name sub_ref ≡ ok item
      → IsOf ref item
  get_layer_item-IsOf c ref name sub_ref item h =
      elim (get_layer_item-IsOnly qt c ref name sub_ref item h) [
        | inl (_, _, s) ↦ exactly-IsOf ref _ sub_ref item s
        | inr (_, _, (_, _, s)) ↦ exactly-IsOf ref _ sub_ref item s
      ]

  pub matches-IsOf :
      (ref : Reference) (item l : LayersItem) → matches item l ≡ true → IsOf ref item → IsOf ref l
  unfolding matches
  matches-IsOf ref item l h k = record {
    id = sym ((text_eq_iff item.info.id l.info.id).0 (ground arith)) ∙ k.id;
    channel = sym ((text_eq_iff item.info.channel l.info.channel).0 (ground arith)) ∙ k.channel;
    version = sym ((text_eq_iff item.info.version l.info.version).0 (ground arith)) ∙ k.version;
  }

module _ (qt : Qt) (v : Text) (ostree : Reference → Text → Ostree)
    (read_info : LayersItem → Result PackageInfoV2) (l : LayersItem) where
  pub remove-mem :
      (o : Ostree) (ref : Reference) (name : Text) (r : RepoCache)
      → ¬ (IsOf qt ref l)
      → Mem l r.cache.layers
      → Mem l (remove qt v o ref name none r).1.cache.layers
  remove-mem o ref name r other m = elim (remove_cases qt v ref name none o r) [
    | inr (e, same) ↦ rw same m
    | inl (item, found, _, _, saved) ↦ elim (Bool-cases (matches item l)) [
      | inl same ↦ absurd (
          other (
            matches-IsOf qt ref item l same
              (get_layer_item-IsOf qt r.cache ref name none item found)))
      | inr apart ↦ rw (saved.0) (mem-erase_first_of (matches item) l r.cache.layers m apart)
    ]
  ]

  prune_modules-mem :
      (ref : Reference) (names : List Text) (r : RepoCache) (removed : List PackageInfoV2)
      → ¬ (IsOf qt ref l)
      → Mem l r.cache.layers
      → Mem l (prune_modules qt v ostree read_info ref names (r, removed)).1.cache.layers
  unfolding prune_modules
  prune_modules-mem ref [] r removed other m = m
  prune_modules-mem ref (name ∷ rest) r removed other m =
      elim (Result-cases (layer_info qt v ostree read_info ref name r)) [
        | inr (e, bad) ↦ rw (bad, prune_modules) (prune_modules-mem ref rest r removed other m)
        | inl (info, there) ↦
            let kept = remove-mem (ostree ref name) ref name r other m in
            elim (Result-cases (remove qt v (ostree ref name) ref name none r).0) [
              | inr (e, bad) ↦ rw (there, bad, prune_modules) kept
              | inl (_, fine) ↦
                  rw (there, fine, prune_modules)
                    (prune_modules-mem ref rest _ (removed ++ (info ∷ [])) other kept)
            ]
      ]

  -- A layer of the cache stays there unless it has the id, the channel and the version of one of
  -- the references that are removed, however the removals end.
  pub prune_refs-keeps :
      (refs : List Reference) (r : RepoCache) (removed : List PackageInfoV2)
      → All (λ ref. ¬ (IsOf qt ref l)) refs
      → Mem l r.cache.layers
      → Mem l (prune_refs qt v ostree read_info refs (r, removed)).1.cache.layers
  unfolding prune_refs
  prune_refs-keeps [] r removed others m = m
  prune_refs-keeps (ref ∷ rest) r removed others m =
      let names = get_module_list qt r.cache ref in
      let done = prune_modules qt v ostree read_info ref names (r, removed) in
      let kept = prune_modules-mem ref names r removed others.0 m in
      elim (Result-cases done.0) [
        | inr (e, bad) ↦ rw (bad, prune_refs) kept
        | inl (_, fine) ↦ rw (fine, prune_refs) (prune_refs-keeps rest done.1 done.2 others.1 kept)
      ]
