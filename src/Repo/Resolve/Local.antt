-- ===== src/Repo/Resolve/Local.antt =====
-- What `clearReferenceLocal` chooses from the cache.
use mathlib.Core.List.{Mem, mem-cons_self, mem-cons_of_mem}
use mathlib.Core.Path.{subst}
use linglong.Prelude.{
  ◌≡◌, refl, sym, ap, ◌∙◌, ◌⊎◌, inl, inr, true, false, Bool-cases, Option, none, some, Option-cases,
  List, [], ◌∷◌, All, All-map, arith,
}
use linglong.Prelude.Members.{All-at}
use linglong.Prelude.Text.{Text, text_lt, text_lt_irrefl, text_eq_iff}
use linglong.Prelude.Result.{Result, ok, Result-cases}
use linglong.Api.{LayersItem, RepositoryCache}
use linglong.Package.Qt.{Qt}
use linglong.Package.Version
use linglong.Package.Version.{Version}
use linglong.Package.Architecture.{Architecture}
use linglong.Package.FuzzyReference.{FuzzyReference}
use linglong.Package.Reference
use linglong.Package.Reference.{Reference}
use linglong.Repo.Cache.{is_deleted, selects, query_layer_item, accepts}
use linglong.Repo.Cache.Sorted.{
  IsSorted, query_layer_item-IsSorted, mem-query_layer_item, mem-query_layer_item_of,
}
use linglong.Repo.Resolve.{
  drop_tweak, find_layer, layer_reference, check_arch, by_id, clear_reference_local,
}

-- A version that was asked for is that of the layer, whose tweak counts only if one was asked for.
abbrev pub Wanted : Option Version → Version → Type 0
Wanted none v = Unit
Wanted (some w) v = Version.eq (drop_tweak w v) w ≡ true

-- A layer that is installed and has the version that was asked for.
pub record Answers (qt : Qt) (want : Option Version) (layer : LayersItem) : Type 0 where
  pub present : is_deleted layer ≡ false
  pub version : Version
  pub parsed : Version.parse qt layer.info.version ≡ ok version
  pub wanted : Wanted want version

module _ (qt : Qt) where
  -- A layer that is not deleted ends the loop, or is passed over for its version.
  find_layer_cases :
      (want : Option Version) (layer found : LayersItem) (rest : List LayersItem)
      → find_layer qt want (layer ∷ rest) ≡ some (ok found)
      → ((layer ≡ found) × Answers qt want found) ⊎ (find_layer qt want rest ≡ some (ok found))
  unfolding find_layer
  find_layer_cases want layer found rest h = elim (Bool-cases (is_deleted layer)) [
    | inl gone ↦ inr (ground arith)
    | inr present ↦ elim (Result-cases (Version.parse qt layer.info.version)) [
      | inr (e, bad) ↦ ground arith
      | inl (v, parsed) ↦ elim (Option-cases want) [
        | inl none_wanted ↦
            let same : layer ≡ found = ground arith in
            inl (
              same,
              rw (← same) (record {
                present = present;
                version = v;
                parsed = parsed;
                wanted = rw none_wanted tt;
              }),
            )
        | inr (w, some_wanted) ↦ elim (Bool-cases (Version.eq (drop_tweak w v) w)) [
          | inl fits ↦
              let same : layer ≡ found = ground arith in
              inl (
                same,
                rw (← same) (record {
                  present = present;
                  version = v;
                  parsed = parsed;
                  wanted = rw some_wanted fits;
                }),
              )
          | inr other ↦ inr (ground arith)
        ]
      ]
    ]
  ]

  find_layer-nil :
      (want : Option Version) (found : LayersItem) → ¬ (find_layer qt want [] ≡ some (ok found))
  unfolding find_layer
  find_layer-nil want found h = cc h

  find_layer-Answers :
      (want : Option Version) (found : LayersItem) (layers : List LayersItem)
      → find_layer qt want layers ≡ some (ok found)
      → Mem found layers × Answers qt want found
  find_layer-Answers want found [] h = absurd (find_layer-nil want found h)
  find_layer-Answers want found (layer ∷ rest) h = elim (find_layer_cases want layer found rest h) [
    | inl (e, a) ↦ (rw e mem-cons_self, a)
    | inr later ↦
        let (m, a) = find_layer-Answers want found rest later in (mem-cons_of_mem layer m, a)
  ]

  -- Without a wanted version the loop ends at the first layer that is not deleted.
  find_layer_open :
      (layer found : LayersItem) (rest : List LayersItem)
      → find_layer qt none (layer ∷ rest) ≡ some (ok found)
      → (layer ≡ found) ⊎ ((is_deleted layer ≡ true) × (find_layer qt none rest ≡ some (ok found)))
  unfolding find_layer
  find_layer_open layer found rest h = elim (Bool-cases (is_deleted layer)) [
    | inl gone ↦ inr (gone, ground arith)
    | inr present ↦ elim (Result-cases (Version.parse qt layer.info.version)) [
      | inr (e, bad) ↦ ground arith
      | inl (v, parsed) ↦ inl (ground arith)
    ]
  ]

  -- Deleted, or not of a greater version text.
  abbrev pub NotAbove : LayersItem → LayersItem → Type 0
  NotAbove found y = is_deleted y ≡ false → text_lt found.info.version y.info.version ≡ false

  find_layer_greatest :
      (found : LayersItem) (layers : List LayersItem)
      → IsSorted layers
      → find_layer qt none layers ≡ some (ok found)
      → All (NotAbove found) layers
  find_layer_greatest found [] s h = tt
  find_layer_greatest found (layer ∷ rest) s h = elim (find_layer_open layer found rest h) [
    | inl same ↦ (
      λ _. rw same (text_lt_irrefl found.info.version),
      All-map (λ y k _. rw (← same) k) rest s.0,
    )
    | inr (gone, later) ↦ (λ there. cc (sym gone ∙ there), find_layer_greatest found rest s.1 later)
  ]

  -- What `clearReferenceLocal` returns, and the layer that it stands for.
  pub record Chosen (c : RepositoryCache) (fuzzy : FuzzyReference) (r : Reference) : Type 0 where
    pub layer : LayersItem
    pub stands : Mem layer c.layers
    pub id : layer.info.id ≡ fuzzy.id
    pub answers : Answers qt fuzzy.version layer
    pub same_id : r.id ≡ layer.info.id
    pub same_channel : r.channel ≡ layer.info.channel
    pub same_version : Version.parse qt layer.info.version ≡ ok r.version

  by_id-selects : (id : Text) (l : LayersItem) → selects (by_id id) l ≡ true → l.info.id ≡ id
  unfolding selects by_id accepts
  by_id-selects id l h = sym ((text_eq_iff id l.info.id).0 (ground arith))

  local_found :
      (host : Result Architecture) (c : RepositoryCache) (fuzzy : FuzzyReference) (r : Reference)
      → clear_reference_local qt host c fuzzy ≡ some (ok r)
      → (found : LayersItem) × (find_layer qt fuzzy.version (query_layer_item c (by_id fuzzy.id))
          ≡ some (ok found))
        × (layer_reference qt found ≡ some (ok r))
  unfolding clear_reference_local
  local_found host c fuzzy r h = elim (Result-cases (check_arch host fuzzy.arch)) [
    | inr (e, bad) ↦ ground arith
    | inl (u, fine) ↦ from (query_layer_item c (by_id fuzzy.id)) refl fine
  ]
    where
      from :
          (layers : List LayersItem)
          → query_layer_item c (by_id fuzzy.id) ≡ layers
          → check_arch host fuzzy.arch ≡ ok tt
          → (found : LayersItem) × (find_layer qt fuzzy.version
                (query_layer_item c (by_id fuzzy.id))
              ≡ some (ok found))
            × (layer_reference qt found ≡ some (ok r))
      from [] e fine = ground arith
      from (layer ∷ rest) e fine =
          elim (Option-cases (find_layer qt fuzzy.version (layer ∷ rest))) [
            | inl lost ↦ ground arith
            | inr (result, there) ↦ elim (Result-cases result) [
              | inr (bad, failed) ↦ ground arith
              | inl (found, got) ↦
                  (found, ap (find_layer qt fuzzy.version) e ∙ there ∙ ap some got, ground arith)
            ]
          ]

  layer_reference-ok :
      (layer : LayersItem) (r : Reference)
      → layer_reference qt layer ≡ some (ok r)
      → (Version.parse qt layer.info.version ≡ ok r.version)
        × (r.id ≡ layer.info.id)
        × (r.channel ≡ layer.info.channel)
  unfolding layer_reference Reference.create
  layer_reference-ok layer r h = (ground arith, ground arith, ground arith)

  found_layer :
      (c : RepositoryCache) (fuzzy : FuzzyReference) (found : LayersItem) (r : Reference)
      → find_layer qt fuzzy.version (query_layer_item c (by_id fuzzy.id)) ≡ some (ok found)
      → layer_reference qt found ≡ some (ok r)
      → (chosen : Chosen c fuzzy r) × (chosen.layer ≡ found)
  found_layer c fuzzy found r first stands =
      let layers = query_layer_item c (by_id fuzzy.id) in
      let (m, a) = find_layer-Answers fuzzy.version found layers first in
      let (there, selected) = mem-query_layer_item c (by_id fuzzy.id) found m in
      let (version, id, channel) = layer_reference-ok found r stands in
      (
        record {
          layer = found;
          stands = there;
          id = by_id-selects fuzzy.id found selected;
          answers = a;
          same_id = id;
          same_channel = channel;
          same_version = version;
        },
        refl,
      )

  -- A reference that is found in the cache is that of a layer there that is not deleted, has the id
  -- that was asked for and its version, if one was asked for, where the tweak counts only if it was
  -- given.
  pub clear_reference_local_sound :
      (host : Result Architecture) (c : RepositoryCache) (fuzzy : FuzzyReference) (r : Reference)
      → clear_reference_local qt host c fuzzy ≡ some (ok r)
      → Chosen c fuzzy r
  clear_reference_local_sound host c fuzzy r h =
      let (found, first, stands) = local_found host c fuzzy r h in
      (found_layer c fuzzy found r first stands).0

  -- No layer with the id comes before the one that is found.
  pub clear_reference_local_first :
      (host : Result Architecture) (c : RepositoryCache) (fuzzy : FuzzyReference) (r : Reference)
      → fuzzy.version ≡ none
      → clear_reference_local qt host c fuzzy ≡ some (ok r)
      → (chosen : Chosen c fuzzy r) × ((l : LayersItem)
          → Mem l c.layers
          → selects (by_id fuzzy.id) l ≡ true
          → NotAbove chosen.layer l)
  clear_reference_local_first host c fuzzy r open_version h =
      let layers = query_layer_item c (by_id fuzzy.id) in
      let (found, first, stands) = local_found host c fuzzy r h in
      let (chosen, same) = found_layer c fuzzy found r first stands in
      (
        chosen,
        λ l there selected.
            let prop : IsProp (NotAbove found l) = hlevel in
            subst (λ x. NotAbove x l) (sym same)
              (All-at (NotAbove found) l layers prop
                (mem-query_layer_item_of c (by_id fuzzy.id) l there selected)
                (find_layer_greatest found layers (query_layer_item-IsSorted c (by_id fuzzy.id)).1
                  (rw open_version at first))),
      )

  -- If no version was asked for, the reference that is found in the cache is that of a layer there
  -- with the id, and no layer with the id that is not deleted has a greater version text.
  pub clear_reference_local_greatest :
      (host : Result Architecture) (c : RepositoryCache) (fuzzy : FuzzyReference) (r : Reference)
      (l : LayersItem)
      → fuzzy.version ≡ none
      → clear_reference_local qt host c fuzzy ≡ some (ok r)
      → Mem l c.layers
      → selects (by_id fuzzy.id) l ≡ true
      → is_deleted l ≡ false
      → (chosen : Chosen c fuzzy r) × (text_lt chosen.layer.info.version l.info.version ≡ false)
  clear_reference_local_greatest host c fuzzy r l open_version h there selected present =
      let (chosen, first) = clear_reference_local_first host c fuzzy r open_version h in
      (chosen, first l there selected present)
