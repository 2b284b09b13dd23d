-- ===== src/Repo/Resolve/Total.antt =====
-- Resolving a fuzzy reference in a cache whose layers can be read.
use mathlib.Core.Path.{subst}
use linglong.Prelude.{
  ◌≡◌, refl, sym, ◌⊎◌, inl, inr, Bool-cases, Option, some, Option-cases, List, [], ◌∷◌, String, All,
  arith,
}
use linglong.Prelude.Text.{Text}
use linglong.Prelude.Result.{Result, ok, err, Result-cases}
use linglong.Api.{LayersItem, PackageInfoV2, RepositoryCache}
use linglong.Package.Qt.{Qt}
use linglong.Package.Version
use linglong.Package.Version.{Version}
use linglong.Package.Architecture
use linglong.Package.Architecture.{Architecture}
use linglong.Package.FuzzyReference.{FuzzyReference}
use linglong.Package.Reference
use linglong.Package.Reference.{Reference}
use linglong.Repo.Cache.{is_deleted, query_layer_item}
use linglong.Repo.Cache.Sorted.{query_layer_item-All}
use linglong.Repo.Resolve.{
  drop_tweak, find_layer, layer_reference, check_arch, by_id, clear_reference_local,
}

module _ (qt : Qt) where
  -- The version of the layer, and the first architecture that it names, can be read.
  pub record IsReadable (info : PackageInfoV2) : Type 0 where
    pub version : Version
    pub parsed : Version.parse qt info.version ≡ ok version
    pub raw : Text
    pub more : List Text
    pub named : info.arch ≡ raw ∷ more
    pub arch : Architecture
    pub known : Architecture.parse raw ≡ ok arch

  abbrev pub AllReadable : List LayersItem → Type 0
  AllReadable layers = All (λ l. IsReadable l.info) layers

  -- The loop ends with an error or with a layer.
  abbrev Ends : Option (Result LayersItem) → Type 0
  Ends found =
      ((e : String) × (found ≡ some (err e)))
      ⊎ ((l : LayersItem) × IsReadable l.info × (found ≡ some (ok l)))

  find_layer-Ends :
      (want : Option Version) (layers : List LayersItem)
      → AllReadable layers
      → Ends (find_layer qt want layers)
  unfolding find_layer
  find_layer-Ends want [] h = inl ("compatible layer not found", refl)
  find_layer-Ends want (layer ∷ rest) h =
      let later = find_layer-Ends want rest h.1 in
      elim (Bool-cases (is_deleted layer)) [
        | inl gone ↦ rw (gone, find_layer) later
        | inr present ↦ elim (Option-cases want) [
          | inl none_wanted ↦
              inr (layer, h.0, rw (present, h.0.parsed, none_wanted, find_layer) refl)
          | inr (w, some_wanted) ↦ elim (Bool-cases (Version.eq (drop_tweak w h.0.version) w)) [
            | inl fits ↦ inr (layer, h.0, ground (arith, h.0.parsed))
            | inr other ↦
                let same : find_layer qt want (layer ∷ rest) ≡ find_layer qt want rest =
                  ground (arith, h.0.parsed) in
                subst Ends (sym same) later
          ]
        ]
      ]

  layer_reference-some :
      (l : LayersItem)
      → IsReadable l.info
      → (x : Result Reference) × (layer_reference qt l ≡ some x)
  unfolding layer_reference
  layer_reference-some l h = (
    Reference.create l.info.channel l.info.id h.version h.arch,
    rw (h.parsed, h.named, h.known, layer_reference) refl,
  )

  pub clear_reference_local-some :
      (host : Result Architecture) (c : RepositoryCache) (fuzzy : FuzzyReference)
      → AllReadable c.layers
      → (x : Result Reference) × (clear_reference_local qt host c fuzzy ≡ some x)
  unfolding clear_reference_local
  clear_reference_local-some host c fuzzy h = elim (Result-cases (check_arch host fuzzy.arch)) [
    | inr (e, bad) ↦ (err e, rw (bad, clear_reference_local) refl)
    | inl (_, fine) ↦
        from fine (query_layer_item c (by_id fuzzy.id)) refl
          (query_layer_item-All (λ l. IsReadable l.info) c (by_id fuzzy.id) h)
  ]
    where
      from :
          {u : Unit {0}}
          → check_arch host fuzzy.arch ≡ ok u
          → (layers : List LayersItem) → query_layer_item c (by_id fuzzy.id) ≡ layers
          → AllReadable layers
          → (x : Result Reference) × (clear_reference_local qt host c fuzzy ≡ some x)
      from fine [] e all = (err "package not found", rw (fine, e, clear_reference_local) refl)
      from fine (layer ∷ rest) e all = elim (find_layer-Ends fuzzy.version (layer ∷ rest) all) [
        | inl (m, f) ↦ (err m, rw (fine, e, f, clear_reference_local) refl)
        | inr (l, readable, f) ↦
            let (x, stands) = layer_reference-some l readable in
            (x, rw (fine, e, f, clear_reference_local) stands)
      ]
