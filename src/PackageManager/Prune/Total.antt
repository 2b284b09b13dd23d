-- ===== src/PackageManager/Prune/Total.antt =====
-- The counting of `Prune` in a cache whose layers can be read.
use linglong.Prelude.{
  ◌≡◌, refl, ap, ◌∙◌, inl, inr, not, Bool-cases, Option, some, Option-cases, List, [], ◌∷◌, All,
  All-map, All-map-keep, keep-All,
}
use linglong.Prelude.Partial.{◌>>=◌}
use linglong.Prelude.Text.{Text, codes}
use linglong.Prelude.Result.{Result, ok, err, Result-cases}
use linglong.Api.{PackageInfoV2, RepositoryCache}
use linglong.Package.Qt.{Qt}
use linglong.Package.Version
use linglong.Package.Architecture.{Architecture}
use linglong.Package.FuzzyReference
use linglong.Package.FuzzyReference.{FuzzyReference}
use linglong.Package.Reference
use linglong.Package.Reference.{Reference}
use linglong.Repo.Cache.{is_deleted, query_existing_layer_item}
use linglong.Repo.Resolve.{clear_reference}
use linglong.Repo.Resolve.Total.{IsReadable, AllReadable, clear_reference_local-some}
use linglong.Repo.Layers.{list_local}
use linglong.PackageManager.Prune.{
  Target, try_emplace, add_use, is_main, is_app, local_only, resolve, count_use, count_app,
  count_package, count_all, targets,
}

module _ (qt : Qt) (host : Result Architecture) (c : RepositoryCache)
    (list_remote : FuzzyReference → Result (List PackageInfoV2))
    (readable : AllReadable qt c.layers) where
  clear_reference-some :
      (fuzzy : FuzzyReference)
      → (x : Result Reference) × (clear_reference qt host c list_remote fuzzy local_only
            (codes "binary")
          ≡ some x)
  unfolding clear_reference local_only
  clear_reference-some fuzzy =
      let (x, e) = clear_reference_local-some qt host c fuzzy readable in
      elim (Result-cases x) [
        | inl (ref, k) ↦ (ok ref, rw (e, k, clear_reference) refl)
        | inr (m, k) ↦ (err m, rw (e, k, clear_reference) refl)
      ]

  resolve-some :
      (text : Text) → (x : Result Reference) × (resolve qt host c list_remote text ≡ some x)
  unfolding resolve
  resolve-some text = elim (Result-cases (FuzzyReference.parse qt text)) [
    | inr (m, bad) ↦ (err m, rw (bad, resolve) refl)
    | inl (fuzzy, read) ↦ let (x, e) = clear_reference-some fuzzy in (x, rw (read, resolve) e)
  ]

  count_use-some :
      (text : Text) (t : Target) (next : Target → Option Target)
      → ((u : Target) → (out : Target) × (next u ≡ some out))
      → (out : Target) × (count_use qt host c list_remote text t next ≡ some out)
  unfolding count_use
  count_use-some text t next rest =
      let (x, e) = resolve-some text in
      elim (Result-cases x) [
        | inr (m, k) ↦ (t, rw (e, k, count_use) refl)
        | inl (ref, k) ↦ let (out, h) = rest (add_use ref t) in (out, rw (e, k, count_use) h)
      ]

  count_app-some :
      (info : PackageInfoV2) (t : Target)
      → (out : Target) × (count_app qt host c list_remote info t ≡ some out)
  unfolding count_app
  count_app-some info t =
      let base = λ (u : Target). count_use-some info.base u some (λ w. (w, refl)) in
      elim (Option-cases info.runtime) [
        | inl e ↦ let (out, h) = base t in (out, rw (e, count_app) h)
        | inr (runtime, e) ↦
            let (out, h) = count_use-some runtime t _ base in (out, rw (e, count_app) h)
      ]

  from_package_info-some :
      (info : PackageInfoV2)
      → IsReadable qt info
      → (x : Result Reference) × (Reference.from_package_info qt info ≡ some x)
  unfolding Reference.from_package_info
  from_package_info-some info h = elim (Bool-cases (Version.has_tweak h.version)) [
    | inr lacking ↦
        (err "version .tweak is required", rw (h.parsed, lacking, Reference.from_package_info) refl)
    | inl tweaked ↦ (
      Reference.create info.channel info.id h.version h.arch,
      rw (h.parsed, tweaked, h.named, h.known, Reference.from_package_info) refl,
    )
  ]

  count_package-some :
      (info : PackageInfoV2) (t : Target)
      → IsReadable qt info
      → (out : Target) × (count_package qt host c list_remote info t ≡ some out)
  unfolding count_package
  count_package-some info t h = elim (Bool-cases (is_main info)) [
    | inr other ↦ (t, rw (other, count_package) refl)
    | inl main ↦ elim (Bool-cases (is_app info)) [
      | inl app ↦ let (out, k) = count_app-some info t in (out, rw (main, app, count_package) k)
      | inr no_app ↦
          let (x, e) = from_package_info-some info h in
          elim (Result-cases x) [
            | inr (m, k) ↦ (t, rw (main, no_app, e, k, count_package) refl)
            | inl (ref, k) ↦ (try_emplace ref t, rw (main, no_app, e, k, count_package) refl)
          ]
    ]
  ]

  count_all-some :
      (infos : List PackageInfoV2) (t : Target)
      → All (IsReadable qt) infos
      → (out : Target) × (count_all qt host c list_remote infos t ≡ some out)
  unfolding count_all
  count_all-some [] t h = (t, refl)
  count_all-some (info ∷ rest) t h =
      let (more, e) = count_package-some info t h.0 in
      let (out, k) = count_all-some rest more h.1 in
      (out, ap (λ o. o >>= λ u. count_all qt host c list_remote rest u) e ∙ k)

  local-IsReadable : All (IsReadable qt) (list_local c)
  unfolding list_local query_existing_layer_item
  local-IsReadable =
      All-map-keep (IsReadable qt) (λ item. item.info) (λ item. not (is_deleted item))
        (query_existing_layer_item c)
        (All-map (λ item k _. k) (query_existing_layer_item c)
          (keep-All (λ item. IsReadable qt item.info) (λ item. not (is_deleted item)) c.layers
            readable))

  -- If the version and the first architecture of every layer of the cache can be read, the counting
  -- of `Prune` ends with a table.
  pub targets-some : (t : Target) × (targets qt host c list_remote ≡ some t)
  unfolding targets
  targets-some = count_all-some (list_local c) [] local-IsReadable
