-- ===== src/PackageManager/Prune/Whole.antt =====
-- Both loops of `Prune` together.
use mathlib.Core.List.{Mem, mem-cons_self, mem-cons_of_mem}
use linglong.Prelude.{◌≡◌, sym, ap, ◌∙◌, true, some, List, [], ◌∷◌, All}
use linglong.Prelude.Partial.{◌>>=◌}
use linglong.Prelude.Text.{Text}
use linglong.Prelude.Result.{Result}
use linglong.Api.{LayersItem, PackageInfoV2}
use linglong.Package.Qt.{Qt}
use linglong.Package.Version
use linglong.Package.Version.{Version}
use linglong.Package.Version.Parse.{IsInRange, parse-to_string_version}
use linglong.Package.Architecture.{Architecture}
use linglong.Package.FuzzyReference.{FuzzyReference}
use linglong.Package.Reference.{Reference}
use linglong.Repo.Cache.{RepoCache}
use linglong.Repo.Layers.{Ostree, list_local}
use linglong.PackageManager.Prune.{Target, is_main, is_app, targets, unused, prune_refs, prune}
use linglong.PackageManager.Prune.Needed.{Needs, targets-needed}
use linglong.PackageManager.Prune.Kept.{IsOf, prune_refs-keeps}

-- Versions that fit are told apart by their texts.
to_string_injective :
    (qt : Qt) (v w : Version)
    → IsInRange v
    → IsInRange w
    → Version.to_string qt v ≡ Version.to_string qt w
    → v ≡ w
to_string_injective qt v w hv hw e = cc (
    sym (parse-to_string_version qt v hv)
    ∙ ap (Version.parse qt) e
    ∙ parse-to_string_version qt w hw)

-- A version that fits, and the architecture of another reference.
abbrev pub Comparable : Reference → Reference → Type 0
Comparable ref other = IsInRange other.version × (other.arch ≡ ref.arch)

IsOf-unique :
    (qt : Qt) (l : LayersItem) (ref other : Reference)
    → IsInRange ref.version
    → Comparable ref other
    → IsOf qt ref l
    → IsOf qt other l
    → other ≡ ref
IsOf-unique qt l ref other fits (fits', arch) h k =
    let id : other.id ≡ ref.id = sym (k.id) ∙ h.id in
    let channel : other.channel ≡ ref.channel = sym (k.channel) ∙ h.channel in
    let version : other.version ≡ ref.version =
      to_string_injective qt other.version ref.version fits' fits (sym (k.version) ∙ h.version) in
    cc (id, channel, version, arch)

not_removed :
    (qt : Qt) (l : LayersItem) (ref : Reference) (refs : List Reference)
    → IsInRange ref.version
    → IsOf qt ref l
    → All (Comparable ref) refs
    → ¬ (Mem ref refs)
    → All (λ other. ¬ (IsOf qt other l)) refs
not_removed qt l ref [] fits h c absent = tt
not_removed qt l ref (other ∷ rest) fits h c absent = (
  λ also. absent (rw (IsOf-unique qt l ref other fits c.0 h also) mem-cons_self),
  not_removed qt l ref rest fits h c.1 (λ m. absent (mem-cons_of_mem other m)),
)

module _ (qt : Qt) (v : Text) (ostree : Reference → Text → Ostree)
    (read_info : LayersItem → Result PackageInfoV2) (host : Result Architecture)
    (list_remote : FuzzyReference → Result (List PackageInfoV2)) (r : RepoCache) where
  prune-refs :
      (t : Target)
      → targets qt host r.cache list_remote ≡ some t
      → prune qt v ostree read_info host list_remote r
        ≡ some (prune_refs qt v ostree read_info (unused t) (r, []))
  unfolding prune
  prune-refs t e = ap (λ o. o >>= λ u. some (prune_refs qt v ostree read_info (unused u) (r, []))) e

  -- If the counting ends, `Prune` keeps every layer that has the id, the channel and the version of
  -- a reference that an application among the local packages needs; if the references that are
  -- removed are for the same architecture, and all versions fit in `qlonglong`s.
  pub prune_keeps_needed :
      (t : Target) (info : PackageInfoV2) (ref : Reference) (l : LayersItem)
      → targets qt host r.cache list_remote ≡ some t
      → Mem info (list_local r.cache)
      → is_main info ≡ true
      → is_app info ≡ true
      → Needs qt host r.cache list_remote info ref
      → IsInRange ref.version
      → All (Comparable ref) (unused t)
      → IsOf qt ref l
      → Mem l r.cache.layers
      → (out : Result (Unit {0}) × RepoCache × List PackageInfoV2) × (prune qt v ostree read_info
            host list_remote r
          ≡ some out)
        × Mem l out.1.cache.layers
  prune_keeps_needed t info ref l e there main app needs fits comparable h m = (
    prune_refs qt v ostree read_info (unused t) (r, []),
    prune-refs t e,
    prune_refs-keeps qt v ostree read_info l (unused t) r []
        (not_removed qt l ref (unused t) fits h comparable
          (targets-needed qt host r.cache list_remote t info ref e there main app needs))
        m,
  )
