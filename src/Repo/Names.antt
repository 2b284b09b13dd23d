-- ===== src/Repo/Names.antt =====
-- repo/ostree_repo.cpp: the names that a layer and a reference have in the OSTree repository.
use linglong.Prelude.{◌≡◌, ◌≢◌, Option, none, some, ◌∷◌, ◌++◌, arith, if◌then◌else◌}
use linglong.Prelude.Text.{Text, codes, text_eq, text_eq_iff}
use linglong.Api.{LayersItem}
use linglong.Package.Qt.{Qt}
use linglong.Package.Version
use linglong.Package.Architecture
use linglong.Package.Reference.{Reference}
use linglong.Repo.Cache.{front}

unfoldable pub ostree_ref_from_layer_item : LayersItem → Text
ostree_ref_from_layer_item layer =
    layer.info.channel
    ++ (b'/'
        ∷ (layer.info.id
            ++ (b'/'
                ∷ (layer.info.version
                    ++ (b'/'
                        ∷ (front layer.info.arch ++ (b'/' ∷ layer.info.package_info_v2_module)))))))

unfoldable pub ostree_ref_spec_from_layer_item : LayersItem → Text
ostree_ref_spec_from_layer_item layer = layer.repo ++ (b':' ∷ ostree_ref_from_layer_item layer)

-- `repo:` in front, if there is a repository
unfoldable pub with_repo : Option Text → Text → Text
with_repo none spec = spec
with_repo (some repo) spec = repo ++ (b':' ∷ spec)

unfoldable pub reference_path : Qt → Reference → Text → Text
reference_path qt ref name =
    ref.channel
    ++ (b'/'
        ∷ (ref.id
            ++ (b'/'
                ∷ (Version.to_string qt ref.version
                    ++ (b'/' ∷ (Architecture.to_string ref.arch ++ (b'/' ∷ name)))))))

unfoldable pub ostree_spec_from_reference : Qt → Reference → Option Text → Text → Text
ostree_spec_from_reference qt ref repo name =
    with_repo repo
      (reference_path qt ref (if text_eq name (codes "binary") then codes "runtime" else name))

unfoldable pub ostree_spec_from_reference_v2 :
    Qt → Reference → Option Text → Text → Option Text → Text
ostree_spec_from_reference_v2 qt ref repo name sub_ref =
    let ret =
      with_repo repo
        (reference_path qt ref (if text_eq name (codes "runtime") then codes "binary" else name)) in
    elim sub_ref [ none ↦ ret | some sub ↦ ret ++ (b'_' ∷ sub) ]

-- A layer that has the channel, the id, the version and the architecture of a reference has the
-- name in its repository that the reference has with the module of the layer, for every module but
-- `runtime`.
layer_name-reference_name :
    (qt : Qt) (ref : Reference) (layer : LayersItem)
    → layer.info.channel ≡ ref.channel
    → layer.info.id ≡ ref.id
    → layer.info.version ≡ Version.to_string qt ref.version
    → front layer.info.arch ≡ Architecture.to_string ref.arch
    → layer.info.package_info_v2_module ≢ codes "runtime"
    → ostree_ref_spec_from_layer_item layer
      ≡ ostree_spec_from_reference_v2 qt ref
          (some layer.repo)
          layer.info.package_info_v2_module
          none
unfolding ostree_ref_spec_from_layer_item ostree_ref_from_layer_item ostree_spec_from_reference_v2
    with_repo reference_path
layer_name-reference_name qt ref layer hc hi hv ha hm =
    ground (arith, text_eq_iff layer.info.package_info_v2_module (codes "runtime"))
