-- ===== src/PackageManager/Requests/Sound.antt =====
-- What is true of a request that was accepted.
use linglong.Prelude.{
  ◌≡◌, refl, ◌⊎◌, inl, inr, String, false, Bool-cases, Option, none, some, List, [], ◌∷◌,
}
use linglong.Prelude.Text.{Text, codes}
use linglong.Prelude.Result.{Result, ok, err}
use linglong.Package.Version
use linglong.Package.FuzzyReference.{FuzzyReference}
use linglong.Package.Reference.{Reference}
use linglong.Api.{LayersItem}
use linglong.Repo.Cache.{RepoCache}
use linglong.Repo.Layers.{get_layer_item}
use linglong.PackageManager.Prune.{local_only}
use linglong.PackageManager.World.{Env}
use linglong.PackageManager.Requests.{
  PackageManager1Package, accepted, fuzzy_reference_from_package, module_or_binary, ref_spec,
  is_operated, clear_as, start_for, latest_remote_reference,
}

pub accepted-inj : {A : Type 0} {a b : A} → accepted a ≡ accepted b → a ≡ b
accepted-inj h = cc h

pub some-inj : {A : Type 0} {a b : A} → some a ≡ some b → a ≡ b
some-inj h = cc h

pub found-cases :
    {A : Type 0} (o : Option (Result A))
    → (o ≡ none) ⊎ (((e : String) × (o ≡ some (err e))) ⊎ ((a : A) × (o ≡ some (ok a))))
found-cases none = inl refl
found-cases (some (err e)) = inr (inl (e, refl))
found-cases (some (ok a)) = inr (inr (a, refl))

module _ (env : Env) (tasks : List (List Text)) where
  pub start_for-accepted :
      {A : Type 0} (ref : Reference) (name : Text) (make : Text → A) {out : A}
      → start_for env tasks ref name make ≡ accepted out
      → let spec = ref_spec env.remote.default_repo ref name in
        (is_operated spec tasks ≡ false) × (accepted (make spec) ≡ accepted out)
  unfolding start_for
  start_for-accepted ref name make h =
      let spec = ref_spec env.remote.default_repo ref name in
      elim (Bool-cases (is_operated spec tasks)) [
        | inl e ↦ cc (rw (e, start_for) at h)
        | inr e ↦ (e, rw (e, start_for) at h)
      ]

  -- What an entry says of the package of the request that it is for: the old version is installed,
  -- in a layer whose kind decides how the remote repository is asked, the new one is not at or before
  -- it, and no task operates on it.
  abbrev pub IsUpdateOf : RepoCache → PackageManager1Package → Text × Reference × Reference → Type 0
  IsUpdateOf r pkg entry =
      (fuzzy : FuzzyReference) × (item : LayersItem) × (fuzzy_reference_from_package env.qt pkg
        ≡ ok fuzzy)
      × (clear_as env r local_only fuzzy (codes "binary") ≡ some (ok entry.1))
      × (get_layer_item env.qt r.cache entry.1 (codes "binary") none ≡ ok item)
      × (latest_remote_reference env r item.info.kind fuzzy ≡ some (ok entry.2))
      × (Version.le entry.2.version entry.1.version ≡ false)
      × (entry.0 ≡ ref_spec env.remote.default_repo entry.1 (module_or_binary pkg.module_name))
      × (is_operated entry.0 tasks ≡ false)

  -- The entries are for the packages of the request, one by one and in their order.
  abbrev pub AreUpdates :
      RepoCache → List PackageManager1Package → List (Text × Reference × Reference) → Type 0
  AreUpdates r [] [] = Unit
  AreUpdates r (pkg ∷ pkgs) (entry ∷ entries) = IsUpdateOf r pkg entry × AreUpdates r pkgs entries
  AreUpdates r _ _ = ⊥
