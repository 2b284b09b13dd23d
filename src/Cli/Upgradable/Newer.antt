-- ===== src/Cli/Upgradable/Newer.antt =====
-- cli/cli.cpp: what `listUpgradable` lists.
use mathlib.Core.List.{Mem, mem-cons_self, mem-cons_of_mem}
use mathlib.Core.Path.{subst}
use linglong.Prelude.{
  ◌≡◌, refl, ap, ◌∙◌, ◌⊎◌, inl, inr, false, Bool-cases, Option-cases, none, some, List, [], ◌∷◌,
  ◌++◌, All, if◌then◌else◌, true,
}
use linglong.Prelude.Text.{Text, codes, is_empty, text_eq, text_eq_iff}
use linglong.Prelude.Result.{Result, ok, Result-cases}
use linglong.Api.{PackageInfoV2, RepositoryCache}
use linglong.Package.Qt.{Qt}
use linglong.Package.Version
use linglong.Package.Version.{Version}
use linglong.Package.FuzzyReference
use linglong.Package.FuzzyReference.{FuzzyReference}
use linglong.Package.Reference.{Reference}
use linglong.Prelude.Members.{mem-keep}
use linglong.Repo.Layers.{list_local_latest}
use linglong.Cli.Upgradable.{
  UpgradeListResult, filter_package_infos_from_type, newest_offer, compare_versions, upgrade_of,
  upgrades, list_upgradable,
}
use linglong.Cli.Upgradable.Offers.{IsNewest, newest_offer-IsNewest}

module _ (qt : Qt) where
  -- What an entry says of a package that is installed.
  abbrev pub IsUpgradeOf : List PackageInfoV2 → PackageInfoV2 → UpgradeListResult → Type 0
  IsUpgradeOf remote pkg u =
      (fuzzy : FuzzyReference) × (old : Version) × (new : Reference) × (FuzzyReference.parse qt
          pkg.id
        ≡ ok fuzzy)
      × (Version.parse qt pkg.version ≡ ok old)
      × IsNewest qt fuzzy remote new
      × (Version.le new.version old ≡ false)
      × (u ≡ record {
        id = pkg.id;
        new_version = Version.to_string qt new.version;
        old_version = Version.to_string qt old;
      })

  upgrade_of-IsUpgradeOf :
      (remote : List PackageInfoV2) (pkg : PackageInfoV2) (us : List UpgradeListResult)
      → upgrade_of qt remote pkg ≡ some us
      → All (IsUpgradeOf remote pkg) us
  unfolding upgrade_of compare_versions
  upgrade_of-IsUpgradeOf remote pkg us h = elim (Result-cases (FuzzyReference.parse qt pkg.id)) [
    | inr (e, bad) ↦
        let none_found : [] ≡ us = cc (rw (bad, upgrade_of) at h) in
        subst (All (IsUpgradeOf remote pkg)) none_found tt
    | inl (fuzzy, parsed) ↦ elim (Option-cases (newest_offer qt fuzzy none remote)) [
      | inl e ↦
          let none_found : [] ≡ us = cc (rw (parsed, e, upgrade_of) at h) in
          subst (All (IsUpgradeOf remote pkg)) none_found tt
      | inr (new, e) ↦ elim (Result-cases (Version.parse qt pkg.version)) [
        | inr (e', bad) ↦ cc (rw (parsed, e, bad, upgrade_of, compare_versions) at h)
        | inl (old, known) ↦ elim (Bool-cases (Version.le new.version old)) [
          | inl late ↦
              let none_found : [] ≡ us =
                cc (rw (parsed, e, known, late, upgrade_of, compare_versions) at h) in
              subst (All (IsUpgradeOf remote pkg)) none_found tt
          | inr newer ↦
              let u : UpgradeListResult = record {
                id = pkg.id;
                new_version = Version.to_string qt new.version;
                old_version = Version.to_string qt old;
              } in
              let one : u ∷ [] ≡ us =
                cc (rw (parsed, e, known, newer, upgrade_of, compare_versions) at h) in
              subst (All (IsUpgradeOf remote pkg)) one (
                (
                  fuzzy,
                  old,
                  new,
                  parsed,
                  known,
                  newest_offer-IsNewest qt fuzzy remote new e,
                  newer,
                  refl,
                ),
                tt,
              )
        ]
      ]
    ]
  ]

  -- An entry is about one of the packages.
  abbrev pub IsUpgrade : List PackageInfoV2 → List PackageInfoV2 → UpgradeListResult → Type 0
  IsUpgrade remote pkgs u = (pkg : PackageInfoV2) × Mem pkg pkgs × IsUpgradeOf remote pkg u

  All-join :
      (remote : List PackageInfoV2) (pkg : PackageInfoV2) (pkgs : List PackageInfoV2)
      (us more : List UpgradeListResult)
      → All (IsUpgradeOf remote pkg) us
      → All (IsUpgrade remote pkgs) more
      → All (IsUpgrade remote (pkg ∷ pkgs)) (us ++ more)
  All-join remote pkg pkgs [] [] here rest = tt
  All-join remote pkg pkgs [] (m ∷ more) here ((p, inside, it), rest) =
      ((p, mem-cons_of_mem pkg inside, it), All-join remote pkg pkgs [] more here rest)
  All-join remote pkg pkgs (u ∷ us) more (it, here) rest =
      ((pkg, mem-cons_self, it), All-join remote pkg pkgs us more here rest)

  upgrades-IsUpgrade :
      (remote pkgs : List PackageInfoV2) (us : List UpgradeListResult)
      → upgrades qt remote pkgs ≡ some us
      → All (IsUpgrade remote pkgs) us
  unfolding upgrades
  upgrades-IsUpgrade remote [] us h =
      let none_found : [] ≡ us = cc h in subst (All (IsUpgrade remote [])) none_found tt
  upgrades-IsUpgrade remote (pkg ∷ rest) us h = elim (Option-cases (upgrade_of qt remote pkg)) [
    | inl e ↦ cc (rw (e, upgrades) at h)
    | inr (found, e) ↦ elim (Option-cases (upgrades qt remote rest)) [
      | inl k ↦ cc (rw (e, k, upgrades) at h)
      | inr (more, k) ↦
          let joined : found ++ more ≡ us = cc (rw (e, k, upgrades) at h) in
          subst (All (IsUpgrade remote (pkg ∷ rest))) joined (
            All-join remote pkg rest found more (upgrade_of-IsUpgradeOf remote pkg found e)
              (upgrades-IsUpgrade remote rest more k))
    ]
  ]

  -- The packages that are looked at: the latest installed ones, of the type that is asked for.
  abbrev pub wanted_of : Text → Text → List PackageInfoV2 → List PackageInfoV2
  wanted_of type option_type pkgs =
      if is_empty type then pkgs else filter_package_infos_from_type option_type pkgs

  -- Of the type that is asked for: any, if the argument is empty or the option is `all`.
  abbrev pub HasType : Text → Text → PackageInfoV2 → Type 0
  HasType type option_type pkg =
      (is_empty type ≡ true) ⊎ ((option_type ≡ codes "all") ⊎ (pkg.kind ≡ option_type))

  wanted_of-HasType :
      (type option_type : Text) (pkgs : List PackageInfoV2) (pkg : PackageInfoV2)
      → Mem pkg (wanted_of type option_type pkgs)
      → Mem pkg pkgs × HasType type option_type pkg
  unfolding filter_package_infos_from_type
  wanted_of-HasType type option_type pkgs pkg m = elim (Bool-cases (is_empty type)) [
    | inl e ↦ (rw e at m, inl e)
    | inr e ↦ elim (Bool-cases (text_eq option_type (codes "all"))) [
      | inl all ↦ (rw (e, all) at m, inr (inl ((text_eq_iff option_type (codes "all")).0 all)))
      | inr other ↦
          let (there, same) =
            mem-keep (λ info. text_eq info.kind option_type) pkg pkgs (rw (e, other) at m) in
          (there, inr (inr ((text_eq_iff pkg.kind option_type).0 same)))
    ]
  ]

  -- An entry about one of the packages that has the type.
  abbrev pub IsUpgradeOfType :
      List PackageInfoV2 → List PackageInfoV2 → Text → Text → UpgradeListResult → Type 0
  IsUpgradeOfType remote pkgs type option_type u =
      (pkg : PackageInfoV2) × Mem pkg pkgs × HasType type option_type pkg × IsUpgradeOf remote pkg u

  All-HasType :
      (remote pkgs : List PackageInfoV2) (type option_type : Text) (us : List UpgradeListResult)
      → All (IsUpgrade remote (wanted_of type option_type pkgs)) us
      → All (IsUpgradeOfType remote pkgs type option_type) us
  All-HasType remote pkgs type option_type [] all = tt
  All-HasType remote pkgs type option_type (u ∷ us) ((pkg, m, it), all) =
      let (there, has) = wanted_of-HasType type option_type pkgs pkg m in
      ((pkg, there, has, it), All-HasType remote pkgs type option_type us all)

  -- Each entry of the list of upgrades is about one of the latest installed packages, which has the
  -- type that is asked for unless any type is. It gives the version of that package, and the version
  -- of a record that the remote repository sends when it is asked for `.`, whose id is the one that
  -- the text of the package's id stands for, and whose channel is that of the text if it names one.
  -- That version is not at or before the installed one and before no other such offer.
  pub list_upgradable_sound :
      (c : RepositoryCache) (list_remote : FuzzyReference → Result (List PackageInfoV2))
      (type option_type : Text) (us : List UpgradeListResult)
      → list_upgradable qt c list_remote type option_type ≡ some (ok us)
      → (pkgs remote : List PackageInfoV2) × (whole : FuzzyReference) × (list_local_latest qt c
          ≡ ok pkgs)
        × (FuzzyReference.parse qt (codes ".") ≡ ok whole)
        × (list_remote whole ≡ ok remote)
        × All (IsUpgradeOfType remote pkgs type option_type) us
  unfolding list_upgradable
  list_upgradable_sound c list_remote type option_type us h =
      elim (Result-cases (list_local_latest qt c)) [
        | inr (e, bad) ↦ cc (rw (bad, list_upgradable) at h)
        | inl (pkgs, there) ↦ elim (Result-cases (FuzzyReference.parse qt (codes "."))) [
          | inr (e, bad) ↦ cc (rw (there, bad, list_upgradable) at h)
          | inl (whole, parsed) ↦ elim (Result-cases (list_remote whole)) [
            | inr (e, bad) ↦ cc (rw (there, parsed, bad, list_upgradable) at h)
            | inl (remote, answer) ↦
                elim (Option-cases (upgrades qt remote (wanted_of type option_type pkgs))) [
                  | inl e ↦ cc (rw (there, parsed, answer, e, list_upgradable) at h)
                  | inr (found, e) ↦
                      let same : found ≡ us =
                        cc (rw (there, parsed, answer, e, list_upgradable) at h) in
                      (
                        pkgs,
                        remote,
                        whole,
                        there,
                        parsed,
                        answer,
                        All-HasType remote pkgs type option_type us (
                            upgrades-IsUpgrade remote (wanted_of type option_type pkgs) us
                              (e ∙ ap some same)),
                      )
                ]
          ]
        ]
      ]
