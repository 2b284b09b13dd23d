-- ===== src/Cli/Upgradable/Offers.antt =====
-- cli/cli.cpp: the newest of the offers for a package, by the inner loop of `listUpgradable`.
use mathlib.Core.List.{Mem, mem-cons_self, mem-cons_of_mem}
use linglong.Prelude.{
  sym, ◌≡◌, ◌∙◌, ◌⊎◌, inl, inr, Option-cases, Option, none, some, List, [], ◌∷◌, All, arith,
}
use linglong.Prelude.Text.{text_eq_iff}
use linglong.Prelude.Result.{ok}
use linglong.Api.{PackageInfoV2}
use linglong.Package.Qt.{Qt}
use linglong.Package.Version
use linglong.Package.Version.{Version}
use linglong.Package.Version.Order.{lt_irrefl}
use linglong.Package.FuzzyReference.{FuzzyReference}
use linglong.Package.Reference
use linglong.Package.Reference.{Reference}
use linglong.Repo.Resolve.{better}
use linglong.Repo.Resolve.Remote.{NotBefore, better_cases, NotBefore-both}
use linglong.Cli.Upgradable.{upgrade_candidate, newest_offer}

module _ (qt : Qt) where
  -- A record and the reference that it stands for: the id and, if one is named, the channel are those
  -- that were asked for, and the version is that of the record.
  pub record Offers (fuzzy : FuzzyReference) (info : PackageInfoV2) (r : Reference) : Type 0 where
    pub id : info.id ≡ fuzzy.id
    pub same_id : r.id ≡ info.id
    pub channel : r.channel ≡ info.channel
    pub asked_channel : (fuzzy.channel ≡ none) ⊎ (fuzzy.channel ≡ some info.channel)
    pub version : Version.parse qt info.version ≡ ok r.version

  upgrade_candidate-Offers :
      (fuzzy : FuzzyReference) (info : PackageInfoV2) (r : Reference)
      → upgrade_candidate qt fuzzy info ≡ some r
      → Offers fuzzy info r
  unfolding upgrade_candidate Reference.create
  upgrade_candidate-Offers fuzzy info r h =
      let asked : fuzzy.id ≡ info.id = (text_eq_iff fuzzy.id info.id).0 (ground arith) in
      record {
        id = sym asked;
        same_id = let made : r.id ≡ fuzzy.id = ground arith in made ∙ asked;
        channel = ground arith;
        asked_channel = elim (Option-cases fuzzy.channel) [
          | inl e ↦ inl e
          | inr (c, e) ↦ inr (ground (arith, text_eq_iff c info.channel))
        ];
        version = ground arith;
      }

  -- The record stands for the reference, and no other record for one with a later version.
  abbrev pub IsNewest : FuzzyReference → List PackageInfoV2 → Reference → Type 0
  IsNewest fuzzy remote r =
      All (λ info. NotBefore r (upgrade_candidate qt fuzzy info)) remote
      × ((info : PackageInfoV2) × Mem info remote
          × (upgrade_candidate qt fuzzy info ≡ some r)
          × Offers fuzzy info r)

  abbrev Source : FuzzyReference → Option Reference → List PackageInfoV2 → Reference → Type 0
  Source fuzzy best list r =
      (best ≡ some r)
      ⊎ ((info : PackageInfoV2) × Mem info list × (upgrade_candidate qt fuzzy info ≡ some r))

  Source-cons :
      (fuzzy : FuzzyReference) (best : Option Reference) (info : PackageInfoV2)
      (rest : List PackageInfoV2) (r : Reference)
      → Source fuzzy (better best (upgrade_candidate qt fuzzy info)) rest r
      → Source fuzzy best (info ∷ rest) r
  Source-cons fuzzy best info rest r (inr (i, m, e)) = inr (i, mem-cons_of_mem info m, e)
  Source-cons fuzzy best info rest r (inl e) =
      elim (better_cases best (upgrade_candidate qt fuzzy info) r e).2 [
        | inl old ↦ inl old
        | inr here ↦ inr (info, mem-cons_self, here)
      ]

  newest_offer-best :
      (fuzzy : FuzzyReference) (best : Option Reference) (list : List PackageInfoV2) (r : Reference)
      → newest_offer qt fuzzy best list ≡ some r
      → NotBefore r best
        × All (λ info. NotBefore r (upgrade_candidate qt fuzzy info)) list
        × Source fuzzy best list r
  unfolding newest_offer
  newest_offer-best fuzzy none [] r h = cc h
  newest_offer-best fuzzy (some b) [] r h =
      let e : b ≡ r = cc h in (rw e (lt_irrefl r.version), tt, inl h)
  newest_offer-best fuzzy best (info ∷ rest) r h =
      let new = upgrade_candidate qt fuzzy info in
      let (first, others, source) = newest_offer-best fuzzy (better best new) rest r h in
      let (before, after) = NotBefore-both best new r first in
      (before, (after, others), Source-cons fuzzy best info rest r source)

  pub newest_offer-IsNewest :
      (fuzzy : FuzzyReference) (remote : List PackageInfoV2) (r : Reference)
      → newest_offer qt fuzzy none remote ≡ some r
      → IsNewest fuzzy remote r
  newest_offer-IsNewest fuzzy remote r h =
      let (_, others, source) = newest_offer-best fuzzy none remote r h in
      (
        others,
        elim source [
          | inl e ↦ cc e
          | inr (info, m, e) ↦ (info, m, e, upgrade_candidate-Offers fuzzy info r e)
        ],
      )
