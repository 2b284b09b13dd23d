-- ===== src/Repo/Layers/Latest.antt =====
-- The entries of `listLocalLatest`, and the layers that they stand for.
use mathlib.Core.Path.{subst}
use linglong.Prelude.{
  Bool, ◌≡◌, sym, ◌∙◌, inl, inr, true, false, not, Bool-cases, List, [], ◌∷◌, All, All-map,
  All-map-keep, arith,
}
use linglong.Prelude.Result.{ok, >>=-eq-ok}
use linglong.Api.{LayersItem, PackageInfoV2, RepositoryCache}
use linglong.Package.Qt.{Qt}
use linglong.Repo.Cache.{is_deleted, query_existing_layer_item}
use linglong.Repo.Layers.Unique.{AreUnique}
use linglong.Repo.Layers.{latest_step, latest_from, list_local, list_local_latest}
use linglong.Repo.Layers.Rounds.{Covers, latest_step-Round, Round-unique, Round-covers, Round-kept}

module _ (qt : Qt) where
  latest_step-deleted :
      (infos : List PackageInfoV2) (item : LayersItem) (more : List PackageInfoV2)
      → is_deleted item ≡ true
      → latest_step qt infos item ≡ ok more
      → more ≡ infos
  unfolding latest_step
  latest_step-deleted infos item more gone h = ground arith

  not-eq-true : (b : Bool) → not b ≡ true → b ≡ false
  not-eq-true b h = ground arith

  latest_from_unique :
      (infos out : List PackageInfoV2) (items : List LayersItem)
      → AreUnique infos
      → latest_from qt infos items ≡ ok out
      → AreUnique out
        × ((old : PackageInfoV2) → Covers qt infos old → Covers qt out old)
        × All (λ item. is_deleted item ≡ false → Covers qt out item.info) items
  unfolding latest_from
  latest_from_unique infos out [] u h =
      let same : infos ≡ out = cc h in
      (subst AreUnique same u, λ old c. subst (λ l. Covers qt l old) same c, tt)
  latest_from_unique infos out (item ∷ rest) u h =
      let (more, step, later) = >>=-eq-ok _ _ h in
      elim (Bool-cases (is_deleted item)) [
        | inl gone ↦
            let same : more ≡ infos = latest_step-deleted infos item more gone step in
            let (u', kept, all) = latest_from_unique infos out rest u (rw same at later) in
            (u', kept, (λ present. cc (sym gone ∙ present), all))
        | inr present ↦
            let round = latest_step-Round qt infos item more present step in
            let (u', kept, all) =
              latest_from_unique more out rest (Round-unique qt infos item.info more u round)
                later in
            (
              u',
              λ old c. kept old (Round-kept qt infos item.info more old u round c),
              (λ _. kept item.info (Round-covers qt infos item.info more u round), all),
            )
      ]

  -- If `listLocalLatest` returns a list, it has one entry for each id, and for each package of
  -- `listLocal` an entry with its id: that package, or one whose version is not before its own.
  pub list_local_latest_unique :
      (c : RepositoryCache) (out : List PackageInfoV2)
      → list_local_latest qt c ≡ ok out
      → AreUnique out × All (Covers qt out) (list_local c)
  unfolding list_local_latest list_local
  list_local_latest_unique c out h =
      let items = query_existing_layer_item c in
      let (u, _, all) = latest_from_unique [] out items tt h in
      (
        u,
        All-map-keep (Covers qt out) (λ item. item.info) (λ item. not (is_deleted item)) items
            (All-map (λ item k present. k (not-eq-true (is_deleted item) present)) items all),
      )
