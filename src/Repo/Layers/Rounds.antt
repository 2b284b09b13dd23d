-- ===== src/Repo/Layers/Rounds.antt =====
-- One round of `listLocalLatest`, and the packages that the entries of its list stand for.
use mathlib.Core.Path.{subst}
use linglong.Prelude.{
  ◌≡◌, refl, sym, ap, ◌∙◌, ◌⊎◌, inl, inr, true, false, Bool-cases, none, some, Option-cases, List,
  [], ◌∷◌, ◌++◌, find_first, erase_first, find_first-append, find_first-append_some,
  find_first-erase_other, arith,
}
use linglong.Prelude.Result.{ok, >>=-eq-ok}
use linglong.Api.{LayersItem, PackageInfoV2}
use linglong.Package.Qt.{Qt}
use linglong.Package.Version
use linglong.Package.Version.{Version}
use linglong.Package.Version.Order.{not_lt_trans, lt_asymm, le_cases, lt_irrefl}
use linglong.Repo.Cache.{is_deleted}
use linglong.Repo.Layers.Unique.{
  AreUnique, has_id_refl, has_id_sound, has_id_apart, find_first-erase_unique, AreUnique-append,
  AreUnique-erase_first,
}
use linglong.Repo.Layers.{has_id, replace_older, latest_step}

module _ (qt : Qt) where
  -- The version of an entry is not before that of another.
  pub record Upto (new old : PackageInfoV2) : Type 0 where
    pub new_version : Version
    pub old_version : Version
    pub new_parsed : Version.parse qt new.version ≡ ok new_version
    pub old_parsed : Version.parse qt old.version ≡ ok old_version
    pub not_before : Version.lt new_version old_version ≡ false

  -- The entry for the id of a package is that package, or not older.
  pub record Covers (infos : List PackageInfoV2) (info : PackageInfoV2) : Type 0 where
    pub entry : PackageInfoV2
    pub stands : find_first (has_id info.id) infos ≡ some entry
    pub not_older : (entry ≡ info) ⊎ Upto entry info

  pub Upto-trans : (a b c : PackageInfoV2) → Upto a b → Upto b c → Upto a c
  Upto-trans a b c h k =
      let same : h.old_version ≡ k.new_version = cc (h.old_parsed, k.new_parsed) in
      record {
        new_version = h.new_version;
        old_version = k.old_version;
        new_parsed = h.new_parsed;
        old_parsed = k.old_parsed;
        not_before =
            not_lt_trans h.new_version h.old_version k.old_version h.not_before
              (rw same k.not_before);
      }

  -- What becomes of an entry that a newer layer may replace.
  abbrev pub Replaced :
      List PackageInfoV2 → PackageInfoV2 → PackageInfoV2 → List PackageInfoV2 → Type 0
  Replaced infos info it more =
      ((more ≡ infos) × Upto it info)
      ⊎ ((more ≡ erase_first (has_id info.id) infos ++ (info ∷ [])) × Upto info it)

  le-not_after : (a b : Version) → Version.le a b ≡ true → Version.lt b a ≡ false
  le-not_after a b h = elim (le_cases a b h) [
    | inl e ↦ rw e (lt_irrefl b)
    | inr less ↦ lt_asymm a b less
  ]

  not_le-not_before : (a b : Version) → Version.le a b ≡ false → Version.lt a b ≡ false
  unfolding Version.le
  not_le-not_before a b h = ground arith

  replace_older-Replaced :
      (infos : List PackageInfoV2) (info it : PackageInfoV2) (more : List PackageInfoV2)
      → replace_older qt infos info it ≡ ok more
      → Replaced infos info it more
  unfolding replace_older
  replace_older-Replaced infos info it more h =
      let (old, p, k) = >>=-eq-ok _ _ h in
      let (new, p', k') = >>=-eq-ok _ _ k in
      elim (Bool-cases (Version.le new old)) [
        | inl e ↦
            let same : infos ≡ more = cc (rw e at k') in
            inl (
              sym same,
              record {
                new_version = old;
                old_version = new;
                new_parsed = p;
                old_parsed = p';
                not_before = le-not_after new old e;
              },
            )
        | inr e ↦
            let same : erase_first (has_id info.id) infos ++ (info ∷ []) ≡ more = cc (rw e at k') in
            inr (
              sym same,
              record {
                new_version = new;
                old_version = old;
                new_parsed = p';
                old_parsed = p;
                not_before = not_le-not_before new old e;
              },
            )
      ]

  -- How a round changes the list.
  abbrev pub Round : List PackageInfoV2 → PackageInfoV2 → List PackageInfoV2 → Type 0
  Round infos info more =
      ((find_first (has_id info.id) infos ≡ none) × (more ≡ infos ++ (info ∷ [])))
      ⊎ ((it : PackageInfoV2) × (find_first (has_id info.id) infos ≡ some it)
          × Replaced infos info it more)

  pub latest_step-Round :
      (infos : List PackageInfoV2) (item : LayersItem) (more : List PackageInfoV2)
      → is_deleted item ≡ false
      → latest_step qt infos item ≡ ok more
      → Round infos item.info more
  unfolding latest_step
  latest_step-Round infos item more present h =
      elim (Option-cases (find_first (has_id item.info.id) infos)) [
        | inl missing ↦ inl (missing, cc (sym (rw (present, missing, latest_step) at h)))
        | inr (it, there) ↦ inr (
          it,
          there,
          replace_older-Replaced infos item.info it more (rw (present, there, latest_step) at h),
        )
      ]

module _ (qt : Qt) where
  -- The list of a round, whose entries are unique, has an entry for the package of the round.
  pub Round-unique :
      (infos : List PackageInfoV2) (info : PackageInfoV2) (more : List PackageInfoV2)
      → AreUnique infos
      → Round qt infos info more
      → AreUnique more
  Round-unique infos info more u (inl (missing, e)) = rw e (AreUnique-append infos info u missing)
  Round-unique infos info more u (inr (it, there, inl (e, _))) = rw e u
  Round-unique infos info more u (inr (it, there, inr (e, _))) = rw e (
      AreUnique-append (erase_first (has_id info.id) infos) info
        (AreUnique-erase_first (has_id info.id) infos u) (find_first-erase_unique info.id infos u))

  pub Round-covers :
      (infos : List PackageInfoV2) (info : PackageInfoV2) (more : List PackageInfoV2)
      → AreUnique infos
      → Round qt infos info more
      → Covers qt more info
  Round-covers infos info more u (inl (missing, e)) = record {
    entry = info;
    stands =
        ap (find_first (has_id info.id)) e
        ∙ find_first-append (has_id info.id) infos info missing (has_id_refl info);
    not_older = inl refl;
  }
  Round-covers infos info more u (inr (it, there, inl (e, newer))) = record {
    entry = it;
    stands = ap (find_first (has_id info.id)) e ∙ there;
    not_older = inr newer;
  }
  Round-covers infos info more u (inr (it, there, inr (e, newer))) = record {
    entry = info;
    stands =
        ap (find_first (has_id info.id)) e
        ∙ find_first-append (has_id info.id) (erase_first (has_id info.id) infos) info
            (find_first-erase_unique info.id infos u) (has_id_refl info);
    not_older = inl refl;
  }

  -- The entry of another package stays, or a newer one takes its place.
  pub Round-kept :
      (infos : List PackageInfoV2) (info : PackageInfoV2) (more : List PackageInfoV2)
      (old : PackageInfoV2)
      → AreUnique infos
      → Round qt infos info more
      → Covers qt infos old
      → Covers qt more old
  unfolding Round-covers
  Round-kept infos info more old u (inl (missing, e)) c = record {
    entry = c.entry;
    stands =
        ap (find_first (has_id old.id)) e
        ∙ find_first-append_some (has_id old.id) infos (info ∷ []) c.entry c.stands;
    not_older = c.not_older;
  }
  Round-kept infos info more old u (inr (it, there, inl (e, newer))) c = record {
    entry = c.entry;
    stands = ap (find_first (has_id old.id)) e ∙ c.stands;
    not_older = c.not_older;
  }
  Round-kept infos info more old u (inr (it, there, inr (e, newer))) c =
      elim (Bool-cases (has_id info.id old)) [
        | inl same ↦
            let ids : info.id ≡ old.id = has_id_sound info.id old same in
            let entry : it ≡ c.entry =
              cc (there, c.stands, ap (λ id. find_first (has_id id) infos) ids) in
            record {
              entry = info;
              stands =
                  rw (← ids)
                    (Round-covers infos info more u (inr (it, there, inr (e, newer)))).stands;
              not_older = elim c.not_older [
                | inl e' ↦ inr (subst (Upto qt info) (entry ∙ e') newer)
                | inr k ↦ inr (Upto-trans qt info it old newer (rw entry k))
              ];
            }
        | inr other ↦ record {
          entry = c.entry;
          stands =
              ap (find_first (has_id old.id)) e
              ∙ find_first-append_some (has_id old.id) (erase_first (has_id info.id) infos)
                  (info ∷ []) c.entry
                  (find_first-erase_other (has_id old.id) (has_id info.id) infos
                      (has_id_apart info.id old other)
                    ∙ c.stands);
          not_older = c.not_older;
        }
      ]
