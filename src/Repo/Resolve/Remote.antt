-- ===== src/Repo/Resolve/Remote.antt =====
-- What `clearReference` chooses from the list of the remote repository.
use mathlib.Core.List.{Mem, mem-cons_self, mem-cons_of_mem}
use mathlib.Core.Path.{subst}
use linglong.Prelude.{
  ◌≡◌, refl, sym, ap, ◌⊎◌, inl, inr, true, false, Bool-cases, Option, none, some, Option-cases,
  List, [], ◌∷◌, All, arith,
}
use linglong.Prelude.Text.{Text, text_eq_iff}
use linglong.Prelude.Result.{Result, ok}
use linglong.Api.{PackageInfoV2}
use linglong.Package.Qt.{Qt}
use linglong.Package.Version
use linglong.Package.Version.Order.{not_lt_trans, ge→not_lt, not_ge→not_lt, lt_irrefl}
use linglong.Package.FuzzyReference.{FuzzyReference}
use linglong.Package.Reference
use linglong.Package.Reference.{Reference}
use linglong.Repo.Resolve.{candidate, offers_module, better, pick, clear_reference_remote}

-- The version of a reference is not before that of another, if there is one.
abbrev pub NotBefore : Reference → Option Reference → Type 0
NotBefore r none = Unit
NotBefore r (some c) = Version.lt r.version c.version ≡ false

pub better_cases :
    (best new : Option Reference) (r : Reference)
    → better best new ≡ some r
    → NotBefore r best × NotBefore r new × ((best ≡ some r) ⊎ (new ≡ some r))
unfolding better
better_cases none none r h = cc
better_cases (some b) none r h = let e : b ≡ r = cc h in (rw e (lt_irrefl r.version), tt, inl h)
better_cases none (some n) r h = let e : n ≡ r = cc h in (tt, rw e (lt_irrefl r.version), inr h)
better_cases (some b) (some n) r h = elim (Bool-cases (Version.ge b.version n.version)) [
  | inl keep ↦
      let e : b ≡ r = ground arith in
      (
        rw (← e) (lt_irrefl b.version),
        rw (← e) (ge→not_lt b.version n.version keep),
        inl (ap some e),
      )
  | inr change ↦
      let e : n ≡ r = ground arith in
      (
        rw (← e) (not_ge→not_lt b.version n.version change),
        rw (← e) (lt_irrefl n.version),
        inr (ap some e),
      )
]

better-none : (best new : Option Reference) → better best new ≡ none → (best ≡ none) × (new ≡ none)
unfolding better
better-none none none h = (refl, refl)
better-none none (some n) h = cc
better-none (some b) none h = cc
better-none (some b) (some n) h = ground arith

NotBefore-trans :
    (r s : Reference) (o : Option Reference) → NotBefore r (some s) → NotBefore s o → NotBefore r o
NotBefore-trans r s none h k = tt
NotBefore-trans r s (some c) h k = not_lt_trans r.version s.version c.version h k

better-none-NotBefore :
    (best new : Option Reference) (r : Reference)
    → better best new ≡ none
    → NotBefore r best × NotBefore r new
better-none-NotBefore best new r h = let (e, e') = better-none best new h in (rw e tt, rw e' tt)

-- A reference that is not before the better one is before neither.
pub NotBefore-both :
    (best new : Option Reference) (r : Reference)
    → NotBefore r (better best new)
    → NotBefore r best × NotBefore r new
NotBefore-both best new r h = elim (Option-cases (better best new)) [
  | inl e ↦ better-none-NotBefore best new r e
  | inr (s, e) ↦
      let (before, after, _) = better_cases best new s e in
      let rs : NotBefore r (some s) = subst (NotBefore r) e h in
      (NotBefore-trans r s best rs before, NotBefore-trans r s new rs after)
]

module _ (qt : Qt) (fuzzy : FuzzyReference) (name : Text) where
  -- Where a chosen reference comes from.
  abbrev Source : Option Reference → List PackageInfoV2 → Reference → Type 0
  Source best list r =
      (best ≡ some r)
      ⊎ ((info : PackageInfoV2) × Mem info list × (candidate qt fuzzy name info ≡ some r))

  pick_best :
      (best : Option Reference) (list : List PackageInfoV2) (r : Reference)
      → pick qt fuzzy name best list ≡ some r
      → NotBefore r best
        × All (λ info. NotBefore r (candidate qt fuzzy name info)) list
        × Source best list r
  unfolding pick
  pick_best none [] r h = cc
  pick_best (some b) [] r h = let e : b ≡ r = cc h in (rw e (lt_irrefl r.version), tt, inl h)
  pick_best best (info ∷ rest) r h =
      let new = candidate qt fuzzy name info in
      let (first, others, source) = pick_best (better best new) rest r h in
      let (before, after) = NotBefore-both best new r first in
      (before, (after, others), from new source)
    where
      from :
          (new : Option Reference)
          → Source (better best (candidate qt fuzzy name info)) rest r
          → Source best (info ∷ rest) r
      from new (inl e) = elim (better_cases best (candidate qt fuzzy name info) r e).2 [
        | inl old ↦ inl old
        | inr here ↦ inr (info, mem-cons_self, here)
      ]
      from new (inr (i, m, e)) = inr (i, mem-cons_of_mem info m, e)

  -- What a record and the reference that it stands for have to do with what was asked for.
  pub record Fits (info : PackageInfoV2) (r : Reference) : Type 0 where
    pub id : r.id ≡ fuzzy.id
    pub offered_id : info.id ≡ fuzzy.id
    pub channel : r.channel ≡ info.channel
    pub asked_channel : (fuzzy.channel ≡ none) ⊎ (fuzzy.channel ≡ some r.channel)
    pub offered : offers_module name info ≡ true
    pub version : Version.parse qt info.version ≡ ok r.version

  candidate-Fits :
      (info : PackageInfoV2) (r : Reference) → candidate qt fuzzy name info ≡ some r → Fits info r
  unfolding candidate Reference.create
  candidate-Fits info r h = record {
    id = ground arith;
    offered_id = sym ((text_eq_iff fuzzy.id info.id).0 (ground arith));
    channel = ground arith;
    asked_channel = elim (Option-cases fuzzy.channel) [
      | inl e ↦ inl e
      | inr (c, e) ↦ inr (ground (arith, text_eq_iff c info.channel))
    ];
    offered = ground arith;
    version = ground arith;
  }

  chosen :
      (list_remote : FuzzyReference → Result (List PackageInfoV2)) (list : List PackageInfoV2)
      (r : Reference)
      → list_remote fuzzy ≡ ok list
      → clear_reference_remote qt list_remote fuzzy name ≡ ok r
      → pick qt fuzzy name none list ≡ some r
  unfolding clear_reference_remote
  chosen list_remote list r e h = ground arith

  -- If the remote repository sends a list and a reference is chosen, the reference is that of a
  -- record of the list, and no record stands for a reference with a later version. The id and the
  -- module are those that were asked for, and so is the channel if one was.
  pub clear_reference_remote_greatest :
      (list_remote : FuzzyReference → Result (List PackageInfoV2)) (list : List PackageInfoV2)
      (r : Reference)
      → list_remote fuzzy ≡ ok list
      → clear_reference_remote qt list_remote fuzzy name ≡ ok r
      → All (λ info. NotBefore r (candidate qt fuzzy name info)) list
        × ((info : PackageInfoV2) × Mem info list
            × (candidate qt fuzzy name info ≡ some r)
            × Fits info r)
  clear_reference_remote_greatest list_remote list r e h =
      let (_, all, source) = pick_best none list r (chosen list_remote list r e h) in
      (all, found source)
    where
      found :
          Source none list r
          → (info : PackageInfoV2) × Mem info list
            × (candidate qt fuzzy name info ≡ some r)
            × Fits info r
      found (inl none_chosen) = cc none_chosen
      found (inr (info, m, c)) = (info, m, c, candidate-Fits info r c)
