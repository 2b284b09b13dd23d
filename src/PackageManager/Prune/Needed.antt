-- ===== src/PackageManager/Prune/Needed.antt =====
-- What the loops of `Prune` do with the packages that an installed application uses.
use mathlib.Core.List.{Mem}
use linglong.Prelude.{
  refl, sym, ◌∙◌, ◌≡◌, ap, ◌∙◌, ◌⊎◌, inl, inr, true, false, Bool-cases, Option, none, some,
  Option-cases, List, [], ◌∷◌, All, All-map, arith,
}
use linglong.Prelude.Members.{All-at}
use linglong.Package.Reference.RoundTrip.{eq_iff_reference}
use linglong.Prelude.Partial.{>>=-eq-some}
use linglong.Prelude.Text.{Text}
use linglong.Prelude.Result.{Result, ok, err, Result-cases}
use linglong.Api.{PackageInfoV2, RepositoryCache}
use linglong.Package.Qt.{Qt}
use linglong.Package.Architecture.{Architecture}
use linglong.Package.FuzzyReference.{FuzzyReference}
use linglong.Package.Reference
use linglong.Package.Reference.{Reference}
use linglong.Repo.Layers.{list_local}
use linglong.PackageManager.Prune.{
  Target, try_emplace, add_use, is_main, is_app, resolve, count_use, count_app, count_package,
  count_all, targets, unused,
}
use linglong.PackageManager.Prune.Counts.{
  IsUsed, AreKeys, add_use-IsUsed, IsUsed-add_use, IsUsed-try_emplace, AreKeys-add_use,
  AreKeys-try_emplace, unused-IsUsed,
}

-- A table with its keys, and every use, of an earlier one.
record Grows (before after : Target) : Type 0 where
  keys : AreKeys before → AreKeys after
  uses : (ref : Reference) → IsUsed ref before → IsUsed ref after

Grows-refl : (t : Target) → Grows t t
Grows-refl t = record { keys = λ d. d; uses = λ ref u. u }

Grows-trans : (t u v : Target) → Grows t u → Grows u v → Grows t v
Grows-trans t u v g h = record {
  keys = λ d. h.keys (g.keys d);
  uses = λ ref k. h.uses ref (g.uses ref k);
}

Grows-eq : (t u : Target) → t ≡ u → Grows t u
Grows-eq t u e = rw (← e) (Grows-refl t)

Grows-add_use : (ref : Reference) (t : Target) → Grows t (add_use ref t)
Grows-add_use ref t = record {
  keys = AreKeys-add_use ref t;
  uses = λ other u. IsUsed-add_use other ref t u;
}

Grows-try_emplace : (ref : Reference) (t : Target) → Grows t (try_emplace ref t)
Grows-try_emplace ref t = record {
  keys = AreKeys-try_emplace ref t;
  uses = λ other u. IsUsed-try_emplace other ref t u;
}

module _ (qt : Qt) (host : Result Architecture) (c : RepositoryCache)
    (list_remote : FuzzyReference → Result (List PackageInfoV2)) where
  abbrev pub Resolves : Text → Reference → Type 0
  Resolves text ref = resolve qt host c list_remote text ≡ some (ok ref)

  count_use_cases :
      (text : Text) (t out : Target) (next : Target → Option Target)
      → count_use qt host c list_remote text t next ≡ some out
      → ((e : _) × (resolve qt host c list_remote text ≡ some (err e)) × (t ≡ out))
        ⊎ ((ref : Reference) × Resolves text ref × (next (add_use ref t) ≡ some out))
  unfolding count_use
  count_use_cases text t out next h = elim (Option-cases (resolve qt host c list_remote text)) [
    | inl gone ↦ cc (rw (gone, count_use) at h)
    | inr (r, there) ↦ elim (Result-cases r) [
      | inl (ref, e) ↦ inr (ref, there ∙ ap some e, rw (there, e, count_use) at h)
      | inr (m, e) ↦ inl (m, there ∙ ap some e, cc (rw (there, e, count_use) at h))
    ]
  ]

  count_use-Grows :
      (text : Text) (t out : Target) (next : Target → Option Target)
      → ((u : Target) → next u ≡ some out → Grows u out)
      → count_use qt host c list_remote text t next ≡ some out
      → Grows t out
  count_use-Grows text t out next rest h = elim (count_use_cases text t out next h) [
    | inl (_, _, same) ↦ Grows-eq t out same
    | inr (ref, _, k) ↦
        Grows-trans t (add_use ref t) out (Grows-add_use ref t) (rest (add_use ref t) k)
  ]

  -- What is found for a text is used afterwards.
  count_use-IsUsed :
      (text : Text) (t out : Target) (next : Target → Option Target) (ref : Reference)
      → ((u : Target) → next u ≡ some out → Grows u out)
      → Resolves text ref
      → count_use qt host c list_remote text t next ≡ some out
      → IsUsed ref out
  count_use-IsUsed text t out next ref rest found h = elim (count_use_cases text t out next h) [
    | inl (_, bad, _) ↦ cc (bad, found)
    | inr (other, there, k) ↦
        let same : other ≡ ref = cc (there, found) in
        (rest (add_use other t) k).uses ref (rw same (add_use-IsUsed ref t))
  ]

  last : (u out : Target) → some u ≡ some out → Grows u out
  last u out h = Grows-eq u out (cc h)

  base_only :
      (info : PackageInfoV2) (u out : Target)
      → count_use qt host c list_remote info.base u some ≡ some out
      → Grows u out
  base_only info u out h = count_use-Grows info.base u out some (λ v k. last v out k) h

  count_app-Grows :
      (info : PackageInfoV2) (t out : Target)
      → count_app qt host c list_remote info t ≡ some out
      → Grows t out
  unfolding count_app
  count_app-Grows info t out h = elim (Option-cases info.runtime) [
    | inl e ↦ base_only info t out (rw (e, count_app) at h)
    | inr (runtime, e) ↦
        count_use-Grows runtime t out _ (λ u k. base_only info u out k) (rw (e, count_app) at h)
  ]

  count_package-Grows :
      (info : PackageInfoV2) (t out : Target)
      → count_package qt host c list_remote info t ≡ some out
      → Grows t out
  unfolding count_package
  count_package-Grows info t out h = elim (Bool-cases (is_main info)) [
    | inr other ↦ Grows-eq t out (ground arith)
    | inl main ↦ elim (Bool-cases (is_app info)) [
      | inl app ↦ count_app-Grows info t out (rw (main, app, count_package) at h)
      | inr no_app ↦ elim (Option-cases (Reference.from_package_info qt info)) [
        | inl gone ↦ ground arith
        | inr (r, there) ↦ elim (Result-cases r) [
          | inl (ref, e) ↦
              let same : try_emplace ref t ≡ out = ground arith in
              Grows-trans t (try_emplace ref t) out (Grows-try_emplace ref t)
                (Grows-eq (try_emplace ref t) out same)
          | inr (m, e) ↦ Grows-eq t out (ground arith)
        ]
      ]
    ]
  ]

  count_all-Grows :
      (infos : List PackageInfoV2) (t out : Target)
      → count_all qt host c list_remote infos t ≡ some out
      → Grows t out
  unfolding count_all
  count_all-Grows [] t out h = last t out h
  count_all-Grows (info ∷ rest) t out h =
      let (more, first, later) = >>=-eq-some _ _ h in
      Grows-trans t more out (count_package-Grows info t more first)
        (count_all-Grows rest more out later)

  -- An application needs what its runtime stands for, and what its base stands for unless it has a
  -- runtime for which nothing is found.
  pub data Needs (info : PackageInfoV2) (ref : Reference) : Type 0 where
    needs_runtime :
        (runtime : Text) → info.runtime ≡ some runtime → Resolves runtime ref → Needs info ref
    needs_base : info.runtime ≡ none → Resolves info.base ref → Needs info ref
    needs_both :
        (runtime : Text) (other : Reference)
        → info.runtime ≡ some runtime
        → Resolves runtime other
        → Resolves info.base ref
        → Needs info ref

  count_app-IsUsed :
      (info : PackageInfoV2) (t out : Target) (ref : Reference)
      → Needs info ref
      → count_app qt host c list_remote info t ≡ some out
      → IsUsed ref out
  unfolding count_app
  count_app-IsUsed info t out ref (needs_runtime runtime e found) h =
      count_use-IsUsed runtime t out _ ref (λ u k. base_only info u out k) found
        (rw (e, count_app) at h)
  count_app-IsUsed info t out ref (needs_base e found) h =
      count_use-IsUsed info.base t out some ref (λ u k. last u out k) found (rw (e, count_app) at h)
  count_app-IsUsed info t out ref (needs_both runtime other e there found) h =
      elim (count_use_cases runtime t out _ (rw (e, count_app) at h)) [
        | inl (_, bad, _) ↦ cc (bad, there)
        | inr (_, _, k) ↦ count_use-IsUsed info.base _ out some ref (λ u k. last u out k) found k
      ]

  app_round :
      (info : PackageInfoV2) (t out : Target)
      → is_main info ≡ true
      → is_app info ≡ true
      → count_package qt host c list_remote info t ≡ some out
      → count_app qt host c list_remote info t ≡ some out
  unfolding count_package
  app_round info t out main app h = rw (main, app, count_package) at h

  count_all-IsUsed :
      (infos : List PackageInfoV2) (t out : Target)
      → count_all qt host c list_remote infos t ≡ some out
      → All
          (λ info.
            (ref : Reference)
            → is_main info ≡ true
            → is_app info ≡ true
            → Needs info ref
            → IsUsed ref out)
          infos
  unfolding count_all
  count_all-IsUsed [] t out h = tt
  count_all-IsUsed (info ∷ rest) t out h =
      let (more, first, later) =
        >>=-eq-some (count_package qt host c list_remote info t)
          (λ u. count_all qt host c list_remote rest u) h in
      (
        λ ref main app n.
            (count_all-Grows rest more out later).uses ref
              (count_app-IsUsed info t more ref n (app_round info t more main app first)),
        count_all-IsUsed rest more out later,
      )

  not-mem-unused :
      (t : Target) (ref : Reference)
      → All (λ other. Reference.eq other ref ≡ false) (unused t)
      → ¬ (Mem ref (unused t))
  not-mem-unused t ref h m =
      let prop : IsProp (Reference.eq ref ref ≡ false) = hlevel in
      let apart = All-at (λ other. Reference.eq other ref ≡ false) ref (unused t) prop m h in
      cc (sym apart ∙ (eq_iff_reference ref ref).1 refl)

  -- If the counting ends, no reference that an application among the local packages needs is among
  -- those that `Prune` removes: what the runtime of the application stands for, and what its base
  -- stands for, unless a runtime is given for which nothing is found.
  pub targets-needed :
      (t : Target) (info : PackageInfoV2) (ref : Reference)
      → targets qt host c list_remote ≡ some t
      → Mem info (list_local c)
      → is_main info ≡ true
      → is_app info ≡ true
      → Needs info ref
      → ¬ (Mem ref (unused t))
  unfolding targets
  targets-needed t info ref h m main app needs =
      let prop : IsProp
          (is_main info ≡ true → is_app info ≡ true → Needs info ref → ¬ (Mem ref (unused t))) =
        hlevel in
      let keys = (count_all-Grows (list_local c) [] t h).keys tt in
      All-at (λ i. is_main i ≡ true → is_app i ≡ true → Needs i ref → ¬ (Mem ref (unused t))) info
        (list_local c) prop m
        (All-map (λ i k a b n. not-mem-unused t ref (unused-IsUsed ref t keys (k ref a b n)))
          (list_local c) (count_all-IsUsed (list_local c) [] t h))
        main app needs
