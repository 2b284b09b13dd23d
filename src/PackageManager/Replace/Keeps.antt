-- ===== src/PackageManager/Replace/Keeps.antt =====
-- What `removeAfterInstall` leaves: the layers of other versions, and the task.
use mathlib.Core.List.{Mem, mem-cons, mem-cons_self, mem-cons_of_mem, not-mem-nil, Mem-prop}
use mathlib.Core.Logic.Or
use linglong.Prelude.{
  ◌≡◌, refl, sym, ap, ◌∙◌, inl, inr, Bool, true, false, Bool-cases, none, some, List, [], ◌∷◌,
  update_first, if◌then◌else◌,
}
use linglong.Prelude.Text.{Text, codes}
use linglong.Prelude.Result.{Result, ok, Result-cases}
use linglong.Api.{LayersItem}
use linglong.Utils.Transaction.{Transaction, start, add_roll_back, commit, run_all, destroy}
use linglong.Package.Qt.{Qt}
use linglong.Package.Reference.{Reference}
use linglong.Repo.Cache.{RepoCache, matches}
use linglong.Repo.Layers.{mark_deleted, remove, set_mark, set_deleted}
use linglong.Repo.Layers.Marks.{mark_deleted_atomic}
use linglong.Task.{Double}
use linglong.PackageManager.Prune.Kept.{IsOf, remove-mem, get_layer_item-IsOf, matches-IsOf}
use linglong.PackageManager.World.{
  Env, World, is_ref_busy, export_reference, unexport_reference, with_repo, remove_module,
  mark_module, undo_mark, undo_remove,
}
use linglong.PackageManager.World.Kept.{
  KeepsTask, start-KeepsTask, add-KeepsTask, merge_world-layers, merge_world-task,
}
use linglong.PackageManager.Replace.{
  mark_modules, finish_replace, remove_modules, remove_after_install,
}

mem-update_first_of :
    {A : Type 0} (p : A → Bool) (f : A → A) (x : A) (xs : List A)
    → Mem x xs
    → p x ≡ false
    → Mem x (update_first p f xs)
unfolding update_first
mem-update_first_of p f x [] m h = absurd (not-mem-nil m)
mem-update_first_of p f x (y ∷ ys) m h = elim (Bool-cases (p y)) [
  | inl e ↦
      rw (e, update_first)
        (Or.elim Mem-prop (mem-cons.0 m) (λ same. cc (sym e ∙ ap p (sym same) ∙ h))
          (λ rest. mem-cons_of_mem (f y) rest))
  | inr e ↦
      rw (e, update_first)
        (Or.elim Mem-prop (mem-cons.0 m) (λ same. rw same mem-cons_self)
          (λ rest. mem-cons_of_mem y (mem-update_first_of p f x ys rest h)))
]

mark_deleted-mem :
    (qt : Qt) (v : Text) (l : LayersItem) (ref : Reference) (flag : Bool) (name : Text)
    (r : RepoCache)
    → ¬ (IsOf qt ref l)
    → Mem l r.cache.layers
    → Mem l (mark_deleted qt v ref flag name none r).1.cache.layers
unfolding set_mark
mark_deleted-mem qt v l ref flag name r other m =
    elim (mark_deleted_atomic qt v ref name none flag r) [
      | inr (e, _, same) ↦ rw same m
      | inl (item, found, marked) ↦ elim marked [
        | inr (e, _, same, _, _) ↦ rw same m
        | inl (_, now, _) ↦ elim (Bool-cases (matches item l)) [
          | inl hit ↦ absurd (
              other (
                matches-IsOf qt ref item l hit
                  (get_layer_item-IsOf qt r.cache ref name none item found)))
          | inr apart ↦ rw now (
              mem-update_first_of (matches item) (set_deleted (if flag then some true else none)) l
                r.cache.layers m apart)
        ]
      ]
    ]

module _ {d : Double} (env : Env) (old new : Reference) (l : LayersItem) where
  -- The task is the same, and the layer is still there unless there was an error.
  abbrev Replaced : World d → Result (Unit {0}) × World d → Type 0
  Replaced w p = (p.1.task ≡ w.task) × (p.0 ≡ ok tt → Mem l p.1.repo.cache.layers)

  mark_modules-Replaced :
      (names : List Text) (tx : Transaction (World d)) (w : World d)
      → KeepsTask tx
      → ¬ (IsOf env.qt old l)
      → Mem l w.repo.cache.layers
      → Replaced w (mark_modules env old names tx w)
  unfolding mark_modules mark_module with_repo undo_mark destroy commit run_all
  mark_modules-Replaced [] tx w keeps other m = (refl, λ _. m)
  mark_modules-Replaced (name ∷ rest) tx w keeps other m =
      let p = mark_deleted env.qt env.ll_version old true name none w.repo in
      let m₁ = mark_deleted-mem env.qt env.ll_version l old true name w.repo other m in
      elim (Result-cases p.0) [
        | inr (e, refused) ↦ rw (refused, mark_modules) (keeps (with_repo p.1 w), λ bad. cc bad)
        | inl (tt, done) ↦
            rw (done, mark_modules)
              (mark_modules-Replaced rest (add_roll_back tx (undo_mark env old false name))
                (with_repo p.1 w)
                (add-KeepsTask tx (undo_mark env old false name) keeps (λ s. refl)) other m₁)
      ]

  remove_modules-Replaced :
      (names : List Text) (tx : Transaction (World d)) (w : World d)
      → KeepsTask tx
      → ¬ (IsOf env.qt old l)
      → Mem l w.repo.cache.layers
      → Replaced w (remove_modules env old new names tx w)
  unfolding remove_modules finish_replace remove_module with_repo undo_remove destroy commit run_all
      export_reference
  remove_modules-Replaced [] tx w keeps other m =
      (merge_world-task env w, λ _. rw (merge_world-layers env w) m)
  remove_modules-Replaced (name ∷ rest) tx w keeps other m =
      let o = env.ostree old (codes "binary") in
      let p = remove env.qt env.ll_version o old (codes "binary") none w.repo in
      let m₁ =
        remove-mem env.qt env.ll_version env.ostree env.read_info l o old (codes "binary") w.repo
          other m in
      elim (Result-cases p.0) [
        | inr (e, refused) ↦ rw (refused, remove_modules) (keeps (with_repo p.1 w), λ bad. cc bad)
        | inl (tt, done) ↦
            rw (done, remove_modules)
              (remove_modules-Replaced rest (add_roll_back tx (undo_remove env old name))
                (with_repo p.1 w) (add-KeepsTask tx (undo_remove env old name) keeps (λ s. refl))
                other m₁)
      ]

  -- A layer of another version stays when the removal of the old one succeeds, and the task is the
  -- same in any case.
  pub remove_after_install-Replaced :
      (names : List Text) (w : World d)
      → ¬ (IsOf env.qt old l)
      → Mem l w.repo.cache.layers
      → Replaced w (remove_after_install env old new names w)
  unfolding remove_after_install unexport_reference
  remove_after_install-Replaced names w other m = elim (Result-cases (is_ref_busy env old)) [
    | inr (e, bad) ↦ rw (bad, remove_after_install) (refl, λ e'. cc e')
    | inl (true, busy) ↦
        rw (busy, remove_after_install)
          (mark_modules-Replaced names start w start-KeepsTask other m)
    | inl (false, idle) ↦
        rw (idle, remove_after_install)
          (remove_modules-Replaced names (add_roll_back start (export_reference old))
            (unexport_reference old w)
            (add-KeepsTask start (export_reference old) start-KeepsTask
              (λ s. unfold export_reference in refl))
            other m)
  ]
