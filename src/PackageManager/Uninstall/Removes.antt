-- ===== src/PackageManager/Uninstall/Removes.antt =====
-- What an uninstallation leaves in the cache.
use linglong.Prelude.{
  suc, ◌+◌, ◌≡◌, refl, sym, ap, ◌∙◌, ◌⊎◌, inl, inr, true, false, not, none, List, [], ◌∷◌, ◌++◌,
  length, keep, arith,
}
use linglong.Prelude.Text.{Text, codes}
use linglong.Prelude.Result.{Result-cases}
use linglong.Api.{failed, succeed, all_done, uninstall, processing, pre_action}
use linglong.Utils.Transaction.{Transaction, start, add_roll_back, commit, run_all, destroy}
use linglong.Package.Reference
use linglong.Package.Reference.{Reference}
use linglong.Repo.Pull.{is_main_name}
use linglong.Repo.Cache.{selects}
use linglong.Repo.Layers.{get_module_list, remove}
use linglong.Task.{Double, is_done}
use linglong.Task.Reports.{
  IsOpen, failed_report, processing_report, sub_state_report, SameParts-IsOpen,
}
use linglong.PackageManager.World.{
  Env, World, is_task_done, set_state, set_sub_state, with_repo, remove_module, undo_remove,
  export_reference, unexport_reference,
}
use linglong.PackageManager.World.Kept.{
  KeepsTask, start-KeepsTask, add-KeepsTask, merge_world-layers,
}
use linglong.PackageManager.Uninstall.{
  uninstall_modules, uninstall_ref, finish_uninstall, uninstall_package,
}
use linglong.PackageManager.Uninstall.Shrinks.{
  all_of, own_layers, other_layers, remove-Shrinks, own_layers-none,
}

module _ {d : Double} (env : Env) (ref : Reference) where
  -- The modules were removed, or the task ended.
  abbrev Uninstalled : List Text → World d → World d → Type 0
  Uninstalled names w w' =
      ((w'.task ≡ w.task)
        × (length w'.repo.cache.layers + length names ≡ length w.repo.cache.layers)
        × (other_layers env.qt ref w'.repo ≡ other_layers env.qt ref w.repo))
      ⊎ ((w'.task.state ≡ failed) × (w'.task.sub_state ≡ all_done))

  shrink-Uninstalled :
      (name : Text) (rest : List Text) (w w₁ w' : World d)
      → w₁.task ≡ w.task
      → suc (length w₁.repo.cache.layers) ≡ length w.repo.cache.layers
      → other_layers env.qt ref w₁.repo ≡ other_layers env.qt ref w.repo
      → Uninstalled rest w₁ w'
      → Uninstalled (name ∷ rest) w w'
  shrink-Uninstalled name rest w w₁ w' task fewer others (inl (task', count, others')) =
      inl (task' ∙ task, omega (arith, fewer, count), others' ∙ others)
  shrink-Uninstalled name rest w w₁ w' task fewer others (inr ended) = inr ended

  uninstall_modules-cases :
      (names : List Text) (tx : Transaction (World d)) (w : World d)
      → KeepsTask tx
      → IsOpen w.task
      → Uninstalled names w (uninstall_modules env ref names tx w)
  unfolding uninstall_modules remove_module destroy commit run_all with_repo set_state undo_remove
  uninstall_modules-cases [] tx w keeps left = inl (refl, omega arith, refl)
  uninstall_modules-cases (name ∷ rest) tx w keeps left =
      let p = remove env.qt env.ll_version (env.ostree ref name) ref name none w.repo in
      elim (Result-cases p.0) [
        | inr (e, refused) ↦
            let same = keeps (set_state failed (codes e) (with_repo p.1 w)) in
            let (_, state, sub_state) = failed_report w.task (codes e) left in
            rw (refused, uninstall_modules)
              (inr (ap (λ t. t.state) same ∙ state, ap (λ t. t.sub_state) same ∙ sub_state))
        | inl (tt, done) ↦
            let w₁ = with_repo p.1 w in
            let tx₁ = add_roll_back tx (undo_remove env ref name) in
            let keeps₁ = add-KeepsTask tx (undo_remove env ref name) keeps (λ s. refl) in
            let (fewer, others) =
              remove-Shrinks env.qt env.ll_version (env.ostree ref name) ref name w.repo done in
            rw (done, uninstall_modules)
              (shrink-Uninstalled name rest w w₁ (uninstall_modules env ref rest tx₁ w₁) refl fewer
                others (uninstall_modules-cases rest tx₁ w₁ keeps₁ left))
      ]

  -- No layer of the reference is left, and every other one.
  abbrev pub Gone : World d → World d → Type 0
  Gone w w' =
      (own_layers env.qt ref w'.repo ≡ [])
      × (other_layers env.qt ref w'.repo ≡ other_layers env.qt ref w.repo)

  uninstall_ref-cases :
      (w : World d)
      → IsOpen w.task
      → is_task_done w ≡ false
      → let w' = uninstall_ref env ref (get_module_list env.qt w.repo.cache ref) w in
        (Gone w w' × (is_task_done w' ≡ false))
        ⊎ ((w'.task.state ≡ failed) × (is_task_done w' ≡ true))
  unfolding uninstall_ref set_sub_state is_task_done is_done
  uninstall_ref-cases w left running =
      let w₁ = set_sub_state uninstall (codes "Remove layer files") w in
      let (parts, _, now) = sub_state_report w.task uninstall (codes "Remove layer files") in
      let names = get_module_list env.qt w.repo.cache ref in
      let w' = uninstall_modules env ref names start w₁ in
      rw (running, uninstall_ref)
        (elim (uninstall_modules-cases names start w₁ start-KeepsTask
          (SameParts-IsOpen w.task w₁.task parts left)) [
            | inl (task, count, others) ↦ inl (
              (own_layers-none env.qt ref w.repo w'.repo count others, others),
              ap (λ t. is_done t.sub_state) task ∙ ap is_done now,
            )
            | inr (state, sub_state) ↦ inr (state, ap is_done sub_state)
          ])

  finish_uninstall-Gone :
      (tx : Transaction (World d)) (w w' : World d)
      → KeepsTask tx
      → (Gone w w' × (is_task_done w' ≡ false))
        ⊎ ((w'.task.state ≡ failed) × (is_task_done w' ≡ true))
      → (finish_uninstall env ref tx w').task.state ≡ succeed
      → Gone w (finish_uninstall env ref tx w')
  unfolding finish_uninstall set_state destroy commit run_all
  finish_uninstall-Gone tx w w' keeps (inr (state, done)) ended =
      let ended' : (destroy tx w').task.state ≡ succeed = rw (done, finish_uninstall) at ended in
      cc (sym (ap (λ t. t.state) (keeps w') ∙ state) ∙ ended')
  finish_uninstall-Gone tx w w' keeps (inl ((none_left, others), going)) ended =
      let message = codes "Uninstall " ++ (Reference.to_string env.qt ref ++ codes " success") in
      let same = merge_world-layers env (set_state succeed message w') in
      rw (going, finish_uninstall)
        (
          ap (keep (selects (all_of env.qt ref))) same ∙ none_left,
          ap (keep (λ l. not (selects (all_of env.qt ref) l))) same ∙ others,
        )

  -- The uninstallation of the main module of a package that ends in success leaves no layer of the
  -- reference in the cache, and every layer of the others in its place, as long as a part of the
  -- task is left.
  pub uninstall_package_removes :
      (name : Text) (w : World d)
      → IsOpen w.task
      → is_task_done w ≡ false
      → is_main_name name ≡ true
      → (uninstall_package env ref name w).task.state ≡ succeed
      → Gone w (uninstall_package env ref name w)
  unfolding uninstall_package set_sub_state set_state unexport_reference
  uninstall_package_removes name w left running main ended =
      let (parts₁, state₁, same₁) =
        processing_report w.task (codes "start to uninstalling package") left in
      let w₁ = set_state processing (codes "start to uninstalling package") w in
      let left₁ = SameParts-IsOpen w.task w₁.task parts₁ left in
      let (parts₂, state₂, now₂) =
        sub_state_report w₁.task pre_action (codes "prepare uninstalling package") in
      let w₂ = set_sub_state pre_action (codes "prepare uninstalling package") w₁ in
      let left₂ = SameParts-IsOpen w₁.task w₂.task parts₂ left₁ in
      let w₃ = unexport_reference ref w₂ in
      let tx : Transaction (World d) = add_roll_back start (export_reference ref) in
      let names = get_module_list env.qt w.repo.cache ref in
      rw (running, main, uninstall_package)
        (finish_uninstall-Gone tx w (uninstall_ref env ref names w₃)
          (add-KeepsTask start (export_reference ref) start-KeepsTask
            (λ s. unfold export_reference in refl))
          (uninstall_ref-cases w₃ left₂
            (unfold is_task_done in ap is_done now₂ ∙ unfold is_done in refl))
          (rw (running, main, uninstall_package) at ended))
