-- ===== src/PackageManager/Install/Succeeds.antt =====
-- `Install` of a task, from its first report to its last.
use mathlib.Core.Path.{subst}
use linglong.Prelude.{
  ◌≡◌, ap, ◌∙◌, inl, inr, true, false, not, Bool-cases, Option-cases, Option, some, List, [], ◌∷◌,
  ◌++◌, find_first, erase_first,
}
use linglong.Prelude.Partial.{>>=-eq-some}
use linglong.Prelude.Text.{Text, codes}
use linglong.Prelude.Result.{Result-cases}
use linglong.Api.{LayersItem, failed, succeed, processing, pre_action, install_application}
use linglong.Utils.Transaction.{Transaction, start, add_roll_back}
use linglong.Package.Architecture.{same}
use linglong.Package.Reference
use linglong.Package.Reference.{Reference}
use linglong.Repo.Cache.{query_layer_item}
use linglong.Task.{Double}
use linglong.Task.Reports.{IsOpen}
use linglong.PackageManager.World.{
  Env, World, is_task_done, set_state, set_sub_state, with_repo, mark_module, undo_mark,
}
use linglong.PackageManager.World.Kept.{KeepsTask, start-KeepsTask}
use linglong.PackageManager.Requests.Sound.{some-inj}
use linglong.PackageManager.Install.{
  Stage, returned, going, is_module_of, check_arch, begin_install, unmark, restore_modules,
  pull_modules, install_ref, deleted_of, after_install_ref, install,
}
use linglong.PackageManager.Install.Unfinished.{processing-IsUnfinished}
use linglong.PackageManager.Install.Runs.{
  Fine, set_failed-Fine, set_sub_state-Fine, destroy-Fine, undo_mark-KeepsTask, pull_modules-Fine,
}
use linglong.PackageManager.Install.Installed.{Differs, Installed, after_install_ref-Installed}

module _ {d : Double} (env : Env) where
  check_arch-Fine :
      (ref : Reference) (w w' : World d) → Fine env w → check_arch env ref w ≡ some w' → Fine env w'
  unfolding check_arch
  check_arch-Fine ref w w' fine h = elim (Result-cases env.host) [
    | inr (e, k) ↦ cc (rw (k, check_arch) at h)
    | inl (arch, k) ↦ elim (Bool-cases (not (same ref.arch arch))) [
      | inr fits ↦
          let done : some w ≡ some w' = rw (k, fits, check_arch) at h in
          subst (Fine env) (some-inj done) fine
      | inl other ↦
          let done : some (set_state failed _ w) ≡ some w' = rw (k, other, check_arch) at h in
          subst (Fine env) (some-inj done) (set_failed-Fine env _ w fine)
    ]
  ]

  begin_install-Fine :
      (ref : Reference) (w w' : World d)
      → Fine env w
      → begin_install env ref w ≡ some w'
      → Fine env w'
  unfolding begin_install
  begin_install-Fine ref w w' fine h =
      let w₁ = set_sub_state pre_action (codes "Beginning to install") w in
      let (w₂, checked, later) =
        >>=-eq-some (check_arch env ref w₁)
          (λ w. some (
            set_sub_state install_application
              (codes "Installing application " ++ Reference.to_string env.qt ref) w))
          h in
      let fine₂ = check_arch-Fine ref w₁ w₂ (set_sub_state-Fine env pre_action _ w fine) checked in
      subst (Fine env) (some-inj later) (set_sub_state-Fine env install_application _ w₂ fine₂)

  unmark-Fine :
      (ref : Reference) (name : Text) (w : World d) → Fine env w → Fine env (unmark env ref name w)
  unfolding unmark with_repo
  unmark-Fine ref name w fine =
      let p = mark_module env ref false name w.repo in
      elim (Result-cases p.0) [
        | inl (tt, k) ↦ rw (k, unmark) fine
        | inr (e, k) ↦
            rw (k, unmark) (set_failed-Fine env (codes "install failed") (with_repo p.1 w) fine)
      ]

  -- The same of a stage, whose transaction leaves the task alone.
  abbrev FineStage : Stage d → Type 0
  FineStage (returned w) = Fine env w
  FineStage (going names tx w) = KeepsTask tx × Fine env w

  restore_modules-Fine :
      (ref : Reference) (items : List LayersItem) (names : List Text) (tx : Transaction (World d))
      (w : World d)
      → KeepsTask tx
      → Fine env w
      → FineStage (restore_modules env ref items names tx w)
  unfolding restore_modules
  restore_modules-Fine ref [] names tx w keeps fine = (keeps, fine)
  restore_modules-Fine ref (item ∷ rest) names tx w keeps fine =
      elim (Bool-cases (is_task_done w)) [
        | inl done ↦ rw (done, restore_modules) (destroy-Fine env tx w keeps fine)
        | inr more ↦ elim (Option-cases (find_first (is_module_of item) names)) [
          | inl k ↦
              rw (more, k, restore_modules) (restore_modules-Fine ref rest names tx w keeps fine)
          | inr (name, k) ↦
              let m = item.info.package_info_v2_module in
              rw (more, k, restore_modules)
                (restore_modules-Fine ref rest (erase_first (is_module_of item) names)
                  (add_roll_back tx (undo_mark env ref true m)) (unmark env ref m w)
                  (undo_mark-KeepsTask env tx ref m keeps) (unmark-Fine ref m w fine))
        ]
      ]

  pull_stage-Fine :
      (ref : Reference) (stage : Stage d) (w' : World d)
      → FineStage stage
      → (elim stage as (λ _. Option (World d)) [
        | returned w ↦ some w
        | going names tx w ↦ pull_modules env ref names tx w
      ])
        ≡ some w'
      → Fine env w'
  pull_stage-Fine ref (returned w) w' fine h = subst (Fine env) (some-inj h) fine
  pull_stage-Fine ref (going names tx w) w' (keeps, fine) h =
      pull_modules-Fine env ref names tx w w' keeps fine h

  install_ref-Fine :
      (ref : Reference) (names : List Text) (w w' : World d)
      → Fine env w
      → install_ref env ref names w ≡ some w'
      → Fine env w'
  unfolding install_ref
  install_ref-Fine ref names w w' fine h =
      let (w₁, begun, later) = >>=-eq-some (begin_install env ref w) _ h in
      let layers = query_layer_item w₁.repo.cache (deleted_of env ref) in
      pull_stage-Fine ref (restore_modules env ref layers names start w₁) w'
        (restore_modules-Fine ref layers names start w₁ start-KeepsTask
          (begin_install-Fine ref w w₁ fine begun))
        later

  -- When an installation, from its first report on, ends with a task that has succeeded, a layer of
  -- the new reference is in the cache; if a part of the task is left at its start, and the old
  -- version, if there is one, has another text than the new one.
  pub install-Installed :
      (new : Reference) (old : Option Reference) (names : List Text) (w w' : World d)
      → IsOpen w.task
      → Differs env.qt new old
      → install env new old names w ≡ some w'
      → w'.task.state ≡ succeed
      → Installed env new w'
  unfolding install set_state
  install-Installed new old names w w' left differs h ended =
      let message = codes "Installing " ++ Reference.to_string env.qt new in
      let w₁ = set_state processing message w in
      let fine₁ : Fine env w₁ = processing-IsUnfinished w.task message left in
      let (w₂, ran, later) = >>=-eq-some (install_ref env new names w₁) _ h in
      let fine₂ = install_ref-Fine new names w₁ w₂ fine₁ ran in
      elim (Bool-cases (is_task_done w₂)) [
        | inl done ↦
            let same : some w₂ ≡ some w' = rw done at later in
            absurd (fine₂.state (ap (λ w. w.task.state) (some-inj same) ∙ ended))
        | inr more ↦
            let same : some (after_install_ref env new old names w₂) ≡ some w' = rw more at later in
            subst (Installed env new) (some-inj same) (
              after_install_ref-Installed env new old names w₂ fine₂.left differs
                (ap (λ w. w.task.state) (some-inj same) ∙ ended))
      ]
