-- ===== src/PackageManager/Install/Installed.antt =====
-- What is in the cache after an installation that succeeded.
use mathlib.Core.List.{Mem}
use linglong.Prelude.{
  ◌≡◌, ◌≢◌, refl, sym, ap, ◌∙◌, inl, inr, Bool-cases, Option, none, some, List, ◌++◌,
}
use linglong.Prelude.Text.{Text, codes}
use linglong.Prelude.Result.{ok, Result-cases}
use linglong.Api.{LayersItem, RepositoryCache, failed, succeed, post_action}
use linglong.Utils.Transaction.{Transaction, start, add_roll_back, commit, run_all, destroy}
use linglong.Package.Qt.{Qt}
use linglong.Package.Version
use linglong.Package.Reference
use linglong.Package.Reference.{Reference}
use linglong.Repo.Layers.{get_layer_item, get_module_list}
use linglong.Repo.Layers.Marks.{get_layer_item-IsOnly}
use linglong.Task.{Double, Task, report_error}
use linglong.Task.Reports.{IsOpen, SameParts-IsOpen, sub_state_report, failed_report}
use linglong.PackageManager.Prune.{is_app}
use linglong.PackageManager.Prune.Kept.{IsOf, get_layer_item-IsOf}
use linglong.PackageManager.World.{
  Env, World, set_state, set_sub_state, export_reference, merge_world,
}
use linglong.PackageManager.World.Kept.{KeepsTask, start-KeepsTask, add-KeepsTask, merge_world-task}
use linglong.PackageManager.Uninstall.{undo_install}
use linglong.PackageManager.Replace.{remove_after_install}
use linglong.PackageManager.Replace.Keeps.{remove_after_install-Replaced}
use linglong.PackageManager.Install.{finish_install, replace_old, after_install_ref}

-- The versions have different texts.
abbrev pub Differs : Qt → Reference → Option Reference → Type 0
Differs qt new none = Unit
Differs qt new (some old) = Version.to_string qt new.version ≢ Version.to_string qt old.version

get_layer_item-mem :
    (qt : Qt) (c : RepositoryCache) (ref : Reference) (name : Text) (item : LayersItem)
    → get_layer_item qt c ref name none ≡ ok item
    → Mem item c.layers
get_layer_item-mem qt c ref name item h = elim (get_layer_item-IsOnly qt c ref name none item h) [
  | inl (_, there, _) ↦ there
  | inr (_, _, (_, there, _)) ↦ there
]

report_error-failed :
    {d : Double} (t : Task d) (message : Text) → (report_error t message).state ≡ failed
unfolding report_error
report_error-failed t message = refl

undo_install-task :
    {d : Double} (env : Env) (ref : Reference) (names : List Text) (w : World d)
    → (undo_install env ref names w).task ≡ w.task
unfolding undo_install
undo_install-task env ref names w = refl

module _ {d : Double} (env : Env) (new : Reference) where
  -- A layer of the reference is in the cache.
  abbrev pub Installed : World d → Type 0
  Installed w = (l : LayersItem) × IsOf env.qt new l × Mem l w.repo.cache.layers

  finish_install-Installed :
      (tx : Transaction (World d)) (w : World d)
      → Installed w
      → Installed (finish_install env new tx w)
  unfolding finish_install set_state destroy commit run_all
  finish_install-Installed tx w there = there

  not_succeed :
      (tx : Transaction (World d)) (w : World d)
      → KeepsTask tx
      → w.task.state ≡ failed
      → ¬ ((destroy tx w).task.state ≡ succeed)
  not_succeed tx w keeps state ended = cc (sym (ap (λ t. t.state) (keeps w) ∙ state) ∙ ended)

  replace_old-Installed :
      (old : Option Reference) (tx : Transaction (World d)) (w : World d)
      → KeepsTask tx
      → IsOpen w.task
      → Differs env.qt new old
      → Installed w
      → (replace_old env new old tx w).task.state ≡ succeed
      → Installed (replace_old env new old tx w)
  unfolding replace_old export_reference set_state
  replace_old-Installed none tx w keeps left differs there ended =
      finish_install-Installed tx (export_reference new w) there
  replace_old-Installed (some old) tx w keeps left differs (l, own, there) ended =
      let names = get_module_list env.qt w.repo.cache old in
      let p = remove_after_install env old new names w in
      let other : ¬ (IsOf env.qt old l) = λ is_old. differs (sym own.version ∙ is_old.version) in
      let (task, kept) = remove_after_install-Replaced env old new l names w other there in
      elim (Result-cases p.0) [
        | inl (tt, done) ↦
            rw (done, replace_old) (finish_install-Installed tx p.1 (l, own, kept done))
        | inr (e, bad) ↦
            let message =
              codes "Failed to remove old reference "
              ++ (Reference.to_string env.qt old
                  ++ (codes " after install " ++ Reference.to_string env.qt new)) in
            let left₁ : IsOpen p.1.task = rw task left in
            let (_, state, _) = failed_report p.1.task message left₁ in
            absurd (
              not_succeed tx (set_state failed message p.1) keeps state
                (rw (bad, replace_old) at ended))
      ]

  -- When the part after `InstallRef` ends in success, a layer of the new reference is in the cache, as
  -- long as a part of the task is left and the old version differs from the new one.
  pub after_install_ref-Installed :
      (old : Option Reference) (names : List Text) (w : World d)
      → IsOpen w.task
      → Differs env.qt new old
      → (after_install_ref env new old names w).task.state ≡ succeed
      → Installed (after_install_ref env new old names w)
  unfolding after_install_ref set_sub_state
  after_install_ref-Installed old names w left differs ended =
      let w₁ = set_sub_state post_action (codes "processing after install") w in
      let (parts, _, _) = sub_state_report w.task post_action (codes "processing after install") in
      let w' = merge_world env w₁ in
      let left' : IsOpen w'.task =
        rw (merge_world-task env w₁) (SameParts-IsOpen w.task w₁.task parts left) in
      let tx = add_roll_back start (undo_install env new names) in
      let keeps : KeepsTask tx =
        add-KeepsTask start (undo_install env new names) start-KeepsTask
          (undo_install-task env new names) in
      elim (Result-cases (get_layer_item env.qt w'.repo.cache new (codes "binary") none)) [
        | inr (e, bad) ↦ absurd (
            not_succeed tx (record w' { task = report_error w'.task (codes e) }) keeps
              (report_error-failed w'.task (codes e)) (rw (bad, after_install_ref) at ended))
        | inl (layer, found) ↦
            let own =
              get_layer_item-IsOf env.qt w'.repo.cache new (codes "binary") none layer found in
            let there = get_layer_item-mem env.qt w'.repo.cache new (codes "binary") layer found in
            elim (Bool-cases (is_app layer.info)) [
              | inl app ↦
                  rw (found, app, after_install_ref)
                    (replace_old-Installed old tx w' keeps left' differs (layer, own, there)
                      (rw (found, app, after_install_ref) at ended))
              | inr other ↦
                  rw (found, other, after_install_ref)
                    (finish_install-Installed tx w' (layer, own, there))
            ]
      ]
