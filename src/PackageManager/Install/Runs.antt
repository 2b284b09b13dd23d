-- ===== src/PackageManager/Install/Runs.antt =====
-- `InstallRef` reports no success, step by step.
use mathlib.Core.Path.{subst}
use linglong.Prelude.{
  ◌≡◌, refl, sym, ◌⊎◌, inl, inr, Bool, true, false, not, Bool-cases, Option-cases, some, List, [],
  ◌∷◌, ◌++◌,
}
use linglong.Prelude.Partial.{>>=-eq-some}
use linglong.Prelude.Text.{Text, codes}
use linglong.Prelude.Result.{Result-cases}
use linglong.Api.{PackageInfoV2, SubState, failed, install_base, install_runtime}
use linglong.Utils.Transaction.{Transaction, start, add_roll_back, commit, destroy}
use linglong.Utils.Transaction.Undo.{destroy-commit}
use linglong.Package.Reference
use linglong.Package.Reference.{Reference}
use linglong.Repo.Pull.{is_main_name}
use linglong.Task.{Double}
use linglong.PackageManager.Prune.{is_app}
use linglong.PackageManager.World.{
  Env, World, is_task_done, set_state, set_sub_state, with_repo, pull_module, undo_pull, undo_mark,
  get_layer_dir,
}
use linglong.PackageManager.Requests.Sound.{found-cases, some-inj}
use linglong.PackageManager.Install.Unfinished.{
  IsUnfinished, failed-IsUnfinished, sub_state-IsUnfinished, pull-IsUnfinished,
}
use linglong.PackageManager.World.Kept.{KeepsTask, start-KeepsTask, add-KeepsTask}
use linglong.PackageManager.Dependencies.{
  present, pulled, stopped, Obtained, resolve_dependency, obtain, pull_base, pull_runtime,
  pull_dependency,
}
use linglong.PackageManager.Install.{pull_needed, pull_modules}

obtained-cases : (how : Obtained) → (how ≡ stopped) ⊎ ((how ≡ present) ⊎ (how ≡ pulled))
obtained-cases stopped = inl refl
obtained-cases present = inr (inl refl)
obtained-cases pulled = inr (inr refl)

module _ {d : Double} (env : Env) where
  -- The task of the state is unfinished.
  abbrev pub Fine : World d → Type 0
  Fine w = IsUnfinished w.task

  pull_module-Fine :
      (ref : Reference) (name : Text) (w : World d) → Fine w → Fine (pull_module env ref name w)
  unfolding pull_module
  pull_module-Fine ref name w h =
      pull-IsUnfinished env.qt env.ll_version env.remote ref name w.repo w.task h

  pub set_failed-Fine : (message : Text) (w : World d) → Fine w → Fine (set_state failed message w)
  unfolding set_state
  set_failed-Fine message w h = failed-IsUnfinished w.task message h

  pub set_sub_state-Fine :
      (s : SubState) (message : Text) (w : World d) → Fine w → Fine (set_sub_state s message w)
  unfolding set_sub_state
  set_sub_state-Fine s message w h = sub_state-IsUnfinished w.task s message h

  pub destroy-Fine :
      (tx : Transaction (World d)) (w : World d) → KeepsTask tx → Fine w → Fine (destroy tx w)
  destroy-Fine tx w keeps h = subst IsUnfinished (sym (keeps w)) h

  commit-Fine : (tx : Transaction (World d)) (w : World d) → Fine w → Fine (destroy (commit tx) w)
  commit-Fine tx w h = subst Fine (sym (destroy-commit tx w)) h

  undo_pull-KeepsTask :
      (tx : Transaction (World d)) (ref : Reference) (name : Text)
      → KeepsTask tx
      → KeepsTask (add_roll_back tx (undo_pull env ref name))
  unfolding undo_pull with_repo
  undo_pull-KeepsTask tx ref name keeps =
      add-KeepsTask tx (undo_pull env ref name) keeps (λ w. refl)

  pub undo_mark-KeepsTask :
      (tx : Transaction (World d)) (ref : Reference) (name : Text)
      → KeepsTask tx
      → KeepsTask (add_roll_back tx (undo_mark env ref true name))
  unfolding undo_mark with_repo
  undo_mark-KeepsTask tx ref name keeps =
      add-KeepsTask tx (undo_mark env ref true name) keeps (λ w. refl)

  obtain-Fine :
      (ref : Reference) (dir_name name : Text) (w : World d)
      → Fine w
      → Fine (obtain env ref dir_name name w).1
  unfolding obtain
  obtain-Fine ref dir_name name w h = elim (Result-cases (get_layer_dir env ref dir_name w.repo)) [
    | inl (item, e) ↦ rw (e, obtain) h
    | inr (e, k) ↦ elim (Bool-cases (is_task_done w)) [
      | inl done ↦ rw (k, done, obtain) h
      | inr left ↦ elim (Bool-cases (is_task_done (pull_module env ref name w))) [
        | inl done ↦ rw (k, left, done, obtain) (pull_module-Fine ref name w h)
        | inr more ↦ rw (k, left, more, obtain) (pull_module-Fine ref name w h)
      ]
    ]
  ]

  pull_base-Fine :
      (info : PackageInfoV2) (name : Text) (tx : Transaction (World d)) (w w' : World d)
      → KeepsTask tx
      → Fine w
      → pull_base env info name tx w ≡ some w'
      → Fine w'
  unfolding pull_base
  pull_base-Fine info name tx w w' keeps fine h =
      elim (found-cases (resolve_dependency env info.base w.repo)) [
        | inl e ↦ cc (rw (e, pull_base) at h)
        | inr (inl (e, k)) ↦
            let done : some (destroy tx (set_state failed (codes e) w)) ≡ some w' =
              rw (k, pull_base) at h in
            subst Fine (some-inj done) (
              destroy-Fine tx (set_state failed (codes e) w) keeps
                (set_failed-Fine (codes e) w fine))
        | inr (inr (base, k)) ↦
            let w₁ =
              set_sub_state install_base
                (codes "Installing base " ++ Reference.to_string env.qt base) w in
            let fine₁ = set_sub_state-Fine install_base _ w fine in
            let p = obtain env base name name w₁ in
            let fine₂ = obtain-Fine base name name w₁ fine₁ in
            elim (obtained-cases p.0) [
              | inl e ↦
                  let done : some (destroy tx p.1) ≡ some w' = rw (k, e, pull_base) at h in
                  subst Fine (some-inj done) (destroy-Fine tx p.1 keeps fine₂)
              | inr (inl e) ↦
                  let done : some (destroy (commit tx) p.1) ≡ some w' = rw (k, e, pull_base) at h in
                  subst Fine (some-inj done) (commit-Fine tx p.1 fine₂)
              | inr (inr e) ↦
                  let done : some (destroy (commit tx) p.1) ≡ some w' = rw (k, e, pull_base) at h in
                  subst Fine (some-inj done) (commit-Fine tx p.1 fine₂)
            ]
      ]

  pull_runtime-Fine :
      (info : PackageInfoV2) (text name : Text) (w w' : World d)
      → Fine w
      → pull_runtime env info text name w ≡ some w'
      → Fine w'
  unfolding pull_runtime
  pull_runtime-Fine info text name w w' fine h =
      elim (found-cases (resolve_dependency env text w.repo)) [
        | inl e ↦ cc (rw (e, pull_runtime) at h)
        | inr (inl (e, k)) ↦
            let done : some (set_state failed (codes e) w) ≡ some w' = rw (k, pull_runtime) at h in
            subst Fine (some-inj done) (set_failed-Fine (codes e) w fine)
        | inr (inr (runtime, k)) ↦
            let w₁ =
              set_sub_state install_runtime
                (codes "Installing runtime " ++ Reference.to_string env.qt runtime) w in
            let fine₁ = set_sub_state-Fine install_runtime _ w fine in
            let p = obtain env runtime (codes "binary") name w₁ in
            let fine₂ = obtain-Fine runtime (codes "binary") name w₁ fine₁ in
            elim (obtained-cases p.0) [
              | inl e ↦
                  let done : some p.1 ≡ some w' = rw (k, e, pull_runtime) at h in
                  subst Fine (some-inj done) fine₂
              | inr (inl e) ↦
                  pull_base-Fine info name start p.1 w' start-KeepsTask fine₂
                    (rw (k, e, pull_runtime) at h)
              | inr (inr e) ↦
                  pull_base-Fine info name (add_roll_back start (undo_pull env runtime name)) p.1 w'
                    (undo_pull-KeepsTask start runtime name start-KeepsTask) fine₂
                    (rw (k, e, pull_runtime) at h)
            ]
      ]

  pull_dependency-Fine :
      (info : PackageInfoV2) (name : Text) (w w' : World d)
      → Fine w
      → pull_dependency env info name w ≡ some w'
      → Fine w'
  unfolding pull_dependency
  pull_dependency-Fine info name w w' fine h = elim (Bool-cases (not (is_app info))) [
    | inl e ↦
        let done : some w ≡ some w' = rw (e, pull_dependency) at h in
        subst Fine (some-inj done) fine
    | inr e ↦ elim (Bool-cases (not (is_main_name name))) [
      | inl k ↦
          let done : some w ≡ some w' = rw (e, k, pull_dependency) at h in
          subst Fine (some-inj done) fine
      | inr k ↦ elim (Option-cases info.runtime) [
        | inl n ↦
            pull_base-Fine info name start w w' start-KeepsTask fine
              (rw (e, k, n, pull_dependency) at h)
        | inr (text, n) ↦
            pull_runtime-Fine info text name w w' fine (rw (e, k, n, pull_dependency) at h)
      ]
    ]
  ]

  pull_needed-Fine :
      (ref : Reference) (w : World d) (p : Bool × World d)
      → Fine w
      → pull_needed env ref w ≡ some p
      → Fine p.1
  unfolding pull_needed
  pull_needed-Fine ref w p fine h =
      elim (Result-cases (get_layer_dir env ref (codes "binary") w.repo)) [
        | inr (e, k) ↦
            let done : some (false, set_state failed (codes e) w) ≡ some p =
              rw (k, pull_needed) at h in
            subst (λ q. Fine q.1) (some-inj done) (set_failed-Fine (codes e) w fine)
        | inl (item, k) ↦ elim (Result-cases (env.read_info item)) [
          | inr (e, n) ↦
              let done : some (false, set_state failed (codes e) w) ≡ some p =
                rw (k, n, pull_needed) at h in
              subst (λ q. Fine q.1) (some-inj done) (set_failed-Fine (codes e) w fine)
          | inl (info, n) ↦
              let (w', there, done) =
                >>=-eq-some (pull_dependency env info (codes "binary") w) (λ w'. some (true, w'))
                  (rw (k, n, pull_needed) at h) in
              subst (λ q. Fine q.1) (some-inj done)
                (pull_dependency-Fine info (codes "binary") w w' fine there)
        ]
      ]

  pub pull_modules-Fine :
      (ref : Reference) (names : List Text) (tx : Transaction (World d)) (w w' : World d)
      → KeepsTask tx
      → Fine w
      → pull_modules env ref names tx w ≡ some w'
      → Fine w'
  unfolding pull_modules
  pull_modules-Fine ref [] tx w w' keeps fine h = subst Fine (some-inj h) (commit-Fine tx w fine)
  pull_modules-Fine ref (name ∷ rest) tx w w' keeps fine h =
      let w₁ = pull_module env ref name w in
      let fine₁ = pull_module-Fine ref name w fine in
      let tx' = add_roll_back tx (undo_pull env ref name) in
      let keeps' = undo_pull-KeepsTask tx ref name keeps in
      elim (Bool-cases (is_task_done w)) [
        | inl e ↦
            let done : some (destroy tx w) ≡ some w' = rw (e, pull_modules) at h in
            subst Fine (some-inj done) (destroy-Fine tx w keeps fine)
        | inr e ↦ elim (Bool-cases (is_task_done w₁)) [
          | inl k ↦
              let done : some (destroy tx w₁) ≡ some w' = rw (e, k, pull_modules) at h in
              subst Fine (some-inj done) (destroy-Fine tx w₁ keeps fine₁)
          | inr k ↦ elim (Bool-cases (is_main_name name)) [
            | inr part ↦
                pull_modules-Fine ref rest tx' w₁ w' keeps' fine₁
                  (rw (e, k, part, pull_modules) at h)
            | inl main ↦
                let (p, needed, later) =
                  >>=-eq-some (pull_needed env ref w₁)
                    (λ p. elim p.0 [
                      | false ↦ some (destroy tx' p.1)
                      | true ↦ pull_modules env ref rest tx' p.1
                    ])
                    (rw (e, k, main, pull_modules) at h) in
                let fine₂ = pull_needed-Fine ref w₁ p fine₁ needed in
                elim (Bool-cases p.0) [
                  | inl go ↦ pull_modules-Fine ref rest tx' p.1 w' keeps' fine₂ (rw go at later)
                  | inr stop ↦
                      let done : some (destroy tx' p.1) ≡ some w' = rw stop at later in
                      subst Fine (some-inj done) (destroy-Fine tx' p.1 keeps' fine₂)
                ]
          ]
        ]
      ]
