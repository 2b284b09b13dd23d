-- ===== src/Cli/Repositories/Keeps.antt =====
-- cli/cli.cpp: the configuration in use after `repo`.
use mathlib.Core.Path.{subst}
use linglong.Prelude.{
  ◌≡◌, refl, sym, ap, ◌∙◌, ◌⊎◌, inl, inr, Bool, true, false, Bool-cases, Option-cases,
}
use linglong.Prelude.Text.{Text}
use linglong.Prelude.Result.{Result-cases}
use linglong.Api.{RepoConfig}
use linglong.Utils.Transaction.{start, add_roll_back}
use linglong.Utils.Transaction.Undo.{destroy-one, destroy-add_roll_back, destroy-commit}
use linglong.Repo.Cache.Rebuild.{rebuild_cache}
use linglong.Repo.Config.{
  Settings, Outside, default_url, save_config, change_remote, undo_save, undo_remote, use_config,
  rebuild_for, set_remote, set_config,
}
use linglong.Repo.Config.Restores.{undo_remote-kept}
use linglong.PackageManager.Configuration.{is_current, set_configuration}
use linglong.Cli.Repositories.{
  Subcommand, Outcome, Exit, ends, sends, change_repos, set_repo_config, run_repo,
}
use linglong.Cli.Repositories.Edits.{IsComplete, change_repos-IsComplete}

module _ (o : Outside) where
  -- The configuration in use is the old one or the new one.
  abbrev Either : RepoConfig → Settings → Settings → Type 0
  Either config s s' = (s'.cfg ≡ s.cfg) ⊎ (s'.cfg ≡ config)

  rebuild_for-Either :
      (config : RepoConfig) (url : Text) (s : Settings)
      → Either config s
          (rebuild_for o config url
            (add_roll_back (add_roll_back start (undo_save o)) (undo_remote o))
            s).1
  unfolding rebuild_for use_config undo_save
  rebuild_for-Either config url s =
      let p = rebuild_cache o.source o.versions config s.repo in
      let tx = add_roll_back start (undo_save o) in
      let s' = record s { repo = p.1 } in
      elim (Result-cases p.0) [
        | inl (tt, fine) ↦
            rw (fine, rebuild_for)
              (inr (
                ap (λ s. s.cfg)
                  (destroy-commit (add_roll_back tx (undo_remote o)) (use_config o config url s'))))
        | inr (e, bad) ↦
            let undone =
              destroy-add_roll_back tx (undo_remote o) s'
              ∙ destroy-one (undo_save o) (undo_remote o s') in
            rw (bad, rebuild_for) (inl (ap (λ s. s.cfg) undone ∙ (undo_remote-kept o s').0))
      ]

  set_remote-Either :
      (config : RepoConfig) (url : Text) (s : Settings)
      → Either config s (set_remote o config url s).1
  unfolding set_remote change_remote undo_save
  set_remote-Either config url s =
      let p = o.update_ostree config.default_repo url s.remote in
      let s' = record s { remote = p.1 } in
      elim (Result-cases p.0) [
        | inl (tt, fine) ↦ rw (fine, set_remote) (rebuild_for-Either config url s')
        | inr (e, bad) ↦ rw (bad, set_remote) (inl (ap (λ s. s.cfg) (destroy-one (undo_save o) s')))
      ]

  set_config-Either :
      (config : RepoConfig) (s : Settings) → Either config s (set_config o config s).1
  unfolding set_config
  set_config-Either config s =
      let p = save_config o.can_open o.stored config s.file in
      elim (Option-cases (default_url config)) [
        | inl missing ↦ rw (missing, set_config) (inl refl)
        | inr (url, there) ↦ elim (Result-cases p.0) [
          | inr (e, bad) ↦ rw (there, bad, set_config) (inl refl)
          | inl (tt, fine) ↦
              rw (there, fine, set_config) (set_remote-Either config url (record s { file = p.1 }))
        ]
      ]

  set_configuration-Either :
      (config : RepoConfig) (s : Settings) → Either config s (set_configuration o config s).1
  unfolding set_configuration
  set_configuration-Either config s = elim (Bool-cases (is_current config s.cfg)) [
    | inl e ↦ rw (e, set_configuration) (inl refl)
    | inr e ↦ elim (Option-cases (default_url config)) [
      | inl k ↦ rw (e, k, set_configuration) (inl refl)
      | inr (url, k) ↦ rw (e, k, set_configuration) (set_config-Either config s)
    ]
  ]

  set_repo_config-Either :
      (is_allowed : Bool) (config : RepoConfig) (s : Settings)
      → Either config s (set_repo_config o is_allowed config s).1
  unfolding set_repo_config
  set_repo_config-Either false config s = inl refl
  set_repo_config-Either true config s = elim (Result-cases (set_configuration o config s).0) [
    | inl (tt, fine) ↦ rw (fine, set_repo_config) (set_configuration-Either config s)
    | inr (e, bad) ↦ rw (bad, set_repo_config) (set_configuration-Either config s)
  ]

  outcome-cases :
      (x : Outcome) → ((config : RepoConfig) × (x ≡ sends config)) ⊎ ((e : Exit) × (x ≡ ends e))
  outcome-cases (sends config) = inl (config, refl)
  outcome-cases (ends e) = inr (e, refl)

  -- Whatever subcommand of `repo` is run, with whatever name and address, and whether or not the user
  -- may change the configuration and the package manager can take it over: when the configuration in
  -- use has its default repository among its repositories, that in use afterwards has it too.
  pub run_repo_keeps_default :
      (is_allowed : Bool) (command : Subcommand) (name url : Text) (s : Settings)
      → IsComplete s.cfg
      → IsComplete (run_repo o is_allowed command name url s).1.cfg
  unfolding run_repo
  run_repo_keeps_default is_allowed command name url s complete =
      elim (outcome-cases (change_repos command s.cfg name url)) [
        | inr (e, h) ↦ rw (h, run_repo) complete
        | inl (config, h) ↦
            let changed = change_repos-IsComplete command s.cfg config name url complete h in
            rw (h, run_repo)
              (elim (set_repo_config-Either is_allowed config s) [
                | inl same ↦ subst IsComplete (sym same) complete
                | inr new ↦ subst IsComplete (sym new) changed
              ])
      ]
