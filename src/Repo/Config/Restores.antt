-- ===== src/Repo/Config/Restores.antt =====
-- What is left of a configuration that could not be taken over.
use linglong.Prelude.{
  ◌≡◌, refl, sym, ap, ◌∙◌, ◌⊎◌, inl, inr, Bool, true, Option-cases, Option, some, String,
}
use linglong.Prelude.Text.{Text}
use linglong.Prelude.Result.{ok, err, Result-cases}
use linglong.Api.{RepoConfig}
use linglong.Utils.Transaction.{start, add_roll_back}
use linglong.Utils.Transaction.Undo.{destroy-one, destroy-add_roll_back}
use linglong.Repo.Cache.Rebuild.{rebuild_cache}
use linglong.Repo.Config.{
  Settings, Outside, default_url, save_config, change_remote, undo_save, undo_remote, update_remote,
  update_config, rebuild_for, set_remote, set_config,
}

save_config-ok :
    (can_open : Bool) (stored : RepoConfig → Option RepoConfig) (config : RepoConfig) (url : Text)
    (file : Option RepoConfig)
    → can_open ≡ true
    → default_url config ≡ some url
    → save_config can_open stored config file ≡ (ok tt, stored config)
unfolding save_config
save_config-ok can_open stored config url file opens found = rw (found, opens, save_config)

module _ (o : Outside) where
  pub undo_remote-kept :
      (s : Settings)
      → ((undo_remote o s).cfg ≡ s.cfg)
        × ((undo_remote o s).server ≡ s.server)
        × ((undo_remote o s).file ≡ s.file)
  unfolding undo_remote change_remote
  undo_remote-kept s = elim (Option-cases (default_url s.cfg)) [
    | inl e ↦ rw (e, undo_remote) (refl, refl, refl)
    | inr (url, e) ↦ rw (e, undo_remote) (refl, refl, refl)
  ]

  undo_save-file :
      (s : Settings) (url : Text)
      → o.can_open ≡ true
      → default_url s.cfg ≡ some url
      → o.stored s.cfg ≡ some s.cfg
      → (undo_save o s).file ≡ some s.cfg
  unfolding undo_save save_config
  undo_save-file s url opens found complete = rw (found, opens, save_config) complete

  -- The configuration in use and the server are the same, and the file holds the former.
  abbrev pub Restored : Settings → Settings → Type 0
  Restored s s' = (s'.cfg ≡ s.cfg) × (s'.server ≡ s.server) × (s'.file ≡ some s.cfg)

  undo_save-Restored :
      (s s' : Settings) (url : Text)
      → o.can_open ≡ true
      → default_url s.cfg ≡ some url
      → o.stored s.cfg ≡ some s.cfg
      → s'.cfg ≡ s.cfg
      → s'.server ≡ s.server
      → Restored s (undo_save o s')
  unfolding undo_save
  undo_save-Restored s s' url opens found complete cfg server =
      let complete' = ap o.stored cfg ∙ complete ∙ ap some (sym cfg) in
      (
        cfg,
        server,
        undo_save-file s' url opens (ap default_url cfg ∙ found) complete' ∙ ap some cfg,
      )

  rebuild_for-Restored :
      (config : RepoConfig) (url old_url : Text) (s : Settings) (e : String)
      → o.can_open ≡ true
      → default_url s.cfg ≡ some old_url
      → o.stored s.cfg ≡ some s.cfg
      → (rebuild_for o config url
          (add_roll_back (add_roll_back start (undo_save o)) (undo_remote o))
          s).0
        ≡ err e
      → Restored s
          (rebuild_for o config url
            (add_roll_back (add_roll_back start (undo_save o)) (undo_remote o))
            s).1
  unfolding rebuild_for
  rebuild_for-Restored config url old_url s e opens found complete failed =
      let p = rebuild_cache o.source o.versions config s.repo in
      let tx = add_roll_back start (undo_save o) in
      let s' = record s { repo = p.1 } in
      elim (Result-cases p.0) [
        | inl (tt, fine) ↦ cc (rw (fine, rebuild_for) at failed)
        | inr (e', bad) ↦
            let (cfg, server, file) = undo_remote-kept s' in
            let undone =
              destroy-add_roll_back tx (undo_remote o) s'
              ∙ destroy-one (undo_save o) (undo_remote o s') in
            rw (bad, rebuild_for)
              (rw undone
                (undo_save-Restored s (undo_remote o s') old_url opens found complete cfg server))
      ]

  set_remote-Restored :
      (config : RepoConfig) (url old_url : Text) (s : Settings) (e : String)
      → o.can_open ≡ true
      → default_url s.cfg ≡ some old_url
      → o.stored s.cfg ≡ some s.cfg
      → (set_remote o config url s).0 ≡ err e
      → Restored s (set_remote o config url s).1
  unfolding set_remote change_remote
  set_remote-Restored config url old_url s e opens found complete failed =
      let p = o.update_ostree config.default_repo url s.remote in
      let s' = record s { remote = p.1 } in
      elim (Result-cases p.0) [
        | inl (tt, fine) ↦
            rw (fine, set_remote)
              (rebuild_for-Restored config url old_url s' e opens found complete
                (rw (fine, set_remote) at failed))
        | inr (e', bad) ↦
            rw (bad, set_remote)
              (rw (destroy-one (undo_save o) s')
                (undo_save-Restored s s' old_url opens found complete refl refl))
      ]

  -- When a new configuration cannot be taken over, the one in use and the server stay, and the file
  -- is as it was or holds the one in use; provided that this has a default repository, that the file
  -- can be opened, and that it holds the one in use once that is written. What a writing of the new
  -- one leaves does not matter.
  pub set_config_restores :
      (config : RepoConfig) (old_url : Text) (s : Settings) (e : String)
      → o.can_open ≡ true
      → default_url s.cfg ≡ some old_url
      → o.stored s.cfg ≡ some s.cfg
      → (set_config o config s).0 ≡ err e
      → let s' = (set_config o config s).1 in
        (s'.cfg ≡ s.cfg) × (s'.server ≡ s.server) × ((s'.file ≡ s.file) ⊎ (s'.file ≡ some s.cfg))
  unfolding set_config
  set_config_restores config old_url s e opens found complete failed =
      elim (Option-cases (default_url config)) [
        | inl missing ↦ rw (missing, set_config) (refl, refl, inl refl)
        | inr (url, there) ↦
            let saved = save_config-ok o.can_open o.stored config url s.file opens there in
            let s₁ = record s { file = o.stored config } in
            let (cfg, server, file) =
              set_remote-Restored config url old_url s₁ e opens found complete
                (rw (there, saved, set_config, saved) at failed) in
            rw (there, saved, set_config, saved) (cfg, server, inr file)
      ]

  update_remote-fails :
      (config : RepoConfig) (url : Text) (s : Settings) (e : String)
      → (o.update_ostree config.default_repo url s.remote).0 ≡ err e
      → let (result, s') = update_remote o config url s in
        (result ≡ err e) × (s'.cfg ≡ s.cfg) × (s'.file ≡ s.file)
  unfolding update_remote change_remote
  update_remote-fails config url s e bad =
      let s' = record s { remote = (o.update_ostree config.default_repo url s.remote).1 } in
      let (cfg, _, file) = undo_remote-kept s' in
      rw (bad, update_remote)
        (refl, rw (destroy-one (undo_remote o) s') cfg, rw (destroy-one (undo_remote o) s') file)

  -- `updateConfig` does not take its writing of the file back: when the configuration of OSTree
  -- cannot be changed, the one in use stays, and the file holds the new one; if that has a default repository,
  -- and the file can be opened and holds it once it is written.
  pub update_config_leaves :
      (config : RepoConfig) (url : Text) (s : Settings) (e : String)
      → o.can_open ≡ true
      → default_url config ≡ some url
      → o.stored config ≡ some config
      → (o.update_ostree config.default_repo url s.remote).0 ≡ err e
      → let (result, s') = update_config o config s in
        (result ≡ err e) × (s'.cfg ≡ s.cfg) × (s'.file ≡ some config)
  unfolding update_config
  update_config_leaves config url s e opens found complete bad =
      let saved =
        save_config-ok o.can_open o.stored config url s.file opens found
        ∙ ap (λ f. (ok tt, f)) complete in
      rw (found, saved, update_config, saved)
        (update_remote-fails config url (record s { file = some config }) e bad)
