-- ===== src/Repo/Config.antt =====
-- repo/config.cpp, and `updateConfig` and `setConfig` of repo/ostree_repo.cpp. The file config.yaml
-- holds a configuration; what OSTree's own configuration becomes is an argument. An undo function
-- for a configuration in use without its default repository does nothing: the process had ended
-- when that came into use.
pub mod Restores
use linglong.Prelude.{
  ℕ, ◌==◌, Bool, true, false, not, Option, none, some, List, [], ◌∷◌, if◌then◌else◌,
}
use linglong.Prelude.Text.{Text, text_eq}
use linglong.Prelude.Result.{Result, ok, err}
use linglong.Api.{RepoConfig}
use linglong.Utils.Transaction.{Transaction, start, add_roll_back, commit, destroy}
use linglong.Repo.Cache.{RepoCache}
use linglong.Repo.Cache.Rebuild.{Source, Versions, rebuild_cache}

-- `repos.at(name)` and `repos.find(name)`
unfoldable pub url_of : Text → List (Text × Text) → Option Text
url_of name [] = none
url_of name (entry ∷ rest) =
    let later = url_of name rest in if text_eq entry.0 name then some entry.1 else later

unfoldable pub default_url : RepoConfig → Option Text
default_url config = url_of config.default_repo config.repos

-- `loadConfig` of one file, by what it holds.
unfoldable pub load_config : Option RepoConfig → Result RepoConfig
load_config none = err "open failed"
load_config (some config) =
    if not (config.version == 1)
    then err "wrong configuration file version"
    else elim (default_url config) [
      | none ↦ err "default repo not found in repos"
      | some url ↦ ok config
    ]

-- `loadConfig` of the first of the files that can be loaded.
unfoldable pub load_first : List (Option RepoConfig) → Result RepoConfig
unfolding load_config
load_first [] = err "all failed"
load_first (file ∷ rest) = elim (load_config file) [
  | err e ↦ load_first rest
  | ok config ↦ ok config
]

-- `saveConfig`, which leaves the file as it is if it fails. Once the file is open, nothing checks
-- the writing: what it then holds, `none` if that cannot be loaded, is given by `stored`.
unfoldable pub save_config :
    Bool
    → (RepoConfig → Option RepoConfig)
    → RepoConfig
    → Option RepoConfig
    → Result (Unit {0}) × Option RepoConfig
save_config can_open stored config file = elim (default_url config) [
  | none ↦ (err "default repo not found in repos", file)
  | some url ↦ if can_open then (ok tt, stored config) else (err "open failed", file)
]

-- What the configuration is kept in.
pub record Settings : Type 0 where
  pub file : Option RepoConfig
  -- the name and the address in the configuration of OSTree
  pub remote : Option (Text × Text)
  pub cfg : RepoConfig
  pub server : Text
  pub repo : RepoCache

pub record Outside : Type 0 where
  pub can_open : Bool
  -- what a written file holds
  pub stored : RepoConfig → Option RepoConfig
  pub update_ostree : Text → Text → Option (Text × Text) → Result (Unit {0}) × Option (Text × Text)
  pub source : Source
  pub versions : Versions

module _ (o : Outside) where
  -- `updateOstreeRepoConfig`
  unfoldable pub change_remote : RepoConfig → Text → Settings → Result (Unit {0}) × Settings
  change_remote config url s =
      let (result, remote) = o.update_ostree config.default_repo url s.remote in
      (result, record s { remote = remote })

  -- The undo functions, which go back to the configuration in use.
  unfoldable pub undo_save : Settings → Settings
  undo_save s = record s { file = (save_config o.can_open o.stored s.cfg s.file).1 }

  unfoldable pub undo_remote : Settings → Settings
  unfolding change_remote
  undo_remote s = elim (default_url s.cfg) [ none ↦ s | some url ↦ (change_remote s.cfg url s).1 ]

  unfoldable pub use_config : RepoConfig → Text → Settings → Settings
  use_config config url s = record s { server = url; cfg = config }

  -- `updateConfig` once the file was written.
  unfoldable pub update_remote : RepoConfig → Text → Settings → Result (Unit {0}) × Settings
  unfolding undo_remote use_config
  update_remote config url s =
      let (result, s') = change_remote config url s in
      let tx = add_roll_back start undo_remote in
      elim result [
        | err e ↦ (err e, destroy tx s')
        | ok _ ↦ (ok tt, use_config config url (destroy (commit tx) s'))
      ]

  -- `updateConfig`. Without a default repository the file is not written.
  unfoldable pub update_config : RepoConfig → Settings → Result (Unit {0}) × Settings
  unfolding update_remote
  update_config config s =
      let (result, file) = save_config o.can_open o.stored config s.file in
      elim (default_url config) [
        | none ↦ (err "default repo not found in repos", s)
        | some url ↦ elim result [
          | err e ↦ (err e, s)
          | ok _ ↦ update_remote config url (record s { file = file })
        ]
      ]

  -- `setConfig` once the file and OSTree's configuration were written.
  unfoldable pub rebuild_for :
      RepoConfig → Text → Transaction Settings → Settings → Result (Unit {0}) × Settings
  unfolding use_config
  rebuild_for config url tx s =
      let (result, repo) = rebuild_cache o.source o.versions config s.repo in
      let s' = record s { repo = repo } in
      elim result [
        | err e ↦ (err e, destroy tx s')
        | ok _ ↦ (ok tt, destroy (commit tx) (use_config config url s'))
      ]

  -- `setConfig` once the file was written.
  unfoldable pub set_remote : RepoConfig → Text → Settings → Result (Unit {0}) × Settings
  unfolding undo_save undo_remote rebuild_for
  set_remote config url s =
      let (result, s') = change_remote config url s in
      let tx = add_roll_back start undo_save in
      elim result [
        | err e ↦ (err e, destroy tx s')
        | ok _ ↦ rebuild_for config url (add_roll_back tx undo_remote) s'
      ]

  unfoldable pub set_config : RepoConfig → Settings → Result (Unit {0}) × Settings
  unfolding set_remote
  set_config config s =
      let (result, file) = save_config o.can_open o.stored config s.file in
      elim (default_url config) [
        | none ↦ (err "default repo not found in repos", s)
        | some url ↦ elim result [
          | err e ↦ (err e, s)
          | ok _ ↦ set_remote config url (record s { file = file })
        ]
      ]
