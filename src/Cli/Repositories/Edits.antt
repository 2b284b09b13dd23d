-- ===== src/Cli/Repositories/Edits.antt =====
-- cli/cli.cpp: the configurations that `repo` sends.
use mathlib.Core.Path.{subst}
use linglong.Prelude.{
  ◌≡◌, refl, ◌∙◌, inl, inr, false, Bool-cases, Option-cases, none, some, [], ◌∷◌,
}
use linglong.Prelude.Text.{Text, text_eq, is_empty}
use linglong.Api.{RepoConfig}
use linglong.Repo.Config.{url_of}
use linglong.Cli.Repositories.{
  Subcommand, show_repos, modify, add_repo, update_repo, remove_repo, set_default, no_command,
  sends, emplace, is_bad_url, add_to, change_existing, find_and_change, change_repos,
}
use linglong.Cli.Repositories.Lookup.{
  Has, url_of-emplace, url_of-emplaced, url_of-erase_first, Has-update_first, Has-emplace,
}

-- The default repository of a configuration is one of its repositories.
abbrev pub IsComplete : RepoConfig → Type 0
IsComplete cfg = Has cfg.default_repo cfg.repos

sends-IsComplete :
    {cfg config : RepoConfig} → sends cfg ≡ sends config → IsComplete cfg → IsComplete config
sends-IsComplete {cfg} {config} h complete =
    let same : cfg ≡ config = cc h in subst IsComplete same complete

change_existing-IsComplete :
    (command : Subcommand) (cfg config : RepoConfig) (name url : Text)
    → Has name cfg.repos
    → IsComplete cfg
    → change_existing command cfg name url ≡ sends config
    → IsComplete config
unfolding change_existing
change_existing-IsComplete remove_repo cfg config name url there (u, complete) h =
    elim (Bool-cases (text_eq cfg.default_repo name)) [
      | inl e ↦ cc (rw (e, change_existing) at h)
      | inr e ↦
          sends-IsComplete (rw (e, change_existing) at h)
            (u, url_of-erase_first name cfg.default_repo cfg.repos e ∙ complete)
    ]
change_existing-IsComplete update_repo cfg config name url there complete h =
    elim (Bool-cases (is_empty url)) [
      | inl e ↦ cc (rw (e, change_existing) at h)
      | inr e ↦
          sends-IsComplete (rw (e, change_existing) at h)
            (Has-update_first name url cfg.default_repo cfg.repos complete)
    ]
change_existing-IsComplete set_default cfg config name url there complete h =
    elim (Bool-cases (text_eq cfg.default_repo name)) [
      | inl e ↦ cc (rw (e, change_existing) at h)
      | inr e ↦ sends-IsComplete (rw (e, change_existing) at h) there
    ]
change_existing-IsComplete show_repos cfg config name url there complete h = cc h
change_existing-IsComplete modify cfg config name url there complete h = cc h
change_existing-IsComplete add_repo cfg config name url there complete h = cc h
change_existing-IsComplete no_command cfg config name url there complete h = cc h

find_and_change-IsComplete :
    (command : Subcommand) (cfg config : RepoConfig) (name url : Text)
    → IsComplete cfg
    → find_and_change command cfg name url ≡ sends config
    → IsComplete config
unfolding find_and_change
find_and_change-IsComplete command cfg config name url complete h =
    elim (Option-cases (url_of name cfg.repos)) [
      | inl e ↦ cc (rw (e, find_and_change) at h)
      | inr (v, e) ↦
          change_existing-IsComplete command cfg config name url (v, e) complete
            (rw (e, find_and_change) at h)
    ]

add_to-IsComplete :
    (cfg config : RepoConfig) (name url : Text)
    → IsComplete cfg
    → add_to cfg name url ≡ sends config
    → IsComplete config
unfolding add_to
add_to-IsComplete cfg config name url complete h = elim (Bool-cases (is_empty url)) [
  | inl e ↦ cc (rw (e, add_to) at h)
  | inr e ↦ elim (Option-cases (url_of name cfg.repos)) [
    | inr (v, k) ↦ cc (rw (e, k, add_to) at h)
    | inl k ↦
        sends-IsComplete (rw (e, k, add_to) at h)
          (Has-emplace name url cfg.default_repo cfg.repos k complete)
  ]
]

pub change_repos-IsComplete :
    (command : Subcommand) (cfg config : RepoConfig) (name url : Text)
    → IsComplete cfg
    → change_repos command cfg name url ≡ sends config
    → IsComplete config
unfolding change_repos
change_repos-IsComplete show_repos cfg config name url complete h = cc h
change_repos-IsComplete modify cfg config name url complete h = cc h
change_repos-IsComplete add_repo cfg config name url complete h =
    elim (Bool-cases (is_bad_url add_repo url)) [
      | inl e ↦ cc (rw (e, change_repos) at h)
      | inr e ↦ add_to-IsComplete cfg config name url complete (rw (e, change_repos) at h)
    ]
change_repos-IsComplete update_repo cfg config name url complete h =
    elim (Bool-cases (is_bad_url update_repo url)) [
      | inl e ↦ cc (rw (e, change_repos) at h)
      | inr e ↦
          find_and_change-IsComplete update_repo cfg config name url complete
            (rw (e, change_repos) at h)
    ]
change_repos-IsComplete remove_repo cfg config name url complete h =
    find_and_change-IsComplete remove_repo cfg config name url complete h
change_repos-IsComplete set_default cfg config name url complete h =
    find_and_change-IsComplete set_default cfg config name url complete h
change_repos-IsComplete no_command cfg config name url complete h =
    find_and_change-IsComplete no_command cfg config name url complete h

-- An address that begins with `http`, added under a name that is free, is sent to the package manager
-- just as it was given, a slash at its end included, and no other repository changes.
pub change_repos-add :
    (cfg : RepoConfig) (name url : Text)
    → url_of name cfg.repos ≡ none
    → is_bad_url add_repo url ≡ false
    → (config : RepoConfig) × (change_repos add_repo cfg name url ≡ sends config)
      × (url_of name config.repos ≡ some url)
      × ((other : Text)
          → text_eq name other ≡ false
          → url_of other config.repos ≡ url_of other cfg.repos)
unfolding change_repos add_to is_bad_url linglong.Repo.Pull.starts_with is_empty
change_repos-add cfg name [] free good = cc good
change_repos-add cfg name (c ∷ url) free good = (
  record cfg { repos = emplace name (c ∷ url) cfg.repos },
  rw (good, free, change_repos, add_to) refl,
  url_of-emplaced name (c ∷ url) cfg.repos free,
  λ other apart. url_of-emplace name (c ∷ url) other cfg.repos apart,
)
