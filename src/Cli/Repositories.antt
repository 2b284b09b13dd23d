-- ===== src/Cli/Repositories.antt =====
-- cli/cli.cpp: `repo`, which shows and changes the configured remote repositories, and
-- `setRepoConfig`. What is printed is not modelled. Whether the user may change the configuration is
-- an argument; the configuration that the package manager sends is the one in use.
pub mod Lookup
pub mod Edits
pub mod Keeps
use linglong.Prelude.{
  Bool, true, false, not, ◌||◌, Option, none, some, List, [], ◌∷◌, erase_first, update_first,
  if◌then◌else◌,
}
use linglong.Prelude.Text.{Text, codes, text_eq, text_lt, is_empty}
use linglong.Prelude.Result.{Result, ok, err}
use linglong.Api.{RepoConfig}
use linglong.Repo.Pull.{starts_with}
use linglong.Repo.Config.{Settings, Outside, url_of}
use linglong.PackageManager.Configuration.{set_configuration}

-- The subcommands; one of them is parsed, or none.
pub data Subcommand : Type 0 where
  show_repos : Subcommand
  modify : Subcommand
  add_repo : Subcommand
  update_repo : Subcommand
  remove_repo : Subcommand
  set_default : Subcommand
  no_command : Subcommand

-- 0, -1 and EINVAL
pub data Exit : Type 0 where
  exit_ok : Exit
  exit_failed : Exit
  exit_invalid : Exit

-- The function ends, or it sends a changed configuration to the package manager.
pub data Outcome : Type 0 where
  ends : Exit → Outcome
  sends : RepoConfig → Outcome

-- `repos.try_emplace` of a map that is in the order of the names, for a name that is not there.
unfoldable pub emplace : Text → Text → List (Text × Text) → List (Text × Text)
emplace name url [] = (name, url) ∷ []
emplace name url (entry ∷ rest) =
    let later = emplace name url rest in
    if text_lt name entry.0 then (name, url) ∷ entry ∷ rest else entry ∷ later

-- Does the subcommand take an address that is not one?
unfoldable pub is_bad_url : Subcommand → Text → Bool
is_bad_url add_repo url = not (starts_with (codes "http") url)
is_bad_url update_repo url = not (starts_with (codes "http") url)
is_bad_url _ url = false

unfoldable pub add_to : RepoConfig → Text → Text → Outcome
unfolding emplace
add_to cfg name url = if is_empty url then ends exit_invalid else elim (url_of name cfg.repos) [
  | some _ ↦ ends exit_failed
  | none ↦ sends (record cfg { repos = emplace name url cfg.repos })
]

-- The subcommands for a repository that is there.
unfoldable pub change_existing : Subcommand → RepoConfig → Text → Text → Outcome
change_existing remove_repo cfg name url =
    if text_eq cfg.default_repo name
    then ends exit_failed
    else sends (record cfg { repos = erase_first (λ entry. text_eq entry.0 name) cfg.repos })
change_existing update_repo cfg name url =
    if is_empty url
    then ends exit_failed
    else sends (record cfg {
      repos = update_first (λ entry. text_eq entry.0 name) (λ entry. (entry.0, url)) cfg.repos;
    })
change_existing set_default cfg name url =
    if text_eq cfg.default_repo name
    then ends exit_ok
    else sends (record cfg { default_repo = name })
change_existing _ cfg name url = ends exit_failed

unfoldable pub find_and_change : Subcommand → RepoConfig → Text → Text → Outcome
unfolding change_existing
find_and_change command cfg name url = elim (url_of name cfg.repos) [
  | none ↦ ends exit_failed
  | some _ ↦ change_existing command cfg name url
]

-- `repo` up to the sending. The address is the option as it was before its last slash was removed.
unfoldable pub change_repos : Subcommand → RepoConfig → Text → Text → Outcome
unfolding is_bad_url add_to find_and_change
change_repos show_repos cfg name url = ends exit_ok
change_repos modify cfg name url = ends exit_invalid
change_repos add_repo cfg name url =
    if is_bad_url add_repo url then ends exit_invalid else add_to cfg name url
change_repos command cfg name url =
    if is_bad_url command url then ends exit_invalid else find_and_change command cfg name url

module _ (o : Outside) (is_allowed : Bool) where
  unfoldable pub set_repo_config : RepoConfig → Settings → Exit × Settings
  set_repo_config config s =
      let (result, s') = set_configuration o config s in
      if not is_allowed
      then (exit_failed, s)
      else elim result [ err _ ↦ (exit_failed, s') | ok _ ↦ (exit_ok, s') ]

  unfoldable pub run_repo : Subcommand → Text → Text → Settings → Exit × Settings
  unfolding change_repos set_repo_config
  run_repo command name url s = elim (change_repos command s.cfg name url) [
    | ends e ↦ (e, s)
    | sends config ↦ set_repo_config config s
  ]
