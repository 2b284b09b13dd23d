-- ===== src/PackageManager/Configuration.antt =====
-- package_manager/package_manager.cpp: `setConfiguration`, which the command line client calls. An
-- error reply is the result.
use linglong.Prelude.{◌==◌, Bool, true, false, ◌&&◌, none, some, List, [], ◌∷◌, if◌then◌else◌}
use linglong.Prelude.Text.{Text, text_eq}
use linglong.Prelude.Result.{Result, ok, err}
use linglong.Api.{RepoConfig}
use linglong.Repo.Config.{Settings, Outside, default_url, set_config}

-- `==` of the maps, which are in the order of the names.
unfoldable pub repos_eq : List (Text × Text) → List (Text × Text) → Bool
repos_eq [] [] = true
repos_eq (a ∷ xs) (b ∷ ys) = text_eq a.0 b.0 && (text_eq a.1 b.1 && repos_eq xs ys)
repos_eq xs ys = false

-- Is the configuration the one in use?
unfoldable pub is_current : RepoConfig → RepoConfig → Bool
unfolding repos_eq
is_current config cfg =
    (config.version == cfg.version)
    && (text_eq config.default_repo cfg.default_repo && repos_eq config.repos cfg.repos)

unfoldable pub set_configuration : Outside → RepoConfig → Settings → Result (Unit {0}) × Settings
unfolding is_current
set_configuration o config s =
    if is_current config s.cfg then (ok tt, s) else elim (default_url config) [
      | none ↦ (err "default repository is missing after updating configuration.", s)
      | some url ↦ set_config o config s
    ]
