-- ===== src/Scenarios/Worlds.antt =====
-- The states of the package manager and the answers from outside that the examples are about.
use linglong.Prelude.{ℕ, ◌+◌, ◌*◌, ◌/◌, true, false, none, some, List, [], ◌∷◌, ◌++◌}
use linglong.Prelude.Text.{Text, codes}
use linglong.Prelude.Result.{Result, ok, err}
use linglong.Api.{PackageInfoV2, LayersItem, RepoConfig}
use linglong.Package.Qt.{plain_qt}
use linglong.Package.Architecture.{x86_64, arm64}
use linglong.Package.FuzzyReference.{FuzzyReference}
use linglong.Package.Reference.{Reference}
use linglong.Repo.Cache.{RepoCache}
use linglong.Repo.Cache.Rebuild.{Source, Versions}
use linglong.Repo.Config.{Settings, Outside}
use linglong.Repo.Merge.{Merger}
use linglong.Repo.Pull.{Remote}
use linglong.Task
use linglong.Task.{Double, Task}
use linglong.PackageManager.World.{Env, World}
use linglong.PackageManager.Requests.{PackageManager1Package, CommonOptions}
use linglong.Scenarios.Data.{
  v2000, info_of, layer_of, demo_layer, cache_of, working_disk, two_layers, now, working_ostree,
}

abbrev pub plain_double : Double
plain_double = record { D = ℕ; of_ℕ = λ n. n; add = ◌+◌; mul = ◌*◌; div = ◌/◌ }

abbrev pub two_refs : List Text
two_refs = codes "main:org.demo/1.2.3.4/x86_64" ∷ codes "main:org.base/1.2.3.4/x86_64" ∷ []

abbrev pub two_parts : Task plain_double
two_parts = Task.start {d = plain_double} two_refs

abbrev pub demo_name : Text
demo_name = codes "org.demo"

abbrev pub new_info : PackageInfoV2
new_info = info_of demo_name (codes "app") (codes "2.0.0.0")

abbrev pub new_demo : Reference
new_demo = record { channel = codes "main"; id = demo_name; version = v2000; arch = x86_64 }

-- For another architecture than that of the host.
abbrev pub foreign_demo : Reference
foreign_demo = record { channel = codes "main"; id = demo_name; version = v2000; arch = arm64 }

abbrev join : List Text → Text
join [] = []
join (text ∷ rest) = text ++ join rest

abbrev pub plain_merger : Merger
plain_merger = record {
  hash = λ commits. join commits;
  can_clean_temp = λ _. true;
  can_create_temp = λ _. true;
  can_checkout = λ _ _. true;
  can_clean_output = λ _. true;
  can_rename = λ _. true;
  can_read_merged = true;
}

abbrev pub working_remote : Remote
working_remote = record {
  default_repo = codes "stable";
  attempt = λ _. record { reports = []; failure = none };
  read_commit = λ _. ok (codes "c9");
  commit_info = λ _. ok new_info;
  ensure_empty_layer_dir = λ _. ok tt;
  checkout = λ _. ok tt;
}

abbrev pub offers_new : FuzzyReference → Result (List PackageInfoV2)
offers_new _ = ok (new_info ∷ [])

abbrev pub offers_nothing : FuzzyReference → Result (List PackageInfoV2)
offers_nothing _ = err "no network"

abbrev pub env_with : (FuzzyReference → Result (List PackageInfoV2)) → Env
env_with list_remote = record {
  qt = plain_qt;
  ll_version = now;
  host = ok x86_64;
  list_remote = list_remote;
  ostree = λ _ _. working_ostree;
  remote = working_remote;
  merger = plain_merger;
  has_dir = λ _. true;
  read_info = λ l. ok l.info;
  has_info = λ _. true;
  lock_repo = ok tt;
  running = ok [];
}

abbrev pub world_of : RepoCache → World plain_double
world_of r = record { repo = r; task = two_parts; exports = [] }

abbrev pub develop_layer : LayersItem
develop_layer =
    layer_of (record (demo_layer.info) { package_info_v2_module = codes "develop" }) (codes "c4")

abbrev pub two_modules : RepoCache
two_modules = record { cache = cache_of (demo_layer ∷ develop_layer ∷ []); disk = working_disk }

abbrev pub no_layers : RepoCache
no_layers = record { cache = cache_of []; disk = working_disk }

abbrev pub demo_package : PackageManager1Package
demo_package = record { channel = none; id = demo_name; module_name = none; version = none }

abbrev pub no_options : CommonOptions
no_options = record { force = false; skip_interaction = false }

abbrev pub one_ref : Source
one_ref = record {
  list_refs = ok (codes "stable:main/org.demo/2.0.0.0/x86_64/binary" ∷ []);
  read_commit = λ _. some (codes "c9");
  commit_info = λ _. ok new_info;
  is_root = false;
}

abbrev pub versions : Versions
versions = record { ll_version = now; file_version = codes "1.0" }

abbrev pub stable : RepoConfig
stable = record {
  default_repo = codes "stable";
  repos = (codes "stable", codes "https://a") ∷ [];
  version = 1;
}

abbrev pub nightly : RepoConfig
nightly = record {
  default_repo = codes "nightly";
  repos = (codes "nightly", codes "https://b") ∷ [];
  version = 1;
}

abbrev pub settings : Settings
settings = record {
  file = some stable;
  remote = some (codes "stable", codes "https://a");
  cfg = stable;
  server = codes "https://a";
  repo = two_layers;
}

-- OSTree refuses every change.
abbrev pub refusing : Outside
refusing = record {
  can_open = true;
  stored = λ config. some config;
  update_ostree = λ _ _ remote. (err "ostree_repo_remote_change", remote);
  source = one_ref;
  versions = versions;
}
