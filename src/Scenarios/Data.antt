-- ===== src/Scenarios/Data.antt =====
-- The packages that the examples are about.
use linglong.Repo.Cache.Changes.{AreDistinct}
use linglong.Prelude.{refl, true, none, some, List, [], ◌∷◌, arith}
use linglong.Prelude.Text.{Text, codes}
use linglong.Api.{PackageInfoV2, LayersItem, RepositoryCache}
use linglong.Package.Version.{Version}
use linglong.Package.Version.Parse.{IsInRange}
use linglong.Package.Architecture.{x86_64}
use linglong.Package.Reference.{Reference}
use linglong.Package.Reference.RoundTrip.{IsWellFormed}
use linglong.Repo.Cache.{Disk, RepoCache}
use linglong.Repo.Layers.{Ostree}

abbrev pub v1234 : Version
v1234 = record { major = 1; minor = 2; patch = 3; tweak = some 4 }

abbrev pub v123 : Version
v123 = record { major = 1; minor = 2; patch = 3; tweak = none }

abbrev pub v2000 : Version
v2000 = record { major = 2; minor = 0; patch = 0; tweak = some 0 }

abbrev pub v1234-IsInRange : IsInRange v1234
v1234-IsInRange = record {
  major = omega arith;
  minor = omega arith;
  patch = omega arith;
  tweak = omega arith;
}

abbrev pub v2000-IsInRange : IsInRange v2000
v2000-IsInRange = record {
  major = omega arith;
  minor = omega arith;
  patch = omega arith;
  tweak = omega arith;
}

abbrev pub demo : Reference
demo = record { channel = codes "main"; id = codes "org.demo"; version = v1234; arch = x86_64 }

abbrev pub demo-IsWellFormed : IsWellFormed demo
demo-IsWellFormed = record {
  channel_some = λ e. cc e;
  channel_whole = omega arith;
  id_some = λ e. cc e;
  id_whole = omega arith;
  version = v1234-IsInRange;
  arch = λ e. cc e;
}

abbrev pub base : Reference
base = record { channel = codes "main"; id = codes "org.base"; version = v1234; arch = x86_64 }

abbrev pub base-IsWellFormed : IsWellFormed base
base-IsWellFormed = record {
  channel_some = λ e. cc e;
  channel_whole = omega arith;
  id_some = λ e. cc e;
  id_whole = omega arith;
  version = v1234-IsInRange;
  arch = λ e. cc e;
}

abbrev pub info_of : Text → Text → Text → PackageInfoV2
info_of id kind version = record {
  arch = codes "x86_64" ∷ [];
  base = codes "main:org.base/1.2.3.4/x86_64";
  channel = codes "main";
  command = none;
  compatible_version = none;
  description = none;
  id = id;
  kind = kind;
  package_info_v2_module = codes "binary";
  name = id;
  permissions = none;
  runtime = none;
  schema_version = codes "1.0";
  size = 1;
  uuid = none;
  version = version;
}

abbrev pub layer_of : PackageInfoV2 → Text → LayersItem
layer_of info commit = record {
  commit = commit;
  deleted = none;
  info = info;
  repo = codes "stable";
}

abbrev pub demo_layer : LayersItem
demo_layer = layer_of (info_of (codes "org.demo") (codes "app") (codes "1.2.3.4")) (codes "c1")

abbrev pub base_layer : LayersItem
base_layer = layer_of (info_of (codes "org.base") (codes "base") (codes "1.2.3.4")) (codes "c2")

abbrev pub cache_of : List LayersItem → RepositoryCache
cache_of layers = record {
  config = record { default_repo = codes "stable"; repos = []; version = 1 };
  layers = layers;
  ll_version = codes "1.7.0";
  merged = none;
  version = codes "1.0";
}

abbrev pub working_disk : Disk
working_disk = record {
  parent_exists = true;
  can_open_temp = true;
  can_rename = true;
  can_remove = true;
  can_open_tag = true;
  dump = λ c. codes "{}";
  stored = λ text. text;
  file = none;
  temp = none;
  tag = none;
}

abbrev pub two_layers : RepoCache
two_layers = record { cache = cache_of (demo_layer ∷ base_layer ∷ []); disk = working_disk }

abbrev pub now : Text
now = codes "1.7.0"

abbrev pub both : RepositoryCache
both = cache_of (demo_layer ∷ base_layer ∷ [])

abbrev pub both-AreDistinct : AreDistinct both.layers
unfolding linglong.Repo.Cache.matches linglong.Prelude.Text.text_eq
both-AreDistinct = ((refl, tt), (tt, tt))

abbrev pub working_ostree : Ostree
working_ostree = record { can_resolve = true; can_unset = true }
