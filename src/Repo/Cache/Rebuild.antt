-- ===== src/Repo/Cache/Rebuild.antt =====
-- repo/repo_cache.cpp: `create` and `rebuildCache`, which makes the cache from the references of the
-- OSTree repository. What OSTree answers is an argument, and so are `LINGLONG_VERSION` and the
-- version of the cache file.
pub mod Current
use linglong.Prelude.{
  ℕ, ◌==◌, Bool, true, false, not, ◌||◌, Option, none, some, List, [], ◌∷◌, ◌++◌, if◌then◌else◌,
}
use linglong.Prelude.Text.{Text, text_eq}
use linglong.Prelude.Result.{Result, ok, err}
use linglong.Api.{LayersItem, PackageInfoV2, RepoConfig, RepositoryCache}
use linglong.Repo.Cache.{Disk, RepoCache, write_to_disk}

pub record Source : Type 0 where
  pub list_refs : Result (List Text)
  pub read_commit : Text → Option Text
  pub commit_info : Text → Result PackageInfoV2
  pub is_root : Bool

-- The versions that a cache is written with.
pub record Versions : Type 0 where
  pub ll_version : Text
  pub file_version : Text

-- The text before the first colon.
unfoldable pub repo_of : Text → Option Text
repo_of [] = none
repo_of (c ∷ rest) =
    let later = repo_of rest in
    if c == b':' then some [] else elim later [ none ↦ none | some text ↦ some (c ∷ text) ]

-- The layer of a reference; `none` where the loop goes on without it.
unfoldable pub layer_of_ref : Source → Text → Option LayersItem
layer_of_ref o ref = elim (repo_of ref) [
  | none ↦ none
  | some repo ↦ elim (o.read_commit ref) [
    | none ↦ none
    | some commit ↦ elim (o.commit_info commit) [
      | err e ↦ none
      | ok info ↦ some (record { commit = commit; deleted = none; info = info; repo = repo })
    ]
  ]
]

unfoldable pub layers_of_refs : Source → List Text → List LayersItem
unfolding layer_of_ref
layers_of_refs o [] = []
layers_of_refs o (ref ∷ rest) = elim (layer_of_ref o ref) [
  | none ↦ layers_of_refs o rest
  | some layer ↦ layer ∷ layers_of_refs o rest
]

-- The cache with the new versions and no layers.
unfoldable pub cleared : Versions → RepoConfig → RepositoryCache → RepositoryCache
cleared v config c = record c {
  ll_version = v.ll_version;
  config = config;
  version = v.file_version;
  layers = [];
}

-- The end of `rebuildCache`: only an ordinary user writes the file.
unfoldable pub write_rebuilt :
    Source → Versions → RepositoryCache → Disk → Result (Unit {0}) × RepoCache
write_rebuilt o v c d =
    let (result, d') = write_to_disk v.ll_version c d in
    if o.is_root
    then (ok tt, record { cache = c; disk = d })
    else (result, record { cache = c; disk = d' })

unfoldable pub rebuild_cache :
    Source → Versions → RepoConfig → RepoCache → Result (Unit {0}) × RepoCache
unfolding cleared layers_of_refs write_rebuilt
rebuild_cache o v config r = elim o.list_refs [
  | err e ↦ (err "ostree_repo_list_refs", record r { cache = cleared v config r.cache })
  | ok refs ↦
      write_rebuilt o v (record (cleared v config r.cache) { layers = layers_of_refs o refs })
        r.disk
]

-- What the constructor makes.
unfoldable pub empty_cache : RepositoryCache
empty_cache = record {
  config = record { default_repo = []; repos = []; version = 0 };
  layers = [];
  ll_version = [];
  merged = none;
  version = [];
}

unfoldable pub rebuilt_or_error : Result (Unit {0}) × RepoCache → Result RepoCache
rebuilt_or_error (err e, r) = err e
rebuilt_or_error (ok _, r) = ok r

unfoldable pub is_outdated : Versions → RepositoryCache → Bool
is_outdated v c = not (text_eq c.version v.file_version) || not (text_eq c.ll_version v.ll_version)

-- `create`. The check whether the file is there may fail. `load` reads the JSON of a cache, or finds
-- that the text of the file is none.
unfoldable pub create :
    Source
    → Versions
    → RepoConfig
    → Bool
    → (Text → Option RepositoryCache)
    → Disk
    → Result RepoCache
unfolding rebuild_cache rebuilt_or_error is_outdated empty_cache
create o v config check_fails load d =
    if check_fails then err "checking file existence failed" else elim d.file [
      | none ↦
          rebuilt_or_error (rebuild_cache o v config (record { cache = empty_cache; disk = d }))
      | some text ↦ elim (load text) [
        | none ↦
            rebuilt_or_error (rebuild_cache o v config (record { cache = empty_cache; disk = d }))
        | some c ↦
            if is_outdated v c
            then rebuilt_or_error (rebuild_cache o v config (record { cache = c; disk = d }))
            else ok (record { cache = record c { config = config }; disk = d })
      ]
    ]
