-- ===== src/Repo.antt =====
-- libs/linglong/src/linglong/repo: the cache of the installed layers, and what the repository
-- looks up in it.
pub mod Cache
pub mod Names
pub mod Resolve
pub mod Layers
pub mod Merge
pub mod Pull
pub mod Reachable
pub mod Config
