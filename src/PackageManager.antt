-- ===== src/PackageManager.antt =====
-- libs/linglong/src/linglong/package_manager/package_manager.cpp: the service that installs and
-- removes packages.
pub mod Prune
pub mod World
pub mod Configuration
pub mod Uninstall
pub mod Replace
pub mod Dependencies
pub mod Install
pub mod Update
pub mod Requests
pub mod InstallRequest
pub mod Queue
pub mod Deferred
