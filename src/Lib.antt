-- ===== src/Lib.antt =====
-- Linglong installs sandboxed applications, with the bases and runtimes that they need, from a
-- remote repository. This library models the core of its package manager.
--
-- A package is named by a reference: channel, id, version and architecture
-- (libs/linglong/src/linglong/package). A user or an application gives a fuzzy reference, which
-- leaves some of them open. The local repository (libs/linglong/src/linglong/repo) keeps a cache of
-- the installed layers, in memory and in a file, and finds the layers of a reference there; it
-- turns a fuzzy reference into a reference from the cache, or from the list that the remote
-- repository sends. The package manager (libs/linglong/src/linglong/package_manager) checks the
-- requests that it gets over D-Bus and makes a task of each, which waits in a list until no other
-- task runs. A task installs, removes or updates packages, pulls the runtime and the base that an
-- application names, and reports what it does; transactions undo what was done before a failure.
-- The package manager also removes the packages that no installed application uses, and those that
-- were marked as deleted while they were running.
--
-- The files, and the code that they model:
--   Api: libs/api/src/linglong/api/types/v1, the records that the parts exchange.
--   Utils/Transaction: libs/utils/src/linglong/utils/transaction.h (Transaction).
--   Package/Version, VersionRange, Architecture, FuzzyReference, Reference, LayerFile: the files of
--     these names in libs/linglong/src/linglong/package; LayerFile also has the format that
--     LayerPackager::pack writes. Package/Pattern and VersionPattern match their regular
--     expressions, Package/Numeral has the numerals in them.
--   Repo/Cache: repo/repo_cache.cpp (addLayerItem, deleteLayerItem, findMatchingItem,
--     queryExistingLayerItem, queryLayerItem, updateMergedItems, writeToDisk). Repo/Cache/Rebuild has
--     create and rebuildCache.
--   Repo/Names, Resolve, Layers: repo/ostree_repo.cpp (the names of references; clearReference and
--     clearReferenceLocal; listLocal, listLocalLatest, getLayerItem, getModuleList, markDeleted,
--     removeOstreeRef, remove). Repo/Merge: mergeModules and getMergedModuleDir of the same file.
--     Repo/Pull: pull and handleRepositoryUpdate. Repo/Config: updateConfig and setConfig, and
--     repo/config.cpp (loadConfig, saveConfig). Repo/Reachable: a run of these operations.
--   PackageManager: package_manager/package_manager.cpp. World has the state that the operations
--     share, isRefBusy, isTaskDone and getLayerDir of the repository; Install has Install and
--     InstallRef of a task, Dependencies has pullDependency, Uninstall has Uninstall and UninstallRef,
--     Update has Update, Replace has removeAfterInstall, Prune has Prune, Deferred has
--     deferredUninstall. Requests and InstallRequest have what Install, Uninstall and Update check
--     over D-Bus, and latestRemoteReference. Queue has the handler of TaskListChanged, where a job
--     is one step: the event loops that a job runs, and the tasks that are added meanwhile, are not
--     modelled. Configuration has setConfiguration.
--   Task: package_manager/package_task.cpp (updateTask, updateState, updateSubState, reportError,
--     Cancel, getPercentage).
--   Cli: cli/cli.cpp. Repositories has repo and setRepoConfig, Upgradable has listUpgradable and
--     filterPackageInfosFromType.
--   Prelude: the names and lemmas that the other files share. Scenarios: concrete inputs.
-- A function keeps its name in the source, with underscores; a child module holds the theorems
-- about its parent.
--
-- State is passed on and returned: a changed cache stands beside the result of the operation that
-- changed it. Q_ASSERT, which a release build leaves out, does nothing. An error is a value of
-- Result, with the message and without its trace; a call that ends the process (qFatal, a value
-- that is not there) gives none. Texts are lists of code units. The file system answers by the
-- fields of a record (Repo/Cache, PackageManager/World). A qlonglong is a number below 2^63 and
-- never negative, since the version pattern has no sign; quint32 and the count of a task's parts
-- wrap at 2^32. Every loop is structural recursion on the list that it goes through, so that no
-- fuel is needed.
--
-- Arguments stand for what is not in the repository: the conversions between numbers and texts of
-- Qt (Package/Qt), JSON (Package/LayerFile; for the cache Repo/Cache and Repo/Cache/Rebuild), what
-- is left of a file that was not written whole (Repo/Cache, Repo/Config), the arithmetic of double (Task), the answers of OSTree
-- with the reports of its progress, SHA-256 (Repo/Merge), the containers that run, the reply of the
-- user and the list of the remote repository. Such an answer does not change within an operation.
-- std::sort is an insertion sort, which keeps the order of equal elements.
--
-- Not modelled: the rest of the command line client, the builder, containers and ll-box, UAB files,
-- D-Bus and the conversions of its maps, the directories of the layers, exportReference beyond the
-- record that it was called, and the requests that install a layer file or an UAB; they run
-- programs, make system calls or print. An unordered map is gone through in the order in which its
-- keys came. external and libs/ocppi hold copies of other projects.
pub mod Prelude
pub mod Api
pub mod Utils
pub mod Package
pub mod Task
pub mod Scenarios
pub mod Repo
pub mod PackageManager
pub mod Cli
