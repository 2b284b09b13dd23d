-- ===== src/Api.antt =====
-- libs/api/src/linglong/api/types/v1: the records that the package manager, the repository and the
-- clients exchange. Of the permissions of an application no modelled code reads more than that they
-- are copied; they are kept as their JSON text.
use linglong.Prelude.{ℕ, Bool, Option, List}
use linglong.Prelude.Text.{Text}

-- PackageInfoV2.hpp. `size` is never negative, and nothing computes with it here.
pub record PackageInfoV2 : Type 0 where
  pub arch : List Text
  pub base : Text
  pub channel : Text
  pub command : Option (List Text)
  pub compatible_version : Option Text
  pub description : Option Text
  pub id : Text
  pub kind : Text
  pub package_info_v2_module : Text
  pub name : Text
  pub permissions : Option Text
  pub runtime : Option Text
  pub schema_version : Text
  pub size : ℕ
  pub uuid : Option Text
  pub version : Text

-- RepositoryCacheLayersItem.hpp
pub record LayersItem : Type 0 where
  pub commit : Text
  pub deleted : Option Bool
  pub info : PackageInfoV2
  pub repo : Text

-- RepositoryCacheMergedItem.hpp
pub record MergedItem : Type 0 where
  pub binary_commit : Option Text
  pub commits : List Text
  pub id : Text
  pub modules : List Text
  pub name : Option Text

-- RepoConfig.hpp; the map as an association list
pub record RepoConfig : Type 0 where
  pub default_repo : Text
  pub repos : List (Text × Text)
  pub version : ℕ

-- RepositoryCache.hpp
pub record RepositoryCache : Type 0 where
  pub config : RepoConfig
  pub layers : List LayersItem
  pub ll_version : Text
  pub merged : Option (List MergedItem)
  pub version : Text

-- State.hpp
pub data State : Type 0 where
  canceled failed part_completed pending processing queued succeed unknown : State

-- SubState.hpp
pub data SubState : Type 0 where
  all_done install_application install_base install_runtime package_manager_done post_action
        pre_action uninstall unknown :
      SubState
