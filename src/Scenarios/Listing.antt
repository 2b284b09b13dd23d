-- ===== src/Scenarios/Listing.antt =====
-- The list of upgrades, at concrete inputs.
use linglong.Prelude.{◌≡◌, refl, some, List, [], ◌∷◌, All}
use linglong.Prelude.Text.{Text, codes}
use linglong.Prelude.Result.{ok}
use linglong.Api.{PackageInfoV2}
use linglong.Package.Qt.{plain_qt}
use linglong.Package.FuzzyReference
use linglong.Package.FuzzyReference.{FuzzyReference}
use linglong.Repo.Layers.{list_local_latest}
use linglong.Cli.Upgradable.{UpgradeListResult, list_upgradable}
use linglong.Cli.Upgradable.Newer.{IsUpgradeOfType, list_upgradable_sound}
use linglong.Scenarios.Data.{two_layers}
use linglong.Scenarios.Worlds.{demo_name, offers_new}

abbrev demo_upgrades : List UpgradeListResult
demo_upgrades =
    record { id = demo_name; new_version = codes "2.0.0.0"; old_version = codes "1.2.3.4" } ∷ []

list_upgradable_sound_example :
    (pkgs remote : List PackageInfoV2) × (whole : FuzzyReference) × (list_local_latest plain_qt
        two_layers.cache
      ≡ ok pkgs)
    × (FuzzyReference.parse plain_qt (codes ".") ≡ ok whole)
    × (offers_new whole ≡ ok remote)
    × All (IsUpgradeOfType plain_qt remote pkgs (codes "app") (codes "app")) demo_upgrades
unfolding linglong.Cli.Upgradable.list_upgradable linglong.Prelude.Text.is_empty
    linglong.Repo.Layers.list_local_latest linglong.Cli.Upgradable.filter_package_infos_from_type
    linglong.Cli.Upgradable.upgrades linglong.Package.FuzzyReference.parse
    linglong.Repo.Layers.latest_from linglong.Repo.Cache.query_existing_layer_item
    linglong.Prelude.keep linglong.Prelude.Text.text_eq linglong.Cli.Upgradable.upgrade_of
    linglong.Package.FuzzyReference.parse_version linglong.Package.FuzzyReference.match_fuzzy
    linglong.Package.FuzzyReference.create linglong.Package.FuzzyReference.parse_architecture
    linglong.Package.FuzzyReference.parse_channel linglong.Repo.Layers.latest_step
    linglong.Repo.Cache.is_deleted linglong.Cli.Upgradable.compare_versions
    linglong.Cli.Upgradable.newest_offer linglong.Package.FuzzyReference.is_open
    linglong.Package.Version.parse linglong.Package.FuzzyReference.match_id
    linglong.Package.Pattern.expect linglong.Package.Pattern.span_until
    linglong.Package.Architecture.parse linglong.Prelude.find_first
    linglong.Repo.Layers.replace_older linglong.Repo.Layers.has_id linglong.Package.Version.le
    linglong.Repo.Resolve.better linglong.Cli.Upgradable.upgrade_candidate
    linglong.Package.Version.parse_tweak linglong.Package.VersionPattern.match_version
    linglong.Package.FuzzyReference.match_rest linglong.Prelude.erase_first
    linglong.Package.Version.lt linglong.Package.Version.eq linglong.Package.Version.ge
    linglong.Package.Reference.create linglong.Package.Pattern.scan_numeral
    linglong.Package.Pattern.at_end linglong.Package.Version.tweak_or_zero
    linglong.Package.Version.has_tweak linglong.Package.Version.gt
    linglong.Package.Pattern.span_digits linglong.Package.Numeral.decimal
    linglong.Package.Numeral.value_from linglong.Package.Version.to_string
list_upgradable_sound_example =
    list_upgradable_sound plain_qt two_layers.cache offers_new (codes "app") (codes "app")
      demo_upgrades refl
