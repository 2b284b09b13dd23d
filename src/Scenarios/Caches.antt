-- ===== src/Scenarios/Caches.antt =====
-- The cache of the repository and what is looked up in it, at concrete inputs.
use mathlib.Core.List.{Mem, mem-cons_self}
use linglong.Prelude.{
  ◌≡◌, ◌≢◌, refl, ◌⊎◌, inl, inr, Bool, true, false, Option, none, some, List, [], ◌∷◌, ◌++◌, keep,
  find_first, erase_first, All, if◌then◌else◌, arith,
}
use linglong.Prelude.Text.{Text, codes, text_eq, text_eq_iff, text_lt}
use linglong.Prelude.Result.{ok, err}
use linglong.Api.{PackageInfoV2, LayersItem}
use linglong.Package.Qt.{plain_qt}
use linglong.Package.Architecture.{x86_64}
use linglong.Package.FuzzyReference.{FuzzyReference}
use linglong.Package.Reference
use linglong.Package.Reference.{Reference}
use linglong.Repo.Cache.{
  matches, find_matching_item, write_to_disk, RepoCache, add_layer_item, delete_layer_item,
  is_deleted, selects, query_layer_item,
}
use linglong.Repo.Cache.Changes.{Written, write_to_disk_atomic, Saved, add_layer_item_cases}
use linglong.Repo.Resolve.{candidate, by_id, clear_reference_local, clear_reference_remote}
use linglong.Repo.Resolve.Remote.{NotBefore, Fits, clear_reference_remote_greatest}
use linglong.Repo.Resolve.Local.{
  Chosen, clear_reference_local_sound, clear_reference_local_greatest,
}
use linglong.Repo.Layers.{exactly, current_name, list_local, list_local_latest, Ostree, remove}
use linglong.Repo.Layers.Unique.{AreUnique}
use linglong.Repo.Layers.Rounds.{Covers}
use linglong.Repo.Layers.Latest.{list_local_latest_unique}
use linglong.Scenarios.Data.{
  now, both, demo, info_of, layer_of, demo_layer, working_disk, two_layers,
}

abbrev other_layer : LayersItem
other_layer = layer_of (info_of (codes "org.other") (codes "app") (codes "2.0.0.0")) (codes "c3")

write_to_disk_atomic_example : Written both working_disk (write_to_disk now both working_disk)
write_to_disk_atomic_example = write_to_disk_atomic now both working_disk

add_layer_item_cases_example :
    ((find_first (matches other_layer) both.layers ≢ none)
      × (add_layer_item now other_layer two_layers ≡ (err "item already exist", two_layers)))
    ⊎ ((find_first (matches other_layer) both.layers ≡ none)
        × Saved
            (both.layers ++ (other_layer ∷ []))
            two_layers
            (add_layer_item now other_layer two_layers))
add_layer_item_cases_example = add_layer_item_cases now other_layer two_layers

abbrev fuzzy_demo : FuzzyReference
fuzzy_demo = record { channel = none; id = codes "org.demo"; version = none; arch = none }

local_demo : clear_reference_local plain_qt (ok x86_64) both fuzzy_demo ≡ some (ok demo)
unfolding clear_reference_local linglong.Repo.Resolve.check_arch query_layer_item keep
    linglong.Repo.Cache.accepts by_id text_eq linglong.Repo.Cache.accepts_flag
    linglong.Repo.Cache.accepts_option linglong.Repo.Resolve.find_layer is_deleted
    linglong.Package.Version.parse linglong.Package.VersionPattern.match_version
    linglong.Package.Pattern.scan_numeral linglong.Package.Pattern.expect
    linglong.Package.Pattern.span_digits linglong.Package.Pattern.at_end
    linglong.Package.Numeral.value_from linglong.Package.Architecture.parse
    linglong.Package.Architecture.to_string Reference.create linglong.Package.Version.eq
    linglong.Package.Version.has_tweak linglong.Package.Version.parse_tweak
    linglong.Package.Version.tweak_or_zero linglong.Prelude.Text.is_empty
    linglong.Prelude.Text.text_lt linglong.Repo.Cache.insert_layer selects
    linglong.Repo.Cache.sort_layers linglong.Repo.Resolve.drop_tweak
    linglong.Repo.Resolve.layer_reference
local_demo = refl

clear_reference_local_sound_example : Chosen plain_qt both fuzzy_demo demo
clear_reference_local_sound_example =
    clear_reference_local_sound plain_qt (ok x86_64) both fuzzy_demo demo local_demo

selects_test : selects (by_id (codes "org.demo")) demo_layer ≡ true
unfolding selects linglong.Repo.Cache.accepts by_id text_eq linglong.Repo.Cache.accepts_flag
    linglong.Repo.Cache.accepts_option
selects_test = refl

clear_reference_local_greatest_example :
    (chosen : Chosen plain_qt both fuzzy_demo demo) × (text_lt chosen.layer.info.version
        demo_layer.info.version
      ≡ false)
unfolding is_deleted
clear_reference_local_greatest_example =
    clear_reference_local_greatest plain_qt (ok x86_64) both fuzzy_demo demo demo_layer refl
      local_demo mem-cons_self selects_test refl

abbrev remote_list : List PackageInfoV2
remote_list = demo_layer.info ∷ []

clear_reference_remote_greatest_example :
    All (λ info. NotBefore demo (candidate plain_qt fuzzy_demo (codes "binary") info)) remote_list
    × ((info : PackageInfoV2) × Mem info remote_list
        × (candidate plain_qt fuzzy_demo (codes "binary") info ≡ some demo)
        × Fits plain_qt fuzzy_demo (codes "binary") info demo)
unfolding clear_reference_remote linglong.Repo.Resolve.pick linglong.Repo.Resolve.better candidate
    linglong.Prelude.Text.text_eq linglong.Package.Version.parse
    linglong.Package.VersionPattern.match_version linglong.Package.Pattern.scan_numeral
    linglong.Package.Pattern.expect linglong.Package.Pattern.span_digits
    linglong.Package.Pattern.at_end linglong.Package.Numeral.value_from
    linglong.Repo.Resolve.offers_module linglong.Package.Architecture.parse Reference.create
    linglong.Prelude.Text.is_empty
clear_reference_remote_greatest_example =
    clear_reference_remote_greatest plain_qt fuzzy_demo (codes "binary") (λ _. ok remote_list)
      remote_list demo refl refl

list_local_latest_unique_example :
    AreUnique (list_local both) × All (Covers plain_qt (list_local both)) (list_local both)
unfolding list_local_latest list_local linglong.Repo.Layers.latest_from
    linglong.Repo.Cache.query_existing_layer_item keep is_deleted linglong.Repo.Layers.latest_step
    find_first linglong.Repo.Layers.has_id linglong.Prelude.Text.text_eq
list_local_latest_unique_example = list_local_latest_unique plain_qt both (list_local both) refl
