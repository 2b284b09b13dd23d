-- ===== src/Scenarios/Failing.antt =====
-- Installations and removals that go wrong, at concrete inputs.
use linglong.Prelude.{
  ℕ, suc, ◌+◌, ◌≡◌, ◌≢◌, refl, ◌⊎◌, inl, inr, Bool, true, false, Option, none, some, List, [], ◌∷◌,
  ◌++◌, String, All, arith, length, ltb,
}
use linglong.Prelude.Text.{Text, codes}
use linglong.Prelude.Result.{err}
use linglong.Api.{failed, succeed}
use linglong.Utils.Transaction
use linglong.Package.Architecture.{x86_64}
use linglong.Package.Reference.{Reference}
use linglong.Task
use linglong.Task.{Double, Task}
use linglong.Repo.Layers.{get_module_list}
use linglong.PackageManager.World.{Env, World, is_task_done, pull_module}
use linglong.PackageManager.Replace.{remove_after_install}
use linglong.PackageManager.Replace.Stops.{remove_after_install_stops}
use linglong.PackageManager.Install.{begin_install, pull_modules}
use linglong.PackageManager.Install.GoesOn.{begin_install_goes_on, pull_modules_without_dependency}
use linglong.Scenarios.Data.{demo, two_layers}
use linglong.Scenarios.Worlds.{
  plain_double, new_info, new_demo, foreign_demo, offers_new, offers_nothing, env_with, world_of,
  two_modules, no_layers,
}

abbrev two_layers_world : World plain_double
two_layers_world = world_of two_layers

remove_after_install_stops_example :
    (remove_after_install
      (env_with offers_new)
      demo
      new_demo
      (codes "binary" ∷ codes "develop" ∷ [])
      (world_of two_modules)).0
    ≡ err "Failed to remove old reference"
unfolding linglong.PackageManager.World.is_ref_busy linglong.Repo.Layers.exactly
    linglong.Repo.Cache.query_layer_item linglong.Prelude.Text.text_eq linglong.Prelude.find_first
    linglong.Package.Reference.to_string linglong.Package.Version.to_string
    linglong.Repo.Cache.sort_layers linglong.Prelude.keep linglong.Repo.Cache.selects
    linglong.Package.Architecture.to_string linglong.Package.Version.tweak_text
    linglong.Repo.Cache.insert_layer linglong.Repo.Cache.accepts_flag linglong.Repo.Cache.accepts
    linglong.Repo.Cache.accepts_option linglong.Prelude.Text.text_lt
    linglong.Package.Numeral.decimal linglong.Package.Numeral.value_from
remove_after_install_stops_example =
    remove_after_install_stops (env_with offers_new) demo new_demo (codes "binary")
      (codes "develop") [] (world_of two_modules) refl refl

begin_install_goes_on_example :
    (w' : World plain_double) × (begin_install (env_with offers_new) foreign_demo two_layers_world
      ≡ some w')
    × (w'.repo ≡ two_layers)
    × (is_task_done w' ≡ false)
begin_install_goes_on_example =
    begin_install_goes_on (env_with offers_new) foreign_demo x86_64 two_layers_world refl

abbrev new_layer : linglong.Api.LayersItem
new_layer = record { commit = codes "c9"; deleted = none; info = new_info; repo = codes "stable" }

pull_modules_without_dependency_example :
    (w' : World plain_double) × (pull_modules
        (env_with offers_nothing)
        new_demo
        (codes "binary" ∷ [])
        linglong.Utils.Transaction.start
        (world_of no_layers)
      ≡ some w')
    × (w'.task.state ≡ failed)
    × (w'.repo
        ≡ (pull_module
            (env_with offers_nothing)
            new_demo
            (codes "binary")
            (world_of no_layers)).repo)
unfolding linglong.PackageManager.World.pull_module linglong.PackageManager.World.is_task_done
    linglong.PackageManager.World.get_layer_dir
    linglong.PackageManager.Dependencies.resolve_dependency linglong.Task.start
    linglong.PackageManager.Prune.is_app linglong.Repo.Pull.is_main_name linglong.Repo.Pull.pull
    linglong.Task.is_done linglong.Repo.Layers.get_layer_item linglong.Repo.Resolve.clear_reference
    linglong.PackageManager.Dependencies.with_fallback linglong.Package.FuzzyReference.parse
    linglong.Prelude.Text.text_eq linglong.Repo.Names.ostree_spec_from_reference_v2
    linglong.Repo.Pull.take_reports linglong.Repo.Pull.pull_old linglong.Task.report_error
    linglong.Repo.Pull.has_part linglong.Repo.Pull.add_pulled
    linglong.Repo.Names.ostree_spec_from_reference linglong.Repo.Layers.exactly
    linglong.Repo.Layers.only_layer linglong.Repo.Layers.current_name
    linglong.Repo.Cache.query_layer_item linglong.Repo.Resolve.clear_reference_local
    linglong.Repo.Resolve.clear_reference_remote linglong.Package.FuzzyReference.parse_channel
    linglong.Package.FuzzyReference.create linglong.Package.FuzzyReference.parse_architecture
    linglong.Package.FuzzyReference.match_fuzzy linglong.Package.FuzzyReference.parse_version
    linglong.Repo.Names.reference_path linglong.Repo.Names.with_repo linglong.Repo.Pull.take_report
    linglong.Task.emit linglong.Task.get_percentage linglong.Repo.Pull.starts_with
    linglong.Repo.Pull.handle_repository_update linglong.Repo.Pull.tell
    linglong.Package.Version.to_string linglong.Prelude.keep linglong.Repo.Cache.selects
    linglong.Repo.Cache.sort_layers linglong.Repo.Resolve.check_arch
    linglong.Repo.Resolve.layer_reference linglong.Repo.Resolve.by_id
    linglong.Repo.Resolve.find_layer linglong.Repo.Resolve.pick
    linglong.Package.FuzzyReference.is_open linglong.Prelude.Text.is_empty
    linglong.Package.Architecture.parse linglong.Package.Pattern.span_until
    linglong.Package.FuzzyReference.match_id linglong.Package.Pattern.expect
    linglong.Package.Version.parse linglong.Package.Architecture.to_string linglong.Task.update_task
    linglong.Task.sub_state_weight linglong.Repo.Cache.add_layer_item
    linglong.Package.Version.tweak_text linglong.Repo.Cache.accepts_option
    linglong.Repo.Cache.accepts_flag linglong.Repo.Cache.accepts linglong.Repo.Cache.insert_layer
    linglong.Package.Reference.create linglong.Repo.Cache.is_deleted linglong.Package.Version.eq
    linglong.Repo.Resolve.drop_tweak linglong.Repo.Resolve.better linglong.Repo.Resolve.candidate
    linglong.Package.FuzzyReference.match_rest linglong.Package.VersionPattern.match_version
    linglong.Package.Version.parse_tweak linglong.Repo.Cache.find_matching_item
    linglong.Repo.Cache.save linglong.Prelude.Text.text_lt linglong.Package.Version.tweak_or_zero
    linglong.Package.Version.has_tweak linglong.Package.Version.ge
    linglong.Repo.Resolve.offers_module linglong.Package.Pattern.at_end
    linglong.Package.Pattern.scan_numeral linglong.Prelude.find_first linglong.Repo.Cache.matches
    linglong.Repo.Cache.write_to_disk linglong.Package.Version.gt
    linglong.Package.Pattern.span_digits linglong.Repo.Cache.front linglong.Package.Version.lt
    linglong.Package.Numeral.decimal linglong.Package.Numeral.value_from
pull_modules_without_dependency_example =
    pull_modules_without_dependency (env_with offers_nothing) new_demo (codes "binary")
      linglong.Utils.Transaction.start (world_of no_layers) new_layer new_info
      "get ref list from remote" (λ e. omega (arith, e)) refl refl refl refl refl refl refl
