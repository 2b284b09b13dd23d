-- ===== src/Scenarios/Requesting.antt =====
-- Requests to install and to update packages, at concrete inputs.
use linglong.Prelude.{
  ℕ, suc, ◌+◌, ◌≡◌, ◌≢◌, refl, ◌⊎◌, inl, inr, Bool, true, false, Option, none, some, List, [], ◌++◌,
  String, All, arith, length, ltb,
}
use linglong.Prelude.Text.{Text, codes}
use linglong.Prelude.Result.{ok}
use linglong.Utils.Transaction
use linglong.Package.Qt.{plain_qt}
use linglong.Package.Architecture.{x86_64}
use linglong.Package.Reference.{Reference}
use linglong.Task
use linglong.Task.{Double, Task}
use linglong.Repo.Layers.{get_module_list}
use linglong.PackageManager.World.{Env, World, is_task_done, pull_module}
use linglong.PackageManager.Uninstall.{uninstall_package}
use linglong.PackageManager.Replace.{remove_after_install}
use linglong.PackageManager.Install.{begin_install, pull_modules, after_install_ref}
use linglong.PackageManager.Requests.{accepted, fuzzy_reference_from_package}
use linglong.PackageManager.InstallRequest.{InstallJob, install_request}
use linglong.PackageManager.InstallRequest.Versions.{IsAccepted, install_request_sound}
use linglong.Scenarios.Data.{demo, two_layers}
use linglong.Scenarios.Worlds.{new_demo, offers_new, env_with, demo_package, no_options}

abbrev demo_spec : Text
demo_spec = codes "stable:main/org.demo/x86_64/binary"

abbrev demo_job : InstallJob
demo_job = record {
  spec = demo_spec;
  new_ref = new_demo;
  old_ref = some demo;
  module_name = codes "binary";
  asks = true;
}

install_request_sound_example :
    (fuzzy : linglong.Package.FuzzyReference.FuzzyReference) × (fuzzy_reference_from_package
        plain_qt demo_package
      ≡ ok fuzzy)
    × IsAccepted (env_with offers_new) [] no_options two_layers (codes "binary") fuzzy demo_job
unfolding linglong.PackageManager.InstallRequest.install_request
    linglong.PackageManager.InstallRequest.install_latest linglong.Package.Reference.to_string
    linglong.PackageManager.Requests.module_or_binary
    linglong.PackageManager.Requests.fuzzy_reference_from_package
    linglong.PackageManager.Prune.local_only linglong.PackageManager.Requests.clear_as
    linglong.PackageManager.InstallRequest.ok_or_none
    linglong.PackageManager.InstallRequest.install_from linglong.Package.Architecture.to_string
    linglong.Package.Version.to_string linglong.PackageManager.Requests.parse_optional_version
    linglong.Package.FuzzyReference.create linglong.Repo.Resolve.clear_reference
    linglong.PackageManager.InstallRequest.check_versions
    linglong.PackageManager.InstallRequest.has_binary linglong.PackageManager.Requests.force_remote
    linglong.PackageManager.Install.install linglong.PackageManager.InstallRequest.wanted
    linglong.Repo.Pull.is_main_name linglong.Package.Version.tweak_text
    linglong.Package.Version.parse linglong.Prelude.Text.is_empty
    linglong.Repo.Resolve.clear_reference_remote linglong.Repo.Resolve.clear_reference_local
    linglong.Package.Version.eq linglong.PackageManager.Requests.start_for
    linglong.PackageManager.InstallRequest.new_job linglong.Package.Version.gt
    linglong.PackageManager.World.get_layer_dir linglong.PackageManager.World.set_state
    linglong.PackageManager.Install.install_ref linglong.PackageManager.Install.after_install_ref
    linglong.PackageManager.World.is_task_done linglong.Prelude.Text.text_eq
    linglong.Package.VersionPattern.match_version linglong.Package.Version.parse_tweak
    linglong.Repo.Resolve.pick linglong.Repo.Resolve.check_arch linglong.Repo.Resolve.find_layer
    linglong.Repo.Resolve.by_id linglong.Repo.Resolve.layer_reference
    linglong.Repo.Cache.query_layer_item linglong.Package.Version.tweak_or_zero
    linglong.Package.Version.has_tweak linglong.PackageManager.Requests.ref_spec
    linglong.PackageManager.Requests.is_operated linglong.Package.Version.lt
    linglong.Repo.Layers.get_layer_item linglong.Task.update_state
    linglong.PackageManager.Install.restore_modules linglong.PackageManager.Install.pull_modules
    linglong.PackageManager.Install.begin_install linglong.PackageManager.Install.deleted_of
    linglong.Utils.Transaction.start linglong.PackageManager.World.merge_world
    linglong.Utils.Transaction.destroy linglong.PackageManager.Prune.is_app
    linglong.PackageManager.Install.finish_install linglong.PackageManager.World.set_sub_state
    linglong.PackageManager.Install.replace_old linglong.Utils.Transaction.add_roll_back
    linglong.Task.report_error linglong.PackageManager.Uninstall.undo_install linglong.Task.is_done
    linglong.Package.Pattern.scan_numeral linglong.Repo.Resolve.better
    linglong.Repo.Resolve.candidate linglong.Repo.Resolve.drop_tweak linglong.Repo.Cache.is_deleted
    linglong.Package.Reference.create linglong.Package.Architecture.parse
    linglong.Repo.Cache.selects linglong.Repo.Cache.sort_layers linglong.Prelude.keep
    linglong.Prelude.find_first linglong.Repo.Layers.current_name linglong.Repo.Layers.exactly
    linglong.Repo.Layers.only_layer linglong.Task.done_or linglong.Task.count_part
    linglong.Task.is_part_completed linglong.Task.update_sub_state linglong.Task.is_final
    linglong.PackageManager.World.undo_mark linglong.PackageManager.Install.unmark
    linglong.PackageManager.Install.is_module_of linglong.Prelude.erase_first
    linglong.PackageManager.World.pull_module linglong.PackageManager.Install.pull_needed
    linglong.Utils.Transaction.commit linglong.PackageManager.World.undo_pull
    linglong.PackageManager.Install.check_arch linglong.PackageManager.World.with_repo
    linglong.Repo.Merge.merge_modules linglong.Utils.Transaction.run_all
    linglong.PackageManager.World.export_reference
    linglong.PackageManager.Replace.remove_after_install linglong.Repo.Layers.get_module_list
    linglong.Task.emit linglong.Task.get_percentage linglong.Package.Pattern.span_digits
    linglong.Package.Version.ge linglong.Repo.Resolve.offers_module linglong.Repo.Cache.accepts_flag
    linglong.Repo.Cache.accepts linglong.Repo.Cache.accepts_option linglong.Repo.Cache.insert_layer
    linglong.Task.sub_state_weight linglong.PackageManager.World.mark_module linglong.Repo.Pull.pull
    linglong.PackageManager.Dependencies.pull_dependency linglong.PackageManager.World.remove_module
    linglong.Package.Architecture.same linglong.PackageManager.World.unexport_reference
    linglong.PackageManager.Replace.mark_modules linglong.PackageManager.World.is_ref_busy
    linglong.PackageManager.Replace.remove_modules linglong.Repo.Layers.sort_modules
    linglong.Prelude.Text.text_lt linglong.Repo.Layers.mark_deleted
    linglong.Repo.Names.ostree_spec_from_reference_v2 linglong.Repo.Pull.take_reports
    linglong.Repo.Names.ostree_spec_from_reference linglong.Repo.Pull.add_pulled
    linglong.Repo.Pull.pull_old linglong.Repo.Pull.has_part
    linglong.PackageManager.Dependencies.pull_base linglong.PackageManager.Dependencies.pull_runtime
    linglong.Repo.Layers.remove linglong.PackageManager.World.undo_remove
    linglong.PackageManager.Replace.finish_replace linglong.Repo.Layers.insert_module
    linglong.Repo.Layers.mark_item linglong.Repo.Cache.find_matching_item
    linglong.Repo.Names.with_repo linglong.Repo.Names.reference_path linglong.Repo.Pull.take_report
    linglong.Repo.Pull.handle_repository_update linglong.Repo.Pull.tell
    linglong.Repo.Pull.starts_with linglong.PackageManager.Dependencies.obtain
    linglong.PackageManager.Dependencies.resolve_dependency linglong.Repo.Layers.remove_ostree_ref
    linglong.Task.create_temporary_task linglong.Repo.Cache.save linglong.Repo.Layers.set_mark
    linglong.Repo.Layers.settle linglong.Repo.Cache.matches linglong.Task.update_task
    linglong.Repo.Cache.add_layer_item linglong.Package.FuzzyReference.parse
    linglong.PackageManager.Dependencies.with_fallback linglong.Repo.Cache.delete_layer_item
    linglong.Task.start linglong.Repo.Cache.write_to_disk linglong.Prelude.update_first
    linglong.Repo.Layers.set_deleted linglong.Repo.Cache.front
    linglong.Package.FuzzyReference.parse_channel linglong.Package.FuzzyReference.parse_version
    linglong.Package.FuzzyReference.match_fuzzy linglong.Package.FuzzyReference.parse_architecture
    linglong.Package.FuzzyReference.is_open linglong.Package.FuzzyReference.match_id
    linglong.Package.Pattern.expect linglong.Package.Pattern.span_until
    linglong.Package.FuzzyReference.match_rest linglong.Package.Pattern.at_end
    linglong.Package.Numeral.decimal linglong.Package.Numeral.value_from
    linglong.Repo.Cache.query_existing_layer_item linglong.Repo.Cache.update_merged_items
install_request_sound_example =
    install_request_sound (env_with offers_new) [] no_options two_layers demo_package demo_job refl
