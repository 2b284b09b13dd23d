-- ===== src/Scenarios/Managing.antt =====
-- Installing and removing packages, at concrete inputs.
use linglong.Prelude.{
  ℕ, suc, ◌+◌, ◌≡◌, ◌≢◌, refl, ◌⊎◌, inl, inr, Bool, true, false, Option, none, some, List, [], ◌∷◌,
  ◌++◌, String, All, arith, length, ltb,
}
use linglong.Prelude.Text.{Text, codes, text_eq, text_eq_iff}
use linglong.Package.Version
use linglong.Utils.Transaction
use linglong.Package.Architecture.{x86_64}
use linglong.Package.Reference.{Reference}
use linglong.Task
use linglong.Task.{Double, Task}
use linglong.Task.Reports.{IsOpen}
use linglong.Repo.Layers.{get_module_list}
use linglong.PackageManager.World.{Env, World, is_task_done, pull_module}
use linglong.PackageManager.Uninstall.{uninstall_package}
use linglong.PackageManager.Uninstall.Removes.{Gone, uninstall_package_removes}
use linglong.PackageManager.Replace.{remove_after_install}
use linglong.PackageManager.Install.{install}
use linglong.PackageManager.Install.Installed.{Differs, Installed}
use linglong.PackageManager.Install.Succeeds.{install-Installed}
use linglong.Package.Qt.{plain_qt}
use linglong.Scenarios.Data.{demo, two_layers}
use linglong.Scenarios.Worlds.{new_demo, plain_double, two_parts, offers_new, env_with, world_of}

abbrev two_layers_world : World plain_double
two_layers_world = world_of two_layers

abbrev two_parts-IsOpen : IsOpen two_parts
unfolding linglong.Task.start
two_parts-IsOpen = λ e. omega (arith, e)

uninstall_package_removes_example :
    Gone
      (env_with offers_new)
      demo
      two_layers_world
      (uninstall_package (env_with offers_new) demo (codes "binary") two_layers_world)
unfolding linglong.PackageManager.Uninstall.uninstall_package linglong.Task.start
    linglong.PackageManager.World.is_task_done linglong.Repo.Pull.is_main_name
    linglong.Repo.Layers.get_module_list linglong.PackageManager.Uninstall.uninstall_ref
    linglong.PackageManager.World.set_state linglong.PackageManager.Uninstall.finish_uninstall
    linglong.Utils.Transaction.start linglong.PackageManager.World.unexport_reference
    linglong.PackageManager.World.export_reference linglong.Utils.Transaction.add_roll_back
    linglong.PackageManager.World.set_sub_state linglong.Task.is_done linglong.Prelude.Text.text_eq
    linglong.Repo.Cache.query_layer_item linglong.Package.Version.to_string
    linglong.Repo.Layers.sort_modules linglong.PackageManager.Uninstall.uninstall_modules
    linglong.Task.update_state linglong.Utils.Transaction.commit
    linglong.PackageManager.World.merge_world linglong.Utils.Transaction.destroy
    linglong.Package.Reference.to_string linglong.Task.update_sub_state linglong.Prelude.keep
    linglong.Repo.Cache.sort_layers linglong.Repo.Cache.selects linglong.Package.Version.tweak_text
    linglong.Repo.Layers.insert_module linglong.PackageManager.World.with_repo
    linglong.PackageManager.World.undo_remove linglong.PackageManager.World.remove_module
    linglong.Task.done_or linglong.Task.is_part_completed linglong.Task.is_final
    linglong.Task.count_part linglong.Repo.Merge.merge_modules linglong.Utils.Transaction.run_all
    linglong.Package.Architecture.to_string linglong.Task.sub_state_weight
    linglong.Task.get_percentage linglong.Task.emit linglong.Repo.Cache.insert_layer
    linglong.Repo.Cache.accepts linglong.Repo.Cache.accepts_flag linglong.Repo.Cache.accepts_option
    linglong.Prelude.Text.text_lt linglong.Task.create_temporary_task linglong.Repo.Pull.pull
    linglong.Repo.Layers.remove linglong.Repo.Names.ostree_spec_from_reference_v2
    linglong.Task.report_error linglong.Repo.Pull.has_part linglong.Repo.Pull.pull_old
    linglong.Repo.Pull.take_reports linglong.Repo.Names.ostree_spec_from_reference
    linglong.Repo.Pull.add_pulled linglong.Repo.Layers.remove_ostree_ref
    linglong.Repo.Layers.get_layer_item linglong.Repo.Names.with_repo
    linglong.Repo.Names.reference_path linglong.Repo.Pull.starts_with linglong.Repo.Pull.take_report
    linglong.Repo.Pull.handle_repository_update linglong.Repo.Pull.tell
    linglong.Repo.Cache.delete_layer_item linglong.Repo.Layers.exactly
    linglong.Repo.Layers.only_layer linglong.Repo.Layers.current_name linglong.Task.update_task
    linglong.Repo.Cache.add_layer_item linglong.Repo.Cache.matches linglong.Repo.Cache.save
    linglong.Prelude.erase_first linglong.Repo.Cache.find_matching_item linglong.Repo.Cache.front
    linglong.Repo.Cache.write_to_disk linglong.Prelude.find_first linglong.Package.Numeral.decimal
    linglong.Package.Numeral.value_from
uninstall_package_removes_example =
    uninstall_package_removes (env_with offers_new) demo (codes "binary") two_layers_world
      two_parts-IsOpen refl refl refl

-- The world after an update of the demo, whose old version is removed.
abbrev updated_world : World plain_double
updated_world =
    elim (install (env_with offers_new) new_demo (some demo) (codes "binary" ∷ [])
      two_layers_world) [ none ↦ two_layers_world | some w ↦ w ]

abbrev demo-Differs : Differs plain_qt new_demo (some demo)
unfolding linglong.Package.Version.to_string linglong.Package.Version.tweak_text
    linglong.Package.Numeral.decimal linglong.Package.Numeral.value_from
    linglong.Prelude.Text.text_eq
demo-Differs = λ e.
    let new = Version.to_string plain_qt new_demo.version in
    let old = Version.to_string plain_qt demo.version in
    let apart : text_eq new old ≡ false = refl in cc ((text_eq_iff new old).1 e, apart)

install-Installed_example : Installed (env_with offers_new) new_demo updated_world
unfolding linglong.PackageManager.Install.after_install_ref linglong.Task.start
    linglong.PackageManager.Prune.is_app linglong.PackageManager.World.set_sub_state
    linglong.PackageManager.Install.install linglong.PackageManager.Install.finish_install
    linglong.Utils.Transaction.start linglong.PackageManager.Install.replace_old
    linglong.Utils.Transaction.destroy linglong.PackageManager.Uninstall.undo_install
    linglong.Utils.Transaction.add_roll_back linglong.Repo.Layers.get_layer_item
    linglong.PackageManager.World.merge_world linglong.Task.report_error
    linglong.Prelude.Text.text_eq linglong.Task.update_sub_state
    linglong.Package.Reference.to_string linglong.PackageManager.World.is_task_done
    linglong.PackageManager.World.set_state linglong.PackageManager.Install.install_ref
    linglong.Utils.Transaction.commit linglong.Repo.Layers.get_module_list
    linglong.PackageManager.World.export_reference
    linglong.PackageManager.Replace.remove_after_install linglong.Utils.Transaction.run_all
    linglong.Repo.Cache.query_layer_item linglong.Repo.Layers.current_name
    linglong.Repo.Layers.exactly linglong.Repo.Layers.only_layer linglong.Repo.Merge.merge_modules
    linglong.PackageManager.World.with_repo linglong.Task.emit linglong.Task.get_percentage
    linglong.Task.sub_state_weight linglong.Task.is_done linglong.Package.Version.to_string
    linglong.Package.Architecture.to_string linglong.Task.update_state
    linglong.PackageManager.Install.deleted_of linglong.PackageManager.Install.pull_modules
    linglong.PackageManager.Install.restore_modules linglong.PackageManager.Install.begin_install
    linglong.Repo.Layers.sort_modules linglong.PackageManager.Replace.remove_modules
    linglong.PackageManager.World.is_ref_busy linglong.PackageManager.Replace.mark_modules
    linglong.PackageManager.World.unexport_reference linglong.Prelude.keep
    linglong.Repo.Cache.selects linglong.Repo.Cache.sort_layers linglong.Package.Version.tweak_text
    linglong.Task.is_part_completed linglong.Task.is_final linglong.Task.done_or
    linglong.Task.count_part linglong.PackageManager.World.pull_module
    linglong.PackageManager.World.undo_pull linglong.PackageManager.Install.pull_needed
    linglong.Repo.Pull.is_main_name linglong.PackageManager.Install.is_module_of
    linglong.PackageManager.Install.unmark linglong.PackageManager.World.undo_mark
    linglong.Prelude.erase_first linglong.Prelude.find_first
    linglong.PackageManager.Install.check_arch linglong.Repo.Layers.insert_module
    linglong.PackageManager.Replace.finish_replace linglong.PackageManager.World.undo_remove
    linglong.PackageManager.World.remove_module linglong.PackageManager.World.mark_module
    linglong.Repo.Cache.accepts_flag linglong.Repo.Cache.accepts_option linglong.Repo.Cache.accepts
    linglong.Repo.Cache.insert_layer linglong.Repo.Pull.pull
    linglong.PackageManager.World.get_layer_dir linglong.PackageManager.Dependencies.pull_dependency
    linglong.Package.Architecture.same linglong.Prelude.Text.text_lt
    linglong.Task.create_temporary_task linglong.Repo.Layers.remove
    linglong.Repo.Layers.mark_deleted linglong.Repo.Names.ostree_spec_from_reference_v2
    linglong.Repo.Pull.pull_old linglong.Repo.Pull.add_pulled linglong.Repo.Pull.take_reports
    linglong.Repo.Names.ostree_spec_from_reference linglong.Repo.Pull.has_part
    linglong.PackageManager.Dependencies.pull_runtime linglong.PackageManager.Dependencies.pull_base
    linglong.Repo.Layers.remove_ostree_ref linglong.Repo.Layers.mark_item
    linglong.Repo.Cache.find_matching_item linglong.Repo.Names.with_repo
    linglong.Repo.Names.reference_path linglong.Repo.Pull.tell
    linglong.Repo.Pull.handle_repository_update linglong.Repo.Pull.take_report
    linglong.Repo.Pull.starts_with linglong.PackageManager.Dependencies.obtain
    linglong.PackageManager.Dependencies.resolve_dependency linglong.Repo.Cache.delete_layer_item
    linglong.Repo.Layers.set_mark linglong.Repo.Layers.settle linglong.Repo.Cache.save
    linglong.Repo.Cache.matches linglong.Repo.Cache.add_layer_item linglong.Task.update_task
    linglong.Repo.Resolve.clear_reference linglong.PackageManager.Dependencies.with_fallback
    linglong.Package.FuzzyReference.parse linglong.Repo.Layers.set_deleted
    linglong.Prelude.update_first linglong.Repo.Cache.write_to_disk linglong.Repo.Cache.front
    linglong.Repo.Resolve.clear_reference_remote linglong.Repo.Resolve.clear_reference_local
    linglong.Package.FuzzyReference.parse_channel linglong.Package.FuzzyReference.parse_architecture
    linglong.Package.FuzzyReference.create linglong.Package.FuzzyReference.parse_version
    linglong.Package.FuzzyReference.match_fuzzy linglong.Repo.Resolve.pick
    linglong.Repo.Resolve.by_id linglong.Repo.Resolve.layer_reference
    linglong.Repo.Resolve.check_arch linglong.Repo.Resolve.find_layer
    linglong.Package.FuzzyReference.is_open linglong.Package.Architecture.parse
    linglong.Prelude.Text.is_empty linglong.Package.Version.parse
    linglong.Package.FuzzyReference.match_id linglong.Package.Pattern.span_until
    linglong.Package.Pattern.expect linglong.Repo.Resolve.better linglong.Repo.Resolve.candidate
    linglong.Package.Reference.create linglong.Repo.Cache.is_deleted
    linglong.Repo.Resolve.drop_tweak linglong.Package.Version.eq
    linglong.Package.Version.parse_tweak linglong.Package.VersionPattern.match_version
    linglong.Package.FuzzyReference.match_rest linglong.Package.Version.ge
    linglong.Repo.Resolve.offers_module linglong.Package.Version.has_tweak
    linglong.Package.Version.tweak_or_zero linglong.Package.Pattern.scan_numeral
    linglong.Package.Pattern.at_end linglong.Package.Version.gt linglong.Package.Pattern.span_digits
    linglong.Package.Version.lt linglong.Package.Numeral.decimal linglong.Package.Numeral.value_from
    linglong.Repo.Cache.query_existing_layer_item linglong.Repo.Cache.update_merged_items
install-Installed_example =
    install-Installed (env_with offers_new) new_demo (some demo) (codes "binary" ∷ [])
      two_layers_world updated_world two_parts-IsOpen demo-Differs refl refl
