-- ===== src/Scenarios/Repositories.antt =====
-- Changing the cache, the merged modules and the configuration, at concrete inputs.
use linglong.Prelude.{◌≡◌, refl, ◌⊎◌, inl, inr, true, false, Option, none, some, List, [], ◌∷◌, map}
use linglong.Prelude.Text.{Text, codes, text_eq}
use linglong.Prelude.Result.{ok, err}
use linglong.Api.{MergedItem, RepoConfig, RepositoryCache}
use linglong.Repo.Cache.{written, RepoCache, delete_layer_item}
use linglong.Repo.Cache.Refines.{
  Change, add, delete, run_changes, change_all, holds, run_changes_refine,
}
use linglong.Repo.Reachable
use linglong.Repo.Merge.{Groups, merge_modules}
use linglong.Repo.Merge.Records.{existing, AreRecords, merge_modules_records}
use linglong.Repo.Merge.Groups.{IsGrouping}
use linglong.Repo.Cache.Rebuild.{create, rebuild_cache, empty_cache}
use linglong.Repo.Cache.Rebuild.Current.{create_again}
use linglong.Repo.Config.Restores.{set_config_restores, update_config_leaves}
use linglong.Repo.Config.{url_of, set_config, update_config}
use linglong.Cli.Repositories.{run_repo, add_repo, change_repos, sends}
use linglong.Cli.Repositories.Edits.{IsComplete, change_repos-add}
use linglong.Cli.Repositories.Keeps.{run_repo_keeps_default}
use linglong.Scenarios.Data.{now, base_layer, two_layers, working_disk, both-AreDistinct}
use linglong.Scenarios.Worlds.{
  develop_layer, two_modules, plain_merger, one_ref, versions, stable, nightly, settings, refusing,
}

abbrev two_changes : List Change
two_changes = add develop_layer ∷ delete base_layer ∷ []

run_changes_refine_example :
    holds (run_changes now two_changes two_layers).cache.layers develop_layer
    ≡ change_all two_changes (holds two_layers.cache.layers) develop_layer
run_changes_refine_example =
    run_changes_refine now two_changes two_layers develop_layer both-AreDistinct

abbrev without_base : RepoCache
without_base = (delete_layer_item now base_layer two_layers).1

merge_modules_records_example :
    (groups : Groups) × (items : List MergedItem) × IsGrouping (existing two_modules.cache) groups
    × AreRecords plain_merger groups items
    × ((merge_modules plain_merger now two_modules).1.cache
        ≡ record (two_modules.cache) { merged = some items })
    × ((merge_modules plain_merger now two_modules).1.disk.file
        ≡ some (written two_modules.disk (record (two_modules.cache) { merged = some items })))
unfolding linglong.Repo.Merge.merge_modules linglong.Repo.Cache.query_existing_layer_item
    linglong.Prelude.keep linglong.Repo.Cache.is_deleted linglong.Prelude.Text.text_eq
    linglong.Repo.Cache.front linglong.Repo.Layers.sort_modules linglong.Repo.Layers.insert_module
    linglong.Prelude.Text.text_lt linglong.Prelude.Text.is_empty
    linglong.Repo.Cache.update_merged_items linglong.Repo.Cache.save
    linglong.Repo.Cache.write_to_disk
merge_modules_records_example = merge_modules_records plain_merger now two_modules refl

abbrev created : RepoCache
created =
    (rebuild_cache one_ref versions stable (record { cache = empty_cache; disk = working_disk })).1

-- The answer of the next start, which reads the file that the first has left.
abbrev loads_created : Text → Option RepositoryCache
loads_created = λ _. some created.cache

create_again_example : create one_ref versions stable false loads_created created.disk ≡ ok created
unfolding linglong.Repo.Cache.Rebuild.create linglong.Repo.Cache.Rebuild.empty_cache
    linglong.Repo.Cache.Rebuild.rebuilt_or_error linglong.Repo.Cache.Rebuild.is_outdated
    linglong.Repo.Cache.Rebuild.rebuild_cache linglong.Prelude.Text.text_eq
    linglong.Repo.Cache.Rebuild.layers_of_refs linglong.Repo.Cache.Rebuild.write_rebuilt
    linglong.Repo.Cache.Rebuild.cleared linglong.Repo.Cache.Rebuild.layer_of_ref
    linglong.Repo.Cache.write_to_disk linglong.Repo.Cache.Rebuild.repo_of
    linglong.Package.Numeral.decimal linglong.Package.Numeral.value_from
create_again_example =
    create_again one_ref versions stable one_ref false loads_created working_disk created refl refl
      refl

set_config_restores_example :
    let s' = (set_config refusing nightly settings).1 in
    (s'.cfg ≡ stable)
    × (s'.server ≡ settings.server)
    × ((s'.file ≡ some stable) ⊎ (s'.file ≡ some stable))
unfolding linglong.Repo.Config.set_config linglong.Repo.Config.save_config
    linglong.Repo.Config.set_remote linglong.Repo.Config.default_url
    linglong.Repo.Config.undo_remote linglong.Utils.Transaction.start linglong.Repo.Config.undo_save
    linglong.Repo.Config.rebuild_for linglong.Repo.Config.change_remote
    linglong.Utils.Transaction.destroy linglong.Utils.Transaction.add_roll_back
    linglong.Repo.Config.url_of linglong.Repo.Cache.Rebuild.rebuild_cache
    linglong.Utils.Transaction.commit linglong.Utils.Transaction.run_all
    linglong.Prelude.Text.text_eq linglong.Repo.Cache.Rebuild.layers_of_refs
    linglong.Repo.Cache.Rebuild.write_rebuilt linglong.Repo.Cache.Rebuild.cleared
    linglong.Repo.Cache.Rebuild.layer_of_ref linglong.Repo.Cache.write_to_disk
    linglong.Repo.Cache.Rebuild.repo_of linglong.Package.Numeral.decimal
    linglong.Package.Numeral.value_from
set_config_restores_example =
    set_config_restores refusing nightly (codes "https://a") settings "ostree_repo_remote_change"
      refl refl refl refl

update_config_leaves_example :
    let (result, s') = update_config refusing nightly settings in
    (result ≡ err "ostree_repo_remote_change") × (s'.cfg ≡ stable) × (s'.file ≡ some nightly)
unfolding linglong.Repo.Config.update_config linglong.Repo.Config.save_config
    linglong.Repo.Config.update_remote linglong.Repo.Config.default_url
    linglong.Utils.Transaction.add_roll_back linglong.Repo.Config.undo_remote
    linglong.Utils.Transaction.destroy linglong.Utils.Transaction.start
    linglong.Repo.Config.change_remote linglong.Utils.Transaction.commit linglong.Repo.Config.url_of
    linglong.Utils.Transaction.run_all linglong.Prelude.Text.text_eq
    linglong.Package.Numeral.decimal linglong.Package.Numeral.value_from
update_config_leaves_example =
    update_config_leaves refusing nightly (codes "https://b") settings "ostree_repo_remote_change"
      refl refl refl refl

abbrev stable-IsComplete : IsComplete stable
unfolding linglong.Repo.Config.url_of linglong.Prelude.Text.text_eq
stable-IsComplete = (codes "https://a", refl)

run_repo_keeps_default_example :
    IsComplete
      (run_repo refusing true add_repo (codes "nightly") (codes "https://b/") settings).1.cfg
run_repo_keeps_default_example =
    run_repo_keeps_default refusing true add_repo (codes "nightly") (codes "https://b/") settings
      stable-IsComplete

change_repos-add_example :
    (config : RepoConfig) × (change_repos add_repo stable (codes "nightly") (codes "https://b/")
      ≡ sends config)
    × (url_of (codes "nightly") config.repos ≡ some (codes "https://b/"))
    × ((other : Text)
        → text_eq (codes "nightly") other ≡ false
        → url_of other config.repos ≡ url_of other stable.repos)
unfolding linglong.Repo.Config.url_of linglong.Prelude.Text.text_eq
    linglong.Cli.Repositories.is_bad_url linglong.Repo.Pull.starts_with
change_repos-add_example = change_repos-add stable (codes "nightly") (codes "https://b/") refl refl
