-- ===== src/Scenarios/Pruning.antt =====
-- The loops of `Prune` at concrete inputs.
use mathlib.Core.List.{Mem, mem-cons_self, mem-cons_of_mem}
use linglong.Package.Version
use linglong.Repo.Resolve.Total.{IsReadable}
use linglong.PackageManager.Prune.Total.{targets-some}
use linglong.Prelude.{
  ◌≡◌, ◌≢◌, refl, ◌⊎◌, inl, inr, Bool, true, false, Option, none, some, List, [], ◌∷◌, ◌++◌, String,
  keep, find_first, erase_first, All, if◌then◌else◌, arith,
}
use linglong.Prelude.Text.{Text, codes, text_eq, text_eq_iff, text_lt}
use linglong.Prelude.Result.{Result, ok, err}
use linglong.Api.{PackageInfoV2}
use linglong.Package.Qt.{plain_qt}
use linglong.Package.Architecture.{x86_64}
use linglong.Package.FuzzyReference.{FuzzyReference}
use linglong.Package.Reference
use linglong.Package.Reference.{Reference}
use linglong.Repo.Cache.{
  matches, find_matching_item, write_to_disk, RepoCache, add_layer_item, delete_layer_item,
  is_deleted, selects, query_layer_item,
}
use linglong.Repo.Resolve.{candidate, by_id, clear_reference_local, clear_reference_remote}
use linglong.Repo.Layers.{list_local}
use linglong.PackageManager.Prune.{Target, is_main, is_app, targets, unused, prune_refs, prune}
use linglong.PackageManager.Prune.Needed.{Needs, needs_base, targets-needed}
use linglong.PackageManager.Prune.Whole.{prune_keeps_needed}
use linglong.Scenarios.Data.{
  v1234, now, both, working_ostree, v1234-IsInRange, base, demo_layer, base_layer, two_layers,
}

abbrev no_remote : FuzzyReference → Result (List PackageInfoV2)
no_remote _ = err "no network"

abbrev counted : Target
counted = (base, 1) ∷ []

counted_test : targets plain_qt (ok x86_64) both no_remote ≡ some counted
unfolding targets linglong.PackageManager.Prune.count_all list_local
    linglong.Repo.Cache.query_existing_layer_item keep is_deleted
    linglong.PackageManager.Prune.count_package is_main text_eq is_app
    linglong.PackageManager.Prune.count_app linglong.PackageManager.Prune.count_use
    linglong.PackageManager.Prune.resolve linglong.Package.FuzzyReference.parse
    linglong.Package.FuzzyReference.match_fuzzy linglong.Package.Pattern.expect
    linglong.Package.Pattern.span_until linglong.Package.FuzzyReference.match_id
    linglong.Package.Architecture.parse linglong.Package.Architecture.same
    linglong.Package.Architecture.to_string linglong.Package.FuzzyReference.create
    linglong.Package.FuzzyReference.is_open linglong.Package.FuzzyReference.match_rest
    linglong.Package.FuzzyReference.parse_architecture linglong.Package.FuzzyReference.parse_channel
    linglong.Package.FuzzyReference.parse_version linglong.Package.Pattern.at_end
    linglong.Package.Pattern.scan_numeral linglong.Package.Pattern.span_digits Reference.create
    Reference.eq Reference.from_package_info Reference.ne linglong.Package.Version.eq
    linglong.Package.Version.ge linglong.Package.Version.gt linglong.Package.Version.has_tweak
    linglong.Package.Version.lt linglong.Package.Version.ne linglong.Package.Version.parse
    linglong.Package.Version.parse_tweak linglong.Package.Version.tweak_or_zero
    linglong.Package.VersionPattern.match_version linglong.PackageManager.Prune.add_use
    linglong.PackageManager.Prune.local_only linglong.PackageManager.Prune.try_emplace
    linglong.Prelude.Text.is_empty linglong.Prelude.Text.text_lt linglong.Repo.Cache.accepts
    linglong.Repo.Cache.accepts_flag linglong.Repo.Cache.accepts_option
    linglong.Repo.Cache.insert_layer query_layer_item selects linglong.Repo.Cache.sort_layers
    linglong.Repo.Resolve.better by_id candidate linglong.Repo.Resolve.check_arch
    linglong.Repo.Resolve.clear_reference clear_reference_local clear_reference_remote
    linglong.Repo.Resolve.drop_tweak linglong.Repo.Resolve.find_layer
    linglong.Repo.Resolve.layer_reference linglong.Repo.Resolve.offers_module
    linglong.Repo.Resolve.pick linglong.Package.Numeral.value_from
counted_test = refl

demo_info-Mem : Mem demo_layer.info (list_local both)
unfolding list_local keep linglong.Repo.Cache.query_existing_layer_item is_deleted
demo_info-Mem = mem-cons_self

demo_main : is_main demo_layer.info ≡ true
unfolding is_main text_eq
demo_main = refl

demo_app : is_app demo_layer.info ≡ true
unfolding is_app text_eq
demo_app = refl

demo-Needs : Needs plain_qt (ok x86_64) both no_remote demo_layer.info base
unfolding targets linglong.PackageManager.Prune.count_all list_local
    linglong.Repo.Cache.query_existing_layer_item keep is_deleted
    linglong.PackageManager.Prune.count_package is_main text_eq is_app
    linglong.PackageManager.Prune.count_app linglong.PackageManager.Prune.count_use
    linglong.PackageManager.Prune.resolve linglong.Package.FuzzyReference.parse
    linglong.Package.FuzzyReference.match_fuzzy linglong.Package.Pattern.expect
    linglong.Package.Pattern.span_until linglong.Package.FuzzyReference.match_id
    linglong.Package.Architecture.parse linglong.Package.Architecture.same
    linglong.Package.Architecture.to_string linglong.Package.FuzzyReference.create
    linglong.Package.FuzzyReference.is_open linglong.Package.FuzzyReference.match_rest
    linglong.Package.FuzzyReference.parse_architecture linglong.Package.FuzzyReference.parse_channel
    linglong.Package.FuzzyReference.parse_version linglong.Package.Pattern.at_end
    linglong.Package.Pattern.scan_numeral linglong.Package.Pattern.span_digits Reference.create
    Reference.eq Reference.from_package_info Reference.ne linglong.Package.Version.eq
    linglong.Package.Version.ge linglong.Package.Version.gt linglong.Package.Version.has_tweak
    linglong.Package.Version.lt linglong.Package.Version.ne linglong.Package.Version.parse
    linglong.Package.Version.parse_tweak linglong.Package.Version.tweak_or_zero
    linglong.Package.VersionPattern.match_version linglong.PackageManager.Prune.add_use
    linglong.PackageManager.Prune.local_only linglong.PackageManager.Prune.try_emplace
    linglong.Prelude.Text.is_empty linglong.Prelude.Text.text_lt linglong.Repo.Cache.accepts
    linglong.Repo.Cache.accepts_flag linglong.Repo.Cache.accepts_option
    linglong.Repo.Cache.insert_layer query_layer_item selects linglong.Repo.Cache.sort_layers
    linglong.Repo.Resolve.better by_id candidate linglong.Repo.Resolve.check_arch
    linglong.Repo.Resolve.clear_reference clear_reference_local clear_reference_remote
    linglong.Repo.Resolve.drop_tweak linglong.Repo.Resolve.find_layer
    linglong.Repo.Resolve.layer_reference linglong.Repo.Resolve.offers_module
    linglong.Repo.Resolve.pick linglong.Package.Numeral.value_from
demo-Needs = needs_base refl refl

targets-needed_example : ¬ (Mem base (unused counted))
targets-needed_example =
    targets-needed plain_qt (ok x86_64) both no_remote counted demo_layer.info base counted_test
      demo_info-Mem demo_main demo_app demo-Needs

prune_keeps_needed_example :
    (out : Result (Unit {0}) × RepoCache × List PackageInfoV2) × (prune plain_qt now
        (λ _ _. working_ostree)
        (λ item. ok item.info)
        (ok x86_64)
        no_remote
        two_layers
      ≡ some out)
    × Mem base_layer out.1.cache.layers
unfolding unused keep linglong.Package.Version.to_string linglong.Package.Numeral.decimal
prune_keeps_needed_example =
    prune_keeps_needed plain_qt now (λ _ _. working_ostree) (λ item. ok item.info) (ok x86_64)
      no_remote two_layers counted demo_layer.info base base_layer counted_test demo_info-Mem
      demo_main demo_app demo-Needs v1234-IsInRange tt
      (record { id = refl; channel = refl; version = refl })
      (mem-cons_of_mem demo_layer mem-cons_self)

demo_not_base : codes "org.demo" ≢ codes "org.base"
unfolding text_eq
demo_not_base e =
    let same : text_eq (codes "org.demo") (codes "org.base") ≡ true =
      (text_eq_iff (codes "org.demo") (codes "org.base")).1 e in
    cc same

demo-IsReadable : IsReadable plain_qt demo_layer.info
unfolding Version.parse linglong.Package.VersionPattern.match_version
    linglong.Package.Pattern.scan_numeral linglong.Package.Pattern.expect
    linglong.Package.Pattern.span_digits linglong.Package.Pattern.at_end
    linglong.Package.Numeral.value_from linglong.Package.Architecture.parse text_eq
demo-IsReadable = record {
  version = v1234;
  parsed = refl;
  raw = codes "x86_64";
  more = [];
  named = refl;
  arch = x86_64;
  known = refl;
}

base-IsReadable : IsReadable plain_qt base_layer.info
unfolding Version.parse linglong.Package.VersionPattern.match_version
    linglong.Package.Pattern.scan_numeral linglong.Package.Pattern.expect
    linglong.Package.Pattern.span_digits linglong.Package.Pattern.at_end
    linglong.Package.Numeral.value_from linglong.Package.Architecture.parse text_eq
base-IsReadable = record {
  version = v1234;
  parsed = refl;
  raw = codes "x86_64";
  more = [];
  named = refl;
  arch = x86_64;
  known = refl;
}

targets-some_example : (t : Target) × (targets plain_qt (ok x86_64) both no_remote ≡ some t)
targets-some_example =
    targets-some plain_qt (ok x86_64) both no_remote (demo-IsReadable, (base-IsReadable, tt))
