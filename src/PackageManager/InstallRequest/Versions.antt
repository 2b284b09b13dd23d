-- ===== src/PackageManager/InstallRequest/Versions.antt =====
-- Which versions an accepted request installs.
use mathlib.Core.List.{Mem}
use linglong.Prelude.{
  ◌≡◌, refl, ◌∙◌, ◌⊎◌, inl, inr, Bool, true, false, not, ◌&&◌, Bool-cases, Option-cases, Option,
  none, some, List,
}
use linglong.Prelude.Text.{Text, codes, text_eq_refl, text_lt}
use linglong.Prelude.Result.{Result, ok, err, Result-cases}
use linglong.Package.Version
use linglong.Package.FuzzyReference.{FuzzyReference}
use linglong.Package.Reference.{Reference}
use linglong.Api.{LayersItem}
use linglong.Repo.Cache.{RepoCache, is_deleted, selects, accepts, accepts_flag, accepts_option}
use linglong.Repo.Resolve.{by_id, clear_reference, clear_reference_local}
use linglong.Repo.Resolve.Local.{clear_reference_local_first}
use linglong.Repo.Pull.{is_main_name}
use linglong.PackageManager.Prune.{local_only}
use linglong.PackageManager.World.{Env}
use linglong.PackageManager.Requests.{
  PackageManager1Package, CommonOptions, accepted, fuzzy_reference_from_package, module_or_binary,
  ref_spec, is_operated, force_remote, clear_as, start_for,
}
use linglong.PackageManager.Requests.Sound.{accepted-inj, some-inj, found-cases, start_for-accepted}
use linglong.PackageManager.InstallRequest.{
  InstallJob, new_job, ok_or_none, wanted, has_binary, check_versions, install_from, install_latest,
  install_request,
}

module _ (env : Env) (tasks : List (List Text)) (opts : CommonOptions) where
  -- The new version differs from the installed one; it comes after it, or the request forces it.
  abbrev pub MayReplace : Reference → Option Reference → Bool → Type 0
  MayReplace new none asks = asks ≡ false
  MayReplace new (some old) asks =
      (Version.eq new.version old.version ≡ false)
      × (((Version.gt new.version old.version ≡ true) × (asks ≡ not opts.skip_interaction))
          ⊎ ((Version.gt new.version old.version ≡ false) × (opts.force ≡ true) × (asks ≡ false)))

  abbrev pub IsInstall : Text → Reference → Option Reference → InstallJob → Type 0
  IsInstall name new old job =
      (job.new_ref ≡ new)
      × (job.old_ref ≡ old)
      × (job.module_name ≡ name)
      × MayReplace job.new_ref old job.asks
      × (job.spec ≡ ref_spec env.remote.default_repo job.new_ref name)
      × (is_operated job.spec tasks ≡ false)

  start-IsInstall :
      (new : Reference) (old : Option Reference) (name : Text) (asks : Bool) {job : InstallJob}
      → MayReplace new old asks
      → start_for env tasks new name (new_job new old name asks) ≡ accepted job
      → IsInstall name new old job
  unfolding new_job
  start-IsInstall new old name asks may h =
      let (free, same) = start_for-accepted env tasks new name (new_job new old name asks) h in
      rw⁻¹ (accepted-inj same) (refl, refl, refl, may, refl, free)

  check_versions-IsInstall :
      (new : Reference) (old : Option Reference) (name : Text) {job : InstallJob}
      → check_versions env tasks opts new old name ≡ accepted job
      → IsInstall name new old job
  unfolding check_versions
  check_versions-IsInstall new none name h = start-IsInstall new none name false refl h
  check_versions-IsInstall new (some old) name h =
      elim (Bool-cases (Version.eq new.version old.version)) [
        | inl e ↦ cc (rw (e, check_versions) at h)
        | inr e ↦ elim (Bool-cases (Version.gt new.version old.version)) [
          | inl k ↦
              start-IsInstall new (some old) name (not opts.skip_interaction) (e, inl (k, refl))
                (rw (e, k, check_versions) at h)
          | inr k ↦ elim (Bool-cases opts.force) [
            | inr f ↦ cc (rw (e, k, f, check_versions) at h)
            | inl f ↦
                start-IsInstall new (some old) name false (e, inr (k, f, refl))
                  (rw (e, k, f, check_versions) at h)
          ]
        ]
      ]

  install_from-IsInstall :
      (r : RepoCache) (fuzzy : FuzzyReference) (old : Option Reference) (name : Text)
      {job : InstallJob}
      → install_from env r tasks opts fuzzy old name ≡ some (accepted job)
      → (new : Reference) × (clear_as env r force_remote (wanted fuzzy name old) name
          ≡ some (ok new))
        × IsInstall name new old job
  unfolding install_from
  install_from-IsInstall r fuzzy old name h =
      elim (found-cases (clear_as env r force_remote (wanted fuzzy name old) name)) [
        | inl bad ↦ cc (rw (bad, install_from) at h)
        | inr (inl (e, bad)) ↦ cc (rw (bad, install_from) at h)
        | inr (inr (new, remote)) ↦
            elim (Bool-cases (not (is_main_name name) && not (has_binary env r new))) [
              | inl bad ↦ cc (rw (remote, bad, install_from) at h)
              | inr fine ↦ (
                new,
                remote,
                check_versions-IsInstall new old name
                    (some-inj (rw (remote, fine, install_from) at h)),
              )
            ]
      ]

  -- The old version, if one is found, is that of a layer that is not deleted and has the id, and no
  -- such layer has a greater version text.
  abbrev pub IsGreatestText : RepoCache → Text → Result Reference → Type 0
  IsGreatestText r id (err e) = Unit
  IsGreatestText r id (ok old) =
      (l : LayersItem) × Mem l r.cache.layers
      × (l.info.id ≡ id)
      × (is_deleted l ≡ false)
      × (old.id ≡ id)
      × (old.channel ≡ l.info.channel)
      × (Version.parse env.qt l.info.version ≡ ok old.version)
      × ((other : LayersItem)
          → Mem other r.cache.layers
          → other.info.id ≡ id
          → is_deleted other ≡ false
          → text_lt l.info.version other.info.version ≡ false)

  clear_as-local :
      (r : RepoCache) (fuzzy : FuzzyReference) (old : Reference)
      → clear_as env r local_only fuzzy (codes "binary") ≡ some (ok old)
      → clear_reference_local env.qt env.host r.cache fuzzy ≡ some (ok old)
  unfolding clear_as clear_reference local_only
  clear_as-local r fuzzy old h =
      elim (found-cases (clear_reference_local env.qt env.host r.cache fuzzy)) [
        | inl e ↦ cc (rw (e, clear_reference) at h)
        | inr (inl (message, e)) ↦ cc (rw (e, clear_reference) at h)
        | inr (inr (ref, e)) ↦ e ∙ (rw (e, clear_reference) at h)
      ]

  by_id-selects_of : (id : Text) (l : LayersItem) → l.info.id ≡ id → selects (by_id id) l ≡ true
  unfolding selects by_id accepts accepts_flag accepts_option
  by_id-selects_of id l h = rw (h, text_eq_refl id) refl

  local-IsGreatestText :
      (r : RepoCache) (fuzzy : FuzzyReference) (local : Result Reference)
      → clear_as env r local_only (record fuzzy { version = none }) (codes "binary") ≡ some local
      → IsGreatestText r fuzzy.id local
  local-IsGreatestText r fuzzy (err e) h = tt
  local-IsGreatestText r fuzzy (ok old) h =
      let open_fuzzy = record fuzzy { version = none } in
      let found = clear_as-local r open_fuzzy old h in
      let (chosen, first) =
        clear_reference_local_first env.qt env.host r.cache open_fuzzy old refl found in
      (
        chosen.layer,
        chosen.stands,
        chosen.id,
        chosen.answers.present,
        chosen.same_id ∙ chosen.id,
        chosen.same_channel,
        chosen.same_version,
        λ other m id present. first other m (by_id-selects_of fuzzy.id other id) present,
      )

  -- What an accepted request is for: the version that the remote repository offers, compared with
  -- the installed one whose version text is the greatest.
  abbrev pub IsAccepted : RepoCache → Text → FuzzyReference → InstallJob → Type 0
  IsAccepted r name fuzzy job =
      (local : Result Reference) × (new : Reference) × (clear_as env r local_only
          (record fuzzy { version = none }) (codes "binary")
        ≡ some local)
      × (clear_as env r force_remote (wanted fuzzy name (ok_or_none local)) name ≡ some (ok new))
      × IsGreatestText r fuzzy.id local
      × IsInstall name new (ok_or_none local) job

  install_latest-IsAccepted :
      (r : RepoCache) (fuzzy : FuzzyReference) (name : Text) {job : InstallJob}
      → install_latest env r tasks opts fuzzy name ≡ some (accepted job)
      → IsAccepted r name fuzzy job
  unfolding install_latest
  install_latest-IsAccepted r fuzzy name h =
      elim (Option-cases
        (clear_as env r local_only (record fuzzy { version = none }) (codes "binary"))) [
          | inl bad ↦ cc (rw (bad, install_latest) at h)
          | inr (local, found) ↦
              let (new, remote, job) =
                install_from-IsInstall r fuzzy (ok_or_none local) name
                  (rw (found, install_latest) at h) in
              (local, new, found, remote, local-IsGreatestText r fuzzy local found, job)
        ]

  -- A request to install that is accepted installs the version that the remote repository offers. The
  -- old one, if the package is found in the cache, is that of an installed layer with the id, and no
  -- installed layer with the id has a greater version text, which need not be a greater version. The
  -- new version never equals the old one; it comes after it, where the user is asked unless the
  -- request skips that, or the request forces it. No task operates on the package and module.
  pub install_request_sound :
      (r : RepoCache) (pkg : PackageManager1Package) (job : InstallJob)
      → install_request env r tasks pkg opts ≡ some (accepted job)
      → (fuzzy : FuzzyReference) × (fuzzy_reference_from_package env.qt pkg ≡ ok fuzzy)
        × IsAccepted r (module_or_binary pkg.module_name) fuzzy job
  unfolding install_request
  install_request_sound r pkg job h =
      elim (Result-cases (fuzzy_reference_from_package env.qt pkg)) [
        | inr (e, bad) ↦ cc (rw (bad, install_request) at h)
        | inl (fuzzy, parsed) ↦
            let name = module_or_binary pkg.module_name in
            elim (Option-cases fuzzy.version) [
              | inl open_version ↦ (
                fuzzy,
                parsed,
                install_latest-IsAccepted r fuzzy name
                    (rw (parsed, open_version, install_request) at h),
              )
              | inr (v, fixed) ↦
                  elim (found-cases (clear_as env r local_only fuzzy (codes "binary"))) [
                    | inl bad ↦ cc (rw (parsed, fixed, bad, install_request) at h)
                    | inr (inr (ref, bad)) ↦ cc (rw (parsed, fixed, bad, install_request) at h)
                    | inr (inl (e, free)) ↦ (
                      fuzzy,
                      parsed,
                      install_latest-IsAccepted r fuzzy name
                          (rw (parsed, fixed, free, install_request) at h),
                    )
                  ]
            ]
      ]
