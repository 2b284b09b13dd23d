-- ===== src/Repo/Cache/Rebuild/Current.antt =====
-- What a cache that was loaded or rebuilt is.
use linglong.Prelude.{
  ◌≡◌, refl, sym, ap, ◌∙◌, inl, inr, Bool, true, false, Bool-cases, Option-cases, Option, some, ◌⊎◌,
}
use linglong.Prelude.Text.{Text, text_eq_refl}
use linglong.Prelude.Result.{Result, ok, err, Result-cases}
use linglong.Api.{RepoConfig, RepositoryCache}
use linglong.Repo.Cache.{Disk, RepoCache, written, write_to_disk}
use linglong.Repo.Cache.Changes.{write_to_disk_atomic}
use linglong.Repo.Cache.Rebuild.{
  Source, Versions, layers_of_refs, cleared, write_rebuilt, rebuild_cache, empty_cache,
  rebuilt_or_error, is_outdated, create,
}

-- The cache has the current versions and this configuration.
pub record IsCurrent (v : Versions) (wanted : RepoConfig) (c : RepositoryCache) : Type 0 where
  pub config : c.config ≡ wanted
  pub ll_version : c.ll_version ≡ v.ll_version
  pub version : c.version ≡ v.file_version

IsCurrent-outdated :
    (v : Versions) (config : RepoConfig) (c : RepositoryCache)
    → IsCurrent v config c
    → is_outdated v c ≡ false
unfolding is_outdated
IsCurrent-outdated v config c now =
    rw (now.version, now.ll_version, text_eq_refl v.file_version, text_eq_refl v.ll_version) refl

ok-inj : {A : Type 0} {a b : A} → ok a ≡ ok b → a ≡ b
ok-inj h = cc h

module _ (o : Source) (v : Versions) (config : RepoConfig) where
  pub write_rebuilt-cache : (c : RepositoryCache) (d : Disk) → (write_rebuilt o v c d).1.cache ≡ c
  unfolding write_rebuilt
  write_rebuilt-cache c d = elim (Bool-cases o.is_root) [
    | inl e ↦ rw (e, write_rebuilt)
    | inr e ↦ rw (e, write_rebuilt)
  ]

  rebuild_cache-IsCurrent :
      (r : RepoCache) → IsCurrent v config (rebuild_cache o v config r).1.cache
  unfolding rebuild_cache cleared
  rebuild_cache-IsCurrent r = elim (Result-cases o.list_refs) [
    | inr (e, bad) ↦
        rw (bad, rebuild_cache) (record { config = refl; ll_version = refl; version = refl })
    | inl (refs, listed) ↦
        rw (listed, rebuild_cache)
          (rw (write_rebuilt-cache _ r.disk)
            (record { config = refl; ll_version = refl; version = refl }))
  ]

  rebuilt_or_error-eq-ok :
      (p : Result (Unit {0}) × RepoCache) {r : RepoCache}
      → rebuilt_or_error p ≡ ok r
      → (p.0 ≡ ok tt) × (p.1 ≡ r)
  unfolding rebuilt_or_error
  rebuilt_or_error-eq-ok (err e, r') h = cc h
  rebuilt_or_error-eq-ok (ok tt, r') h = (refl, ok-inj h)

  write_rebuilt-file :
      (c : RepositoryCache) (d : Disk)
      → o.is_root ≡ false
      → (write_rebuilt o v c d).0 ≡ ok tt
      → (write_rebuilt o v c d).1.disk.file ≡ some (written d c)
  unfolding write_rebuilt
  write_rebuilt-file c d user done = elim (write_to_disk_atomic v.ll_version c d) [
    | inl (_, file) ↦ rw (user, write_rebuilt) file
    | inr (e, refused, _, _, _) ↦
        let bad : (write_to_disk v.ll_version c d).0 ≡ ok tt = rw (user, write_rebuilt) at done in
        cc (refused, bad)
  ]

  rebuild_cache-file :
      (r : RepoCache)
      → o.is_root ≡ false
      → (rebuild_cache o v config r).0 ≡ ok tt
      → (rebuild_cache o v config r).1.disk.file
        ≡ some (written r.disk (rebuild_cache o v config r).1.cache)
  unfolding rebuild_cache
  rebuild_cache-file r user done = elim (Result-cases o.list_refs) [
    | inr (e, bad) ↦ cc (rw (bad, rebuild_cache) at done)
    | inl (refs, listed) ↦
        let c = record (cleared v config r.cache) { layers = layers_of_refs o refs } in
        rw (listed, rebuild_cache)
          (write_rebuilt-file c r.disk user (rw (listed, rebuild_cache) at done)
            ∙ ap (λ c. some (written r.disk c)) (sym (write_rebuilt-cache c r.disk)))
  ]

  -- A cache that `create` returned: it is current, and it is read from the file, or the file holds
  -- what was stored of its JSON.
  abbrev Created : (Text → Option RepositoryCache) → Disk → RepoCache → Type 0
  Created load d r =
      (is_outdated v r.cache ≡ false)
      × (r.cache.config ≡ config)
      × ((r.disk.file ≡ some (written d r.cache))
          ⊎ ((text : Text) × (c : RepositoryCache) × (r.disk.file ≡ some text)
              × (load text ≡ some c)
              × (r.cache ≡ record c { config = config })))

  rebuilt-Created :
      (load : Text → Option RepositoryCache) (r : RepoCache) {r' : RepoCache}
      → o.is_root ≡ false
      → rebuilt_or_error (rebuild_cache o v config r) ≡ ok r'
      → Created load r.disk r'
  rebuilt-Created load r user h =
      let p = rebuild_cache o v config r in
      let (done, same) = rebuilt_or_error-eq-ok p h in
      let now = rebuild_cache-IsCurrent r in
      rw⁻¹ same (
        IsCurrent-outdated v config p.1.cache now,
        now.config,
        inl (rebuild_cache-file r user done),
      )

  outdated-config :
      (c : RepositoryCache) → is_outdated v (record c { config = config }) ≡ is_outdated v c
  unfolding is_outdated
  outdated-config c = refl

  create-Created :
      (check_fails : Bool) (load : Text → Option RepositoryCache) (d : Disk) (r : RepoCache)
      → o.is_root ≡ false
      → create o v config check_fails load d ≡ ok r
      → Created load d r
  unfolding create
  create-Created true load d r user h = cc h
  create-Created false load d r user h = elim (Option-cases d.file) [
    | inl missing ↦
        rebuilt-Created load (record { cache = empty_cache; disk = d }) user
          (rw (missing, create) at h)
    | inr (text, there) ↦ elim (Option-cases (load text)) [
      | inl broken ↦
          rebuilt-Created load (record { cache = empty_cache; disk = d }) user
            (rw (there, broken, create) at h)
      | inr (c, fine) ↦ elim (Bool-cases (is_outdated v c)) [
        | inl old ↦
            rebuilt-Created load (record { cache = c; disk = d }) user
              (rw (there, fine, old, create) at h)
        | inr new ↦
            let same = ok-inj (rw (there, fine, new, create) at h) in
            rw⁻¹ same (outdated-config c ∙ new, refl, inr (text, c, there, fine, refl))
      ]
    ]
  ]

  create-loads :
      (o' : Source) (load : Text → Option RepositoryCache) (r : RepoCache) (text : Text)
      (c : RepositoryCache)
      → r.disk.file ≡ some text
      → load text ≡ some c
      → is_outdated v c ≡ false
      → r.cache ≡ record c { config = config }
      → create o' v config false load r.disk ≡ ok r
  unfolding create
  create-loads o' load r text c there fine new same =
      let loaded : create o' v config false load r.disk
          ≡ ok (record { cache = record c { config = config }; disk = r.disk }) =
        simp (there, fine, new, create) in
      loaded ∙ ap (λ x. ok (record { cache = x; disk = r.disk })) (sym same)

  -- A cache that was made for an ordinary user is loaded again as it was, if the text that a writing
  -- stores for it is read back as it: a second start with the same configuration that can check for
  -- the file gives the same cache and rebuilds nothing, whatever OSTree answers then. The cache of
  -- the first start may itself have been loaded, or rebuilt since there was no file, it could not be
  -- read, or it was outdated.
  pub create_again :
      (o' : Source) (check_fails : Bool) (load : Text → Option RepositoryCache) (d : Disk)
      (r : RepoCache)
      → o.is_root ≡ false
      → create o v config check_fails load d ≡ ok r
      → load (written d r.cache) ≡ some r.cache
      → create o' v config false load r.disk ≡ ok r
  create_again o' check_fails load d r user h read =
      let (new, now, source) = create-Created check_fails load d r user h in
      elim source [
        | inl file ↦
            create-loads o' load r (written d r.cache) r.cache file read new
              (ap (λ x. record (r.cache) { config = x }) now)
        | inr (text, c, there, fine, same) ↦
            let current = sym (outdated-config c) ∙ ap (is_outdated v) (sym same) ∙ new in
            create-loads o' load r text c there fine current same
      ]
