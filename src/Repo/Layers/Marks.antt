-- ===== src/Repo/Layers/Marks.antt =====
-- Finding the layer of a reference, marking it and removing it.
use mathlib.Core.List.{Mem, mem-cons_self}
use linglong.Prelude.{
  ◌≡◌, ◌≢◌, refl, sym, ap, ◌∙◌, ◌⊎◌, inl, inr, Bool, true, false, Bool-cases, Option-cases,
  find_first-none, Option, none, some, List, [], ◌∷◌, String, if◌then◌else◌, find_first,
  erase_first, update_first-undo, arith,
}
use linglong.Prelude.Members.{All-at}
use linglong.Prelude.Text.{Text, codes, text_eq, text_eq_iff}
use linglong.Prelude.Result.{Result, ok, err, Result-cases}
use linglong.Utils.Transaction.{Transaction, start, add_roll_back}
use linglong.Utils.Transaction.Undo.{destroy-one, destroy-commit}
use linglong.Api.{LayersItem, RepositoryCache}
use linglong.Package.Qt.{Qt}
use linglong.Package.Reference.{Reference}
use linglong.Repo.Cache.{
  Query, selects, matches, find_matching_item, query_layer_item, RepoCache, save, written,
}
use linglong.Repo.Cache.Sorted.{mem-query_layer_item}
use linglong.Repo.Cache.Changes.{
  can_write, Saved, matches_refl, write_to_disk_atomic, delete_layer_item_cases,
}
use linglong.Repo.Layers.{
  exactly, only_layer, current_name, get_layer_item, set_deleted, set_mark, settle, mark_item,
  mark_deleted, Ostree, remove_ostree_ref, remove,
}

only_layer_cases :
    (layers : List LayersItem) (next : Result LayersItem) (item : LayersItem)
    → only_layer layers next ≡ ok item
    → (layers ≡ item ∷ []) ⊎ ((layers ≡ []) × (next ≡ ok item))
unfolding only_layer
only_layer_cases [] next item h = inr (refl, h)
only_layer_cases (x ∷ []) next item h = let e : x ≡ item = cc h in inl (ap (λ a. a ∷ []) e)
only_layer_cases (x ∷ y ∷ rest) next item h = cc h

-- The layer is the only one that the query selects.
abbrev pub IsOnly : RepositoryCache → Query → LayersItem → Type 0
IsOnly c q item = (query_layer_item c q ≡ item ∷ []) × Mem item c.layers × (selects q item ≡ true)

IsOnly-IsOnly :
    (c : RepositoryCache) (q : Query) (item : LayersItem)
    → query_layer_item c q ≡ item ∷ []
    → IsOnly c q item
IsOnly-IsOnly c q item e =
    let (there, selected) = mem-query_layer_item c q item (rw e mem-cons_self) in
    (e, there, selected)

module _ (qt : Qt) where
  -- The layer that is found is the only one of the cache that has the id, the channel, the version
  -- and the module of the reference; or nothing has them, the module is `binary`, and it is the
  -- only one whose module is `runtime`.
  pub get_layer_item-IsOnly :
      (c : RepositoryCache) (ref : Reference) (name : Text) (sub_ref : Option Text)
      (item : LayersItem)
      → get_layer_item qt c ref name sub_ref ≡ ok item
      → IsOnly c (exactly qt ref (current_name name) sub_ref) item
        ⊎ ((query_layer_item c (exactly qt ref (current_name name) sub_ref) ≡ [])
            × (current_name name ≡ codes "binary")
            × IsOnly c (exactly qt ref (codes "runtime") sub_ref) item)
  unfolding get_layer_item
  get_layer_item-IsOnly c ref name sub_ref item h =
      let q = exactly qt ref (current_name name) sub_ref in
      let q' = exactly qt ref (codes "runtime") sub_ref in
      elim (only_layer_cases _ _ item h) [
        | inl e ↦ inl (IsOnly-IsOnly c q item e)
        | inr (e, k) ↦ elim (Bool-cases (text_eq (current_name name) (codes "binary"))) [
          | inr other ↦ ground arith
          | inl same ↦ elim (only_layer_cases (query_layer_item c q') _ item (rw same at k)) [
            | inl e' ↦ inr (e, (text_eq_iff _ _).0 same, IsOnly-IsOnly c q' item e')
            | inr (e', bad) ↦ cc bad
          ]
        ]
      ]

-- The mark is no part of what two layers are matched by.
set_deleted-matches :
    (item x : LayersItem) (flag : Option Bool) → matches item (set_deleted flag x) ≡ matches item x
unfolding matches set_deleted
set_deleted-matches item x flag = refl

set_mark-undo :
    (c : RepositoryCache) (item it : LayersItem) (flag : Option Bool)
    → find_first (matches item) c.layers ≡ some it
    → set_mark item it.deleted (set_mark item flag c) ≡ c
unfolding set_mark set_deleted
set_mark-undo c item it flag h =
    ap (λ l. record c { layers = l })
      (update_first-undo (matches item) (set_deleted flag) (set_deleted it.deleted) c.layers it
        (λ x. set_deleted-matches item x flag) h refl)

-- A mark is in memory, and the file holds what was stored of the JSON of that; or there is none in
-- either, as the calls of the file system fail.
abbrev pub Marked : LayersItem → Option Bool → RepoCache → Result (Unit {0}) × RepoCache → Type 0
Marked item flag r p =
    ((p.0 ≡ ok tt)
      × (p.1.cache ≡ set_mark item flag r.cache)
      × (p.1.disk.file ≡ some (written r.disk p.1.cache)))
    ⊎ ((e : String) × (p.0 ≡ err e)
        × (p.1.cache ≡ r.cache)
        × (p.1.disk.file ≡ r.disk.file)
        × (can_write r.disk ≡ false))

save-cases :
    (v : Text) (c : RepositoryCache) (r : RepoCache)
    → ((save v c r).1.cache ≡ c)
      × ((((save v c r).0 ≡ ok tt) × ((save v c r).1.disk.file ≡ some (written r.disk c)))
          ⊎ ((e : String) × ((save v c r).0 ≡ err e)
              × ((save v c r).1.disk.file ≡ r.disk.file)
              × (can_write r.disk ≡ false)))
unfolding save
save-cases v c r = elim (write_to_disk_atomic v c r.disk) [
  | inl (done, file) ↦ (refl, inl (done, file))
  | inr (e, failed, file, _, cannot) ↦ (refl, inr (e, failed, file, cannot))
]

settle-ok :
    (t : Transaction RepoCache) (p : Result (Unit {0}) × RepoCache)
    → p.0 ≡ ok tt
    → settle t p ≡ (ok tt, p.1)
unfolding settle
settle-ok t (ok _, s) h = ap (λ s'. (ok tt, s')) (destroy-commit t s)
settle-ok t (err e, s) h = cc h

settle-err :
    (f : RepoCache → RepoCache) (p : Result (Unit {0}) × RepoCache) (e : String)
    → p.0 ≡ err e
    → settle (add_roll_back start f) p ≡ (err e, f p.1)
unfolding settle
settle-err f (ok _, s) e h = cc h
settle-err f (err e', s) e h = let same : e' ≡ e = cc h in rw (same, destroy-one f s) refl

mark_item-Marked :
    (v : Text) (item it : LayersItem) (flag : Option Bool) (r : RepoCache)
    → find_first (matches item) r.cache.layers ≡ some it
    → Marked item flag r (mark_item v item it flag r)
unfolding mark_item
mark_item-Marked v item it flag r h =
    let c = set_mark item flag r.cache in
    let p = save v c r in
    let undo = λ (s : RepoCache). record s { cache = set_mark item it.deleted s.cache } in
    let (now, result) = save-cases v c r in
    elim result [
      | inl (done, file) ↦
          rw (settle-ok (add_roll_back start undo) p done)
            (inl (refl, now, file ∙ ap (λ c. some (written r.disk c)) (sym now)))
      | inr (e, failed, file, cannot) ↦ rw (settle-err undo p e failed) (
          inr (
            e,
            refl,
            ap (set_mark item it.deleted) now ∙ set_mark-undo r.cache item it flag h,
            file,
            cannot,
          ))
    ]

find_matching_item-ok :
    (c : RepositoryCache) (item it : LayersItem)
    → find_matching_item c item ≡ ok it
    → find_first (matches item) c.layers ≡ some it
unfolding find_matching_item
find_matching_item-ok c item it h = ground arith

-- A layer of the cache is matched.
find_first-matches :
    (item : LayersItem) (ls : List LayersItem) → Mem item ls → find_first (matches item) ls ≢ none
find_first-matches item ls m none_matches =
    let prop : IsProp (matches item item ≡ false) = hlevel in
    let apart =
      All-at (λ x. matches item x ≡ false) item ls prop m
        (find_first-none (matches item) ls none_matches) in
    cc (apart, matches_refl item)

find_matching_item-found :
    (c : RepositoryCache) (item : LayersItem)
    → Mem item c.layers
    → (e : String) → find_matching_item c item ≢ err e
unfolding find_matching_item
find_matching_item-found c item m e h = elim (Option-cases (find_first (matches item) c.layers)) [
  | inl free ↦ find_first-matches item c.layers m free
  | inr (it, there) ↦ cc (rw (there, find_matching_item) at h)
]

module _ (qt : Qt) (v : Text) (ref : Reference) (name : Text) (sub_ref : Option Text) where
  get_layer_item-Mem :
      (c : RepositoryCache) (item : LayersItem)
      → get_layer_item qt c ref name sub_ref ≡ ok item
      → Mem item c.layers
  get_layer_item-Mem c item found = elim (get_layer_item-IsOnly qt c ref name sub_ref item found) [
    | inl (_, there, _) ↦ there
    | inr (_, _, only) ↦ only.1
  ]

  pub mark_deleted_atomic :
      (deleted : Bool) (r : RepoCache)
      → ((item : LayersItem) × (get_layer_item qt r.cache ref name sub_ref ≡ ok item)
          × Marked item
              (if deleted then some true else none)
              r
              (mark_deleted qt v ref deleted name sub_ref r))
        ⊎ ((e : String) × (get_layer_item qt r.cache ref name sub_ref ≡ err e)
            × (mark_deleted qt v ref deleted name sub_ref r ≡ (err e, r)))
  unfolding mark_deleted
  mark_deleted_atomic deleted r = elim (Result-cases (get_layer_item qt r.cache ref name sub_ref)) [
    | inr (e, bad) ↦ inr (e, bad, rw (bad, mark_deleted) refl)
    | inl (item, found) ↦ elim (Result-cases (find_matching_item r.cache item)) [
      | inr (e, bad) ↦
          absurd
            (find_matching_item-found r.cache item (get_layer_item-Mem r.cache item found) e bad)
      | inl (it, there) ↦ inl (
        item,
        found,
        rw (found, mark_deleted)
            (rw there
              (mark_item-Marked v item it _ r (find_matching_item-ok r.cache item it there))),
      )
    ]
  ]

  -- Removing a reference erases the first layer that matches the one that is found, in memory and,
  -- if the writing succeeds, in the file. If the layer is not found, or OSTree cannot look the
  -- reference up or delete it, nothing changes.
  pub remove_cases :
      (o : Ostree) (r : RepoCache)
      → ((item : LayersItem) × (get_layer_item qt r.cache ref name sub_ref ≡ ok item)
          × (o.can_resolve ≡ true)
          × (o.can_unset ≡ true)
          × Saved (erase_first (matches item) r.cache.layers) r (remove qt v o ref name sub_ref r))
        ⊎ ((e : String) × (remove qt v o ref name sub_ref r ≡ (err e, r)))
  unfolding remove remove_ostree_ref
  remove_cases o r = elim (Result-cases (get_layer_item qt r.cache ref name sub_ref)) [
    | inr (e, bad) ↦ inr (e, rw (bad, remove) refl)
    | inl (item, found) ↦ elim (Bool-cases o.can_resolve) [
      | inr fails ↦
          inr ("couldn't resolve ref on local machine", rw (found, remove) (rw fails refl))
      | inl works ↦ elim (Bool-cases o.can_unset) [
        | inr fails ↦
            inr ("ostree_repo_set_ref_immediate", rw (found, remove) (rw (works, fails) refl))
        | inl also ↦ elim (delete_layer_item_cases v item r) [
          | inl (_, same) ↦ inr ("item doesn't exist", rw (found, remove) (rw (works, also) same))
          | inr (_, saved) ↦
              inl (item, found, works, also, rw (found, remove) (rw (works, also) saved))
        ]
      ]
    ]
  ]
