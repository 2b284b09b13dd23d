-- ===== src/Repo/Cache/Refines.antt =====
-- The cache as a set of layers: the abstract view that forgets their order, their marks and the
-- rest of what two layers are not matched by.
use linglong.Prelude.{
  ◌≡◌, ◌≢◌, refl, sym, ap, ◌∙◌, inl, inr, Bool, true, false, not, ◌&&◌, ◌||◌, Bool-cases, none,
  List, [], ◌∷◌, ◌++◌, find_first, erase_first, All, arith,
}
use linglong.Prelude.Text.{Text, text_eq_iff, text_eq_refl}
use linglong.Api.{LayersItem}
use linglong.Repo.Cache.{RepoCache, front, matches, add_layer_item, delete_layer_item}
use linglong.Repo.Cache.Changes.{
  AreDistinct, AreDistinct-kept, add_layer_item_cases, delete_layer_item_cases,
}

-- What two layers are matched by.
abbrev Key : Type 0
Key = Text × Text × Text × Text × Text × Text × Text

abbrev key : LayersItem → Key
key l = (
  l.commit,
  l.repo,
  l.info.channel,
  l.info.id,
  l.info.version,
  front l.info.arch,
  l.info.package_info_v2_module,
)

matches-key : (a b : LayersItem) → matches a b ≡ true → key a ≡ key b
unfolding matches
matches-key a b h =
    let commit = (text_eq_iff a.commit b.commit).0 (ground arith) in
    let repo = (text_eq_iff a.repo b.repo).0 (ground arith) in
    let channel = (text_eq_iff a.info.channel b.info.channel).0 (ground arith) in
    let id = (text_eq_iff a.info.id b.info.id).0 (ground arith) in
    let version = (text_eq_iff a.info.version b.info.version).0 (ground arith) in
    let arch = (text_eq_iff (front a.info.arch) (front b.info.arch)).0 (ground arith) in
    let name =
      (text_eq_iff a.info.package_info_v2_module b.info.package_info_v2_module).0 (ground arith) in
    cc (commit, repo, channel, id, version, arch, name)

key-matches : (a b : LayersItem) → key a ≡ key b → matches a b ≡ true
unfolding matches
key-matches a b h =
    rw⁻¹
      (
        ap (λ k. k.0) h,
        ap (λ k. k.1) h,
        ap (λ k. k.2) h,
        ap (λ k. k.3) h,
        ap (λ k. k.4) h,
        ap (λ k. k.5) h,
        ap (λ k. k.6) h,
      )
      (simp text_eq_refl)

matches-same : (a b c : LayersItem) → matches a b ≡ true → matches a c ≡ matches b c
matches-same a b c h =
    let same = matches-key a b h in
    elim (Bool-cases (matches a c)) [
      | inl e ↦ e ∙ sym (key-matches b c (sym same ∙ matches-key a c e))
      | inr e ↦ elim (Bool-cases (matches b c)) [
        | inr k ↦ e ∙ sym k
        | inl k ↦ cc (key-matches a c (same ∙ matches-key b c k), e)
      ]
    ]

matches-sym : (a b : LayersItem) → matches a b ≡ matches b a
matches-sym a b = elim (Bool-cases (matches a b)) [
  | inl e ↦ e ∙ sym (key-matches b a (sym (matches-key a b e)))
  | inr e ↦ elim (Bool-cases (matches b a)) [
    | inr k ↦ e ∙ sym k
    | inl k ↦ cc (key-matches a b (sym (matches-key b a k)), e)
  ]
]

-- The abstract state: which layers are there.
abbrev pub Shelf : Type 0
Shelf = LayersItem → Bool

-- What the abstract state of a list of layers is.
pub holds : List LayersItem → Shelf
holds [] x = false
holds (l ∷ rest) x = matches x l || holds rest x

-- A change of the cache, abstractly: a layer comes to the others, or is taken from them.
pub data Change : Type 0 where
  add : LayersItem → Change
  delete : LayersItem → Change

pub change_shelf : Change → Shelf → Shelf
change_shelf (add item) s x = s x || matches x item
change_shelf (delete item) s x = s x && not (matches x item)

pub change_all : List Change → Shelf → Shelf
change_all [] s = s
change_all (change ∷ rest) s = change_all rest (change_shelf change s)

-- The operations of the code for these changes.
pub run_change : Text → Change → RepoCache → RepoCache
run_change v (add item) r = (add_layer_item v item r).1
run_change v (delete item) r = (delete_layer_item v item r).1

pub run_changes : Text → List Change → RepoCache → RepoCache
run_changes v [] r = r
run_changes v (change ∷ rest) r = run_changes v rest (run_change v change r)

holds-append :
    (ls : List LayersItem) (item x : LayersItem)
    → holds (ls ++ (item ∷ [])) x ≡ (holds ls x || matches x item)
unfolding holds
holds-append [] item x = ground arith
holds-append (l ∷ ls) item x = ground (arith, holds-append ls item x)

holds-none :
    (ls : List LayersItem) (l x : LayersItem)
    → All (λ y. matches y l ≡ false) ls
    → matches x l ≡ true
    → holds ls x ≡ false
unfolding holds
holds-none [] l x apart h = refl
holds-none (y ∷ ys) l x apart h =
    let away : matches x y ≡ false = matches-same x l y h ∙ matches-sym l y ∙ apart.0 in
    rw (away, holds) (holds-none ys l x apart.1 h)

holds-erase :
    (ls : List LayersItem) (item x : LayersItem)
    → AreDistinct ls
    → holds (erase_first (matches item) ls) x ≡ (holds ls x && not (matches x item))
unfolding holds erase_first
holds-erase [] item x distinct = refl
holds-erase (l ∷ ls) item x distinct = elim (Bool-cases (matches item l)) [
  | inl hit ↦
      let same : matches x l ≡ matches x item =
        matches-sym x l ∙ sym (matches-same item l x hit) ∙ matches-sym item x in
      elim (Bool-cases (matches x l)) [
        | inl e ↦
            let gone = holds-none ls l x distinct.0 e in
            rw (hit, erase_first) (gone ∙ rw (e, sym same ∙ e) refl)
        | inr e ↦ rw (hit, erase_first) (ground (arith, e, same))
      ]
  | inr miss ↦
      let rest = holds-erase ls item x distinct.1 in
      elim (Bool-cases (matches x item)) [
        | inl e ↦
            let away = matches-same x item l e ∙ miss in
            rw (miss, erase_first) (ground (arith, rest, e, away))
        | inr e ↦ rw (miss, erase_first) (ground (arith, rest, e))
      ]
]

holds-alike :
    (ls : List LayersItem) (x item : LayersItem)
    → matches x item ≡ true
    → holds ls x ≡ holds ls item
unfolding holds
holds-alike [] x item h = refl
holds-alike (l ∷ ls) x item h =
    rw (matches-same x item l h) (ap (λ b. matches item l || b) (holds-alike ls x item h))

holds-found :
    (ls : List LayersItem) (item : LayersItem)
    → find_first (matches item) ls ≢ none
    → holds ls item ≡ true
unfolding holds find_first
holds-found [] item there = absurd (there refl)
holds-found (l ∷ ls) item there = elim (Bool-cases (matches item l)) [
  | inl e ↦ rw (e, holds) refl
  | inr e ↦ rw (e, holds) (holds-found ls item (rw (e, find_first) at there))
]

holds-missing :
    (ls : List LayersItem) (item : LayersItem)
    → find_first (matches item) ls ≡ none
    → holds ls item ≡ false
unfolding holds find_first
holds-missing [] item free = refl
holds-missing (l ∷ ls) item free = elim (Bool-cases (matches item l)) [
  | inl e ↦ cc (rw (e, find_first) at free)
  | inr e ↦ rw (e, holds) (holds-missing ls item (rw (e, find_first) at free))
]

run_change-holds :
    (v : Text) (change : Change) (r : RepoCache) (x : LayersItem)
    → AreDistinct r.cache.layers
    → holds (run_change v change r).cache.layers x ≡ change_shelf change (holds r.cache.layers) x
unfolding run_change change_shelf
run_change-holds v (add item) r x distinct = elim (add_layer_item_cases v item r) [
  | inl (there, same) ↦
      let kept = ap (λ p. holds p.1.cache.layers x) same in
      let found = holds-found r.cache.layers item there in
      kept ∙ elim (Bool-cases (matches x item)) [
        | inl e ↦ let alike = holds-alike r.cache.layers x item e in ground (arith, alike, found, e)
        | inr e ↦ ground (arith, e)
      ]
  | inr (free, saved) ↦ ap (λ ls. holds ls x) saved.0 ∙ holds-append r.cache.layers item x
]
run_change-holds v (delete item) r x distinct = elim (delete_layer_item_cases v item r) [
  | inl (free, same) ↦
      let kept = ap (λ p. holds p.1.cache.layers x) same in
      kept ∙ elim (Bool-cases (matches x item)) [
        | inl e ↦
            let alike = holds-alike r.cache.layers x item e in
            let missing = holds-missing r.cache.layers item free in
            ground (arith, alike, missing, e)
        | inr e ↦ ground (arith, e)
      ]
  | inr (there, saved) ↦ ap (λ ls. holds ls x) saved.0 ∙ holds-erase r.cache.layers item x distinct
]

run_change-AreDistinct :
    (v : Text) (change : Change) (r : RepoCache)
    → AreDistinct r.cache.layers
    → AreDistinct (run_change v change r).cache.layers
unfolding run_change
run_change-AreDistinct v (add item) r distinct = (AreDistinct-kept v item r distinct).0
run_change-AreDistinct v (delete item) r distinct = (AreDistinct-kept v item r distinct).1

change_all-same :
    (changes : List Change) (s s' : Shelf) (x : LayersItem)
    → ((y : LayersItem) → s y ≡ s' y)
    → change_all changes s x ≡ change_all changes s' x
unfolding change_all change_shelf
change_all-same [] s s' x h = h x
change_all-same (add item ∷ rest) s s' x h =
    change_all-same rest _ _ x (λ y. ap (λ b. b || matches y item) (h y))
change_all-same (delete item ∷ rest) s s' x h =
    change_all-same rest _ _ x (λ y. ap (λ b. b && not (matches y item)) (h y))

-- Any sequence of additions and deletions does to the cache what it does to a set of layers: a layer
-- is in memory afterwards if and only if the abstract changes put it in the set, whether or not the
-- writes succeed, if no two layers of the cache match at the start.
pub run_changes_refine :
    (v : Text) (changes : List Change) (r : RepoCache) (x : LayersItem)
    → AreDistinct r.cache.layers
    → holds (run_changes v changes r).cache.layers x ≡ change_all changes (holds r.cache.layers) x
unfolding run_changes change_all
run_changes_refine v [] r x distinct = refl
run_changes_refine v (change ∷ rest) r x distinct =
    run_changes_refine v rest (run_change v change r) x (run_change-AreDistinct v change r distinct)
    ∙ change_all-same rest _ _ x (λ y. run_change-holds v change r y distinct)
