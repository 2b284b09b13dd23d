-- ===== src/Repo/Cache/Sorted.antt =====
-- The layers that a query returns, and their order.
use mathlib.Core.List.{Mem, Perm}
use mathlib.Core.List.Perm
use linglong.Prelude.{
  keep-All, ◌≡◌, true, false, Bool-cases, inl, inr, List, [], ◌∷◌, keep, All, if_both,
}
use linglong.Prelude.Members.{mem-keep, mem-keep_of}
use linglong.Prelude.Text.{text_lt, text_lt_asymm, not_less_trans}
use linglong.Api.{LayersItem, RepositoryCache}
use linglong.Repo.Cache.{Query, selects, insert_layer, sort_layers, query_layer_item}

insert_layer-perm : (x : LayersItem) (xs : List LayersItem) → Perm (insert_layer x xs) (x ∷ xs)
unfolding insert_layer
insert_layer-perm x [] = Perm.refl (x ∷ [])
insert_layer-perm x (y ∷ ys) =
    if_both (λ l. Perm l (x ∷ y ∷ ys)) (text_lt x.info.version y.info.version) _ _
      (Perm.trans (Perm.cons y (insert_layer-perm x ys)) (Perm.swap x y ys)) (Perm.refl _)

sort_layers-perm : (xs : List LayersItem) → Perm (sort_layers xs) xs
unfolding sort_layers
sort_layers-perm [] = Perm.nil
sort_layers-perm (x ∷ xs) =
    Perm.trans (insert_layer-perm x (sort_layers xs)) (Perm.cons x (sort_layers-perm xs))

-- No later layer has a greater version text.
abbrev pub IsSorted : List LayersItem → Type 0
IsSorted [] = Unit
IsSorted (x ∷ xs) = All (λ y. text_lt x.info.version y.info.version ≡ false) xs × IsSorted xs

insert_layer-All :
    (P : LayersItem → Type 0) (x : LayersItem) (xs : List LayersItem)
    → P x
    → All P xs
    → All P (insert_layer x xs)
unfolding insert_layer
insert_layer-All P x [] h k = (h, tt)
insert_layer-All P x (y ∷ ys) h k =
    if_both (All P) (text_lt x.info.version y.info.version) _ _ (k.0, insert_layer-All P x ys h k.1)
      (h, k)

All-not_less :
    (x y : LayersItem) (ys : List LayersItem)
    → text_lt x.info.version y.info.version ≡ false
    → All (λ z. text_lt y.info.version z.info.version ≡ false) ys
    → All (λ z. text_lt x.info.version z.info.version ≡ false) ys
All-not_less x y [] h k = tt
All-not_less x y (z ∷ ys) h k = (not_less_trans _ y.info.version _ h k.0, All-not_less x y ys h k.1)

insert_layer-IsSorted :
    (x : LayersItem) (xs : List LayersItem) → IsSorted xs → IsSorted (insert_layer x xs)
unfolding insert_layer
insert_layer-IsSorted x [] s = (tt, tt)
insert_layer-IsSorted x (y ∷ ys) s = elim (Bool-cases (text_lt x.info.version y.info.version)) [
  | inl less ↦
      rw (less, insert_layer)
        (
          insert_layer-All (λ z. text_lt y.info.version z.info.version ≡ false) x ys
              (text_lt_asymm x.info.version y.info.version less) s.0,
          insert_layer-IsSorted x ys s.1,
        )
  | inr not_less ↦ rw (not_less, insert_layer) ((not_less, All-not_less x y ys not_less s.0), s)
]

sort_layers-All :
    (P : LayersItem → Type 0) (xs : List LayersItem) → All P xs → All P (sort_layers xs)
unfolding sort_layers
sort_layers-All P [] h = tt
sort_layers-All P (x ∷ xs) h = insert_layer-All P x (sort_layers xs) h.0 (sort_layers-All P xs h.1)

-- What holds of all layers of the cache holds of those that a query returns.
pub query_layer_item-All :
    (P : LayersItem → Type 0) (c : RepositoryCache) (q : Query)
    → All P c.layers
    → All P (query_layer_item c q)
unfolding query_layer_item
query_layer_item-All P c q h =
    sort_layers-All P (keep (selects q) c.layers) (keep-All P (selects q) c.layers h)

sort_layers-IsSorted : (xs : List LayersItem) → IsSorted (sort_layers xs)
unfolding sort_layers
sort_layers-IsSorted [] = tt
sort_layers-IsSorted (x ∷ xs) = insert_layer-IsSorted x (sort_layers xs) (sort_layers-IsSorted xs)

-- A query returns the layers that it selects, all of them and as often, sorted by the text of the
-- version, the greatest first.
pub query_layer_item-IsSorted :
    (c : RepositoryCache) (q : Query)
    → Perm (query_layer_item c q) (keep (selects q) c.layers) × IsSorted (query_layer_item c q)
unfolding query_layer_item
query_layer_item-IsSorted c q =
    (sort_layers-perm (keep (selects q) c.layers), sort_layers-IsSorted (keep (selects q) c.layers))

-- What a query returns stands in the cache and is selected.
pub mem-query_layer_item :
    (c : RepositoryCache) (q : Query) (l : LayersItem)
    → Mem l (query_layer_item c q)
    → Mem l c.layers × (selects q l ≡ true)
mem-query_layer_item c q l m =
    mem-keep (selects q) l c.layers ((Perm.mem_iff (query_layer_item-IsSorted c q).0).0 m)

-- A layer of the cache that is selected is returned.
pub mem-query_layer_item_of :
    (c : RepositoryCache) (q : Query) (l : LayersItem)
    → Mem l c.layers
    → selects q l ≡ true
    → Mem l (query_layer_item c q)
mem-query_layer_item_of c q l m h =
    (Perm.mem_iff (query_layer_item-IsSorted c q).0).1 (mem-keep_of (selects q) l c.layers m h)
