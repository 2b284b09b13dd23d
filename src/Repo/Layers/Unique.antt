-- ===== src/Repo/Layers/Unique.antt =====
-- Lists of packages with one entry for each id.
use linglong.Prelude.{
  ◌≡◌, refl, sym, ◌∙◌, inl, inr, Bool, true, false, Bool-cases, none, List, [], ◌∷◌, ◌++◌,
  find_first, erase_first, All, All-append, All-map, find_first-none, find_first-none_of,
  erase_first-All, arith,
}
use linglong.Prelude.Text.{Text, text_eq_iff, text_eq_refl}
use linglong.Api.{PackageInfoV2}
use linglong.Repo.Layers.{has_id}

-- No two entries have an id in common.
abbrev pub AreUnique : List PackageInfoV2 → Type 0
AreUnique [] = Unit
AreUnique (x ∷ xs) = All (λ y. has_id x.id y ≡ false) xs × AreUnique xs

pub has_id_swap :
    (id : Text) (a b : PackageInfoV2) → has_id id a ≡ true → has_id a.id b ≡ has_id id b
unfolding has_id
has_id_swap id a b h = rw ((text_eq_iff id a.id).0 h) refl

pub has_id_refl : (a : PackageInfoV2) → has_id a.id a ≡ true
unfolding has_id
has_id_refl a = text_eq_refl a.id

pub has_id_comm : (a b : PackageInfoV2) → has_id a.id b ≡ false → has_id b.id a ≡ false
unfolding has_id
has_id_comm a b h = ground (arith, text_eq_iff a.id b.id, text_eq_iff b.id a.id, text_eq_refl a.id)

-- Once the entry of an id is erased there is none.
pub find_first-erase_unique :
    (id : Text) (xs : List PackageInfoV2)
    → AreUnique xs
    → find_first (has_id id) (erase_first (has_id id) xs) ≡ none
unfolding find_first erase_first
find_first-erase_unique id [] u = refl
find_first-erase_unique id (x ∷ xs) u = elim (Bool-cases (has_id id x)) [
  | inl e ↦
      rw (e, erase_first)
        (find_first-none_of (has_id id) xs (All-map (λ y k. sym (has_id_swap id x y e) ∙ k) xs u.0))
  | inr e ↦ rw (e, erase_first) (rw (e, find_first) (find_first-erase_unique id xs u.1))
]

pub AreUnique-append :
    (xs : List PackageInfoV2) (a : PackageInfoV2)
    → AreUnique xs
    → find_first (has_id a.id) xs ≡ none
    → AreUnique (xs ++ (a ∷ []))
AreUnique-append xs a u h = go xs u (find_first-none (has_id a.id) xs h)
  where
    go :
        (xs : List PackageInfoV2)
        → AreUnique xs
        → All (λ x. has_id a.id x ≡ false) xs
        → AreUnique (xs ++ (a ∷ []))
    go [] u h = (tt, tt)
    go (x ∷ xs) u h = (
      All-append (λ y. has_id x.id y ≡ false) xs (a ∷ []) u.0 (has_id_comm a x h.0, tt),
      go xs u.1 h.1,
    )

pub AreUnique-erase_first :
    (p : PackageInfoV2 → Bool) (xs : List PackageInfoV2)
    → AreUnique xs
    → AreUnique (erase_first p xs)
unfolding erase_first
AreUnique-erase_first p [] u = tt
AreUnique-erase_first p (x ∷ xs) u = elim (Bool-cases (p x)) [
  | inl e ↦ rw (e, erase_first) u.1
  | inr e ↦
      rw (e, erase_first)
        (erase_first-All (λ y. has_id x.id y ≡ false) p xs u.0, AreUnique-erase_first p xs u.1)
]

pub has_id_sound : (id : Text) (a : PackageInfoV2) → has_id id a ≡ true → id ≡ a.id
unfolding has_id
has_id_sound id a h = (text_eq_iff id a.id).0 h

-- An entry has one id.
pub has_id_apart :
    (id : Text) (a : PackageInfoV2)
    → has_id id a ≡ false
    → (x : PackageInfoV2) → has_id id x ≡ true
    → has_id a.id x ≡ false
unfolding has_id
has_id_apart id a h x k =
    ground (arith, text_eq_iff id a.id, text_eq_iff id x.id, text_eq_iff a.id x.id, text_eq_refl id)
