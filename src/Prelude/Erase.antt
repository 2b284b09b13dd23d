-- ===== src/Prelude/Erase.antt =====
-- What is kept of a list from which an element was erased, and how long the parts are.
use mathlib.Core.Path.{◌≡◌, refl, ap}
use mathlib.Core.Logic.{inl, inr}
use mathlib.Core.Logic.Or
use mathlib.Core.Bool.{Bool, true, false, not}
use mathlib.Core.List.{List, [], ◌∷◌, map, Mem, mem-cons, not-mem-nil}
use Prim.Native.Nat.{suc, ◌+◌}
use native.Mathlib.Omega.{arith}
use native.Mathlib.Nat.{ℕ_set}
use linglong.Prelude.Tests.{Bool-cases}
use linglong.Prelude.Lists.{length, keep, erase_first}

module _ {A : Type 0} where
  pub keep-erase_first :
      (p m : A → Bool) (xs : List A)
      → ((x : A) → m x ≡ true → p x ≡ true)
      → keep p (erase_first m xs) ≡ erase_first m (keep p xs)
  unfolding keep erase_first
  keep-erase_first p m [] h = refl
  keep-erase_first p m (x ∷ xs) h = elim (Bool-cases (m x)) [
    | inl e ↦ let k = h x e in rw (e, k, keep, e, erase_first)
    | inr e ↦ elim (Bool-cases (p x)) [
      | inl k ↦ rw (e, k, keep, e, erase_first) (ap (λ l. x ∷ l) (keep-erase_first p m xs h))
      | inr k ↦ rw (e, k, keep, erase_first) (keep-erase_first p m xs h)
    ]
  ]

  pub keep-erase_none :
      (p m : A → Bool) (xs : List A) → keep p xs ≡ [] → keep p (erase_first m xs) ≡ []
  unfolding keep erase_first
  keep-erase_none p m [] h = refl
  keep-erase_none p m (x ∷ xs) h = elim (Bool-cases (p x)) [
    | inl k ↦ cc (rw (k, keep) at h)
    | inr k ↦ elim (Bool-cases (m x)) [
      | inl e ↦ rw (e, keep, erase_first) (rw (k, keep) at h)
      | inr e ↦ rw (e, k, keep, erase_first) (keep-erase_none p m xs (rw (k, keep) at h))
    ]
  ]

  -- Erasing an element that is not kept changes nothing of what is kept.
  pub keep-erase_outside :
      (p m : A → Bool) (xs : List A)
      → ((x : A) → m x ≡ true → p x ≡ false)
      → keep p (erase_first m xs) ≡ keep p xs
  unfolding keep erase_first
  keep-erase_outside p m [] h = refl
  keep-erase_outside p m (x ∷ xs) h = elim (Bool-cases (m x)) [
    | inl e ↦ let k = h x e in rw (e, k, keep, erase_first)
    | inr e ↦ elim (Bool-cases (p x)) [
      | inl k ↦ rw (e, k, keep, erase_first) (ap (λ l. x ∷ l) (keep-erase_outside p m xs h))
      | inr k ↦ rw (e, k, keep, erase_first) (keep-erase_outside p m xs h)
    ]
  ]

  pub length-erase_first :
      (m : A → Bool) (a : A) (xs : List A)
      → Mem a xs
      → m a ≡ true
      → suc (length (erase_first m xs)) ≡ length xs
  unfolding erase_first
  length-erase_first m a [] there h = absurd (not-mem-nil there)
  length-erase_first m a (x ∷ xs) there h = elim (Bool-cases (m x)) [
    | inl e ↦ rw (e, erase_first) refl
    | inr e ↦
        rw (e, erase_first)
          (Or.elim (ℕ_set _ _) (mem-cons.0 there) (λ same. cc (ap m same, e, h))
            (λ rest. ap suc (length-erase_first m a xs rest h)))
  ]

  pub length-keep :
      (p : A → Bool) (xs : List A)
      → length (keep p xs) + length (keep (λ x. not (p x)) xs) ≡ length xs
  unfolding keep
  length-keep p [] = refl
  length-keep p (x ∷ xs) = elim (Bool-cases (p x)) [
    | inl e ↦ let count = length-keep p xs in rw (e, keep) (omega (arith, count))
    | inr e ↦ let count = length-keep p xs in rw (e, keep) (omega (arith, count))
  ]

  pub length-none : (xs : List A) → length xs ≡ 0 → xs ≡ []
  length-none [] h = refl
  length-none (x ∷ xs) h = cc h

pub length-map {ℓ} : {A B : Type ℓ} (f : A → B) (xs : List A) → length (map f xs) ≡ length xs
length-map f [] = refl
length-map f (x ∷ rest) = ap suc (length-map f rest)
