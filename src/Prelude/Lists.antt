-- ===== src/Prelude/Lists.antt =====
-- Lists measured by native numbers, and lists filtered by Boolean tests.
use Prim.Native.Nat.{ℕ, zero, suc, ◌+◌}
use mathlib.Core.Path.{◌≡◌, refl, sym, ap, ◌∙◌}
use mathlib.Core.Logic.{inl, inr}
use mathlib.Core.Bool.{Bool, true, false}
use mathlib.Core.List.{List, [], ◌∷◌, ◌++◌, map}
use mathlib.Core.Option.{Option, none, some}
use native.Mathlib.Omega.{arith}
use linglong.Prelude.Tests.{if◌then◌else◌, Bool-cases}

module _ {ℓ} {A : Type ℓ} where
  abbrev pub length : List A → ℕ
  length [] = 0
  length (x ∷ xs) = suc (length xs)

  pub length-append : (xs ys : List A) → length (xs ++ ys) ≡ length xs + length ys
  length-append [] ys = omega arith
  length-append (x ∷ xs) ys = omega (arith, length-append xs ys)

  -- What passes a test, in order.
  unfoldable pub keep : (A → Bool) → List A → List A
  keep p [] = []
  keep p (x ∷ xs) = let rest = keep p xs in if p x then x ∷ rest else rest

  -- `std::find_if`
  unfoldable pub find_first : (A → Bool) → List A → Option A
  find_first p [] = none
  find_first p (x ∷ xs) = let rest = find_first p xs in if p x then some x else rest

  -- The list with what `std::find_if` finds erased.
  unfoldable pub erase_first : (A → Bool) → List A → List A
  erase_first p [] = []
  erase_first p (x ∷ xs) = let rest = erase_first p xs in if p x then xs else x ∷ rest

  -- The list with what `std::find_if` finds changed.
  unfoldable pub update_first : (A → Bool) → (A → A) → List A → List A
  update_first p f [] = []
  update_first p f (x ∷ xs) = let rest = update_first p f xs in if p x then f x ∷ xs else x ∷ rest

  -- Every element has a property.
  abbrev pub All {κ} : (A → Type κ) → List A → Type κ
  All P [] = Unit
  All P (x ∷ xs) = P x × All P xs

  pub All-map {κ κ'} :
      {P : A → Type κ} {Q : A → Type κ'}
      → ((x : A) → P x → Q x)
      → (xs : List A) → All P xs
      → All Q xs
  All-map f [] h = tt
  All-map f (x ∷ xs) h = (f x h.0, All-map f xs h.1)

  pub All-append {κ} : (P : A → Type κ) (xs ys : List A) → All P xs → All P ys → All P (xs ++ ys)
  All-append P [] ys h k = k
  All-append P (x ∷ xs) ys h k = (h.0, All-append P xs ys h.1 k)

  pub find_first-none :
      (p : A → Bool) (xs : List A) → find_first p xs ≡ none → All (λ x. p x ≡ false) xs
  unfolding find_first
  find_first-none p [] h = tt
  find_first-none p (x ∷ xs) h = elim (Bool-cases (p x)) [
    | inl e ↦ cc (sym (rw (e, find_first) at h))
    | inr e ↦ (e, find_first-none p xs (rw (e, find_first) at h))
  ]

  pub find_first-append :
      (p : A → Bool) (xs : List A) (a : A)
      → find_first p xs ≡ none
      → p a ≡ true
      → find_first p (xs ++ (a ∷ [])) ≡ some a
  unfolding find_first
  find_first-append p [] a h e = rw (e, find_first)
  find_first-append p (x ∷ xs) a h e = elim (Bool-cases (p x)) [
    | inl hit ↦ cc (sym (rw (hit, find_first) at h))
    | inr miss ↦ rw (miss, find_first) (find_first-append p xs a (rw (miss, find_first) at h) e)
  ]

  -- Erasing what was put behind a list that holds no other match gives the list back.
  pub erase_first-append :
      (p : A → Bool) (xs : List A) (a : A)
      → find_first p xs ≡ none
      → p a ≡ true
      → erase_first p (xs ++ (a ∷ [])) ≡ xs
  unfolding erase_first find_first
  erase_first-append p [] a h e = rw (e, erase_first)
  erase_first-append p (x ∷ xs) a h e = elim (Bool-cases (p x)) [
    | inl hit ↦ cc (sym (rw (hit, find_first) at h))
    | inr miss ↦
        rw (miss, erase_first)
          (ap (◌∷◌ x) (erase_first-append p xs a (rw (miss, find_first) at h) e))
  ]

  pub erase_first-All {κ} :
      (P : A → Type κ) (p : A → Bool) (xs : List A) → All P xs → All P (erase_first p xs)
  unfolding erase_first
  erase_first-All P p [] h = tt
  erase_first-All P p (x ∷ xs) h = elim (Bool-cases (p x)) [
    | inl e ↦ rw (e, erase_first) h.1
    | inr e ↦ rw (e, erase_first) (h.0, erase_first-All P p xs h.1)
  ]

  -- A change of what is found first is undone by a second change of it.
  pub update_first-undo :
      (p : A → Bool) (f g : A → A) (xs : List A) (a : A)
      → ((x : A) → p (f x) ≡ p x)
      → find_first p xs ≡ some a
      → g (f a) ≡ a
      → update_first p g (update_first p f xs) ≡ xs
  unfolding update_first find_first
  update_first-undo p f g [] a same h e = refl
  update_first-undo p f g (x ∷ xs) a same h e = elim (Bool-cases (p x)) [
    | inl hit ↦
        let k : x ≡ a = cc (rw (hit, find_first) at h) in
        let back : g (f x) ≡ x = rw k e in
        rw (hit, update_first) (rw (same x, hit, update_first) (ap (λ y. y ∷ xs) back))
    | inr miss ↦
        rw (miss, update_first)
          (rw (miss, update_first)
            (ap (◌∷◌ x) (update_first-undo p f g xs a same (rw (miss, find_first) at h) e)))
  ]

  pub find_first-found :
      (p : A → Bool) (xs : List A) (a : A) → find_first p xs ≡ some a → p a ≡ true
  unfolding find_first
  find_first-found p [] a h = cc h
  find_first-found p (x ∷ xs) a h = elim (Bool-cases (p x)) [
    | inl hit ↦ let k : x ≡ a = cc (rw (hit, find_first) at h) in rw (← k) hit
    | inr miss ↦ find_first-found p xs a (rw (miss, find_first) at h)
  ]

  pub find_first-none_of :
      (p : A → Bool) (xs : List A) → All (λ x. p x ≡ false) xs → find_first p xs ≡ none
  unfolding find_first
  find_first-none_of p [] h = refl
  find_first-none_of p (x ∷ xs) h = rw (h.0, find_first) (find_first-none_of p xs h.1)

  -- What is found is found in a longer list too.
  pub find_first-append_some :
      (p : A → Bool) (xs ys : List A) (a : A)
      → find_first p xs ≡ some a
      → find_first p (xs ++ ys) ≡ some a
  unfolding find_first
  find_first-append_some p [] ys a h = cc h
  find_first-append_some p (x ∷ xs) ys a h = elim (Bool-cases (p x)) [
    | inl hit ↦ rw (hit, find_first) (rw (hit, find_first) at h)
    | inr miss ↦
        rw (miss, find_first) (find_first-append_some p xs ys a (rw (miss, find_first) at h))
  ]

  -- Erasing by a test that excludes another does not change what the other finds.
  pub find_first-erase_other :
      (p q : A → Bool) (xs : List A)
      → ((x : A) → q x ≡ true → p x ≡ false)
      → find_first p (erase_first q xs) ≡ find_first p xs
  unfolding find_first erase_first
  find_first-erase_other p q [] other = refl
  find_first-erase_other p q (x ∷ xs) other = elim (Bool-cases (q x)) [
    | inl hit ↦ rw (hit, erase_first) (rw (other x hit, find_first) refl)
    | inr miss ↦
        rw (miss, erase_first)
          (ap (λ found. if p x then some x else found) (find_first-erase_other p q xs other))
  ]

  pub keep-All {κ} : (P : A → Type κ) (p : A → Bool) (xs : List A) → All P xs → All P (keep p xs)
  unfolding keep
  keep-All P p [] h = tt
  keep-All P p (x ∷ xs) h = elim (Bool-cases (p x)) [
    | inl e ↦ rw (e, keep) (h.0, keep-All P p xs h.1)
    | inr e ↦ rw (e, keep) (keep-All P p xs h.1)
  ]

  -- What holds of all that is kept.
  pub All-keep {κ} :
      (P : A → Type κ) (p : A → Bool) (xs : List A)
      → All P (keep p xs)
      → All (λ x. p x ≡ true → P x) xs
  unfolding keep
  All-keep P p [] h = tt
  All-keep P p (x ∷ xs) h = elim (Bool-cases (p x)) [
    | inl e ↦ let k = rw (e, keep) at h in (λ _. k.0, All-keep P p xs k.1)
    | inr e ↦ (λ e'. cc (sym e ∙ e'), All-keep P p xs (rw (e, keep) at h))
  ]

  -- The first elements, and those behind them.
  abbrev pub take : ℕ → List A → List A
  take zero xs = []
  take (suc n) [] = []
  take (suc n) (x ∷ xs) = x ∷ take n xs

  abbrev pub drop : ℕ → List A → List A
  drop zero xs = xs
  drop (suc n) [] = []
  drop (suc n) (x ∷ xs) = drop n xs

  pub take-append : (xs ys : List A) → take (length xs) (xs ++ ys) ≡ xs
  take-append [] ys = refl
  take-append (x ∷ xs) ys = ap (◌∷◌ x) (take-append xs ys)

  pub drop-append : (xs ys : List A) → drop (length xs) (xs ++ ys) ≡ ys
  drop-append [] ys = refl
  drop-append (x ∷ xs) ys = drop-append xs ys

  drop-nil : (n : ℕ) → drop n [] ≡ []
  drop-nil zero = refl
  drop-nil (suc n) = refl

  pub drop-drop : (m n : ℕ) (xs : List A) → drop (m + n) xs ≡ drop n (drop m xs)
  drop-drop zero n xs = let e : zero + n ≡ n = omega arith in ap (λ k. drop k xs) e
  drop-drop (suc m) n [] = drop-nil (suc m + n) ∙ sym (drop-nil n)
  drop-drop (suc m) n (x ∷ xs) =
      let e : suc m + n ≡ suc (m + n) = omega arith in
      ap (λ k. drop k (x ∷ xs)) e ∙ drop-drop m n xs

-- What holds of the images of all that passes a test.
pub All-map-keep {ℓ κ μ} :
    {A : Type ℓ} {B : Type κ} (P : B → Type μ) (f : A → B) (p : A → Bool) (xs : List A)
    → All (λ x. p x ≡ true → P (f x)) xs
    → All P (map f (keep p xs))
unfolding keep
All-map-keep P f p [] h = tt
All-map-keep P f p (x ∷ xs) h = elim (Bool-cases (p x)) [
  | inl e ↦ rw (e, keep) (h.0 e, All-map-keep P f p xs h.1)
  | inr e ↦ rw (e, keep) (All-map-keep P f p xs h.1)
]
