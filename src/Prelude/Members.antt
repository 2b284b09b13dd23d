-- ===== src/Prelude/Members.antt =====
-- Membership in the lists that the Boolean tests make.
use mathlib.Core.Path.{◌≡◌, sym, ap, ◌∙◌, subst}
use mathlib.Core.Logic.{inl, inr}
use mathlib.Core.Logic.Or
use mathlib.Core.Bool.{Bool, true, false}
use mathlib.Core.List.{
  List, [], ◌∷◌, Mem, mem-cons, mem-cons_self, mem-cons_of_mem, not-mem-nil, Mem-prop,
}
use linglong.Prelude.Tests.{Bool-cases}
use linglong.Prelude.Lists.{keep, erase_first, All}

module _ {ℓ} {A : Type ℓ} where
  IsKept-prop : (p : A → Bool) (x : A) (xs : List A) → IsProp (Mem x xs × (p x ≡ true))
  IsKept-prop p x xs = hlevel

  -- What is kept stands in the list and passes the test.
  pub mem-keep : (p : A → Bool) (x : A) (xs : List A) → Mem x (keep p xs) → Mem x xs × (p x ≡ true)
  unfolding keep
  mem-keep p x [] m = absurd (not-mem-nil m)
  mem-keep p x (y ∷ ys) m = elim (Bool-cases (p y)) [
    | inl e ↦
        Or.elim (IsKept-prop p x (y ∷ ys)) (mem-cons.0 (rw (e, keep) at m))
          (λ same. (rw same mem-cons_self, rw same e))
          (λ rest. let (n, h) = mem-keep p x ys rest in (mem-cons_of_mem y n, h))
    | inr e ↦ let (n, h) = mem-keep p x ys (rw (e, keep) at m) in (mem-cons_of_mem y n, h)
  ]

  -- What stands in the list and passes the test is kept.
  pub mem-keep_of : (p : A → Bool) (x : A) (xs : List A) → Mem x xs → p x ≡ true → Mem x (keep p xs)
  unfolding keep
  mem-keep_of p x [] m h = absurd (not-mem-nil m)
  mem-keep_of p x (y ∷ ys) m h = elim (Bool-cases (p y)) [
    | inl e ↦
        rw (e, keep)
          (Or.elim Mem-prop (mem-cons.0 m) (λ same. rw same mem-cons_self)
            (λ rest. mem-cons_of_mem y (mem-keep_of p x ys rest h)))
    | inr e ↦
        rw (e, keep)
          (Or.elim Mem-prop (mem-cons.0 m) (λ same. cc (sym e ∙ ap p (sym same) ∙ h))
            (λ rest. mem-keep_of p x ys rest h))
  ]

  -- A proposition that every element satisfies holds at a member.
  pub All-at {κ} : (P : A → Type κ) (x : A) (xs : List A) → IsProp (P x) → Mem x xs → All P xs → P x
  All-at P x [] prop m h = absurd (not-mem-nil m)
  All-at P x (y ∷ ys) prop m h =
      Or.elim prop (mem-cons.0 m) (λ same. subst P (sym same) h.0)
        (λ rest. All-at P x ys prop rest h.1)

  -- What a test does not erase stays.
  pub mem-erase_first_of :
      (p : A → Bool) (x : A) (xs : List A) → Mem x xs → p x ≡ false → Mem x (erase_first p xs)
  unfolding erase_first
  mem-erase_first_of p x [] m h = absurd (not-mem-nil m)
  mem-erase_first_of p x (y ∷ ys) m h = elim (Bool-cases (p y)) [
    | inl e ↦
        rw (e, erase_first)
          (Or.elim Mem-prop (mem-cons.0 m) (λ same. cc (sym e ∙ ap p (sym same) ∙ h))
            (λ rest. rest))
    | inr e ↦
        rw (e, erase_first)
          (Or.elim Mem-prop (mem-cons.0 m) (λ same. rw same mem-cons_self)
            (λ rest. mem-cons_of_mem y (mem-erase_first_of p x ys rest h)))
  ]
