-- ===== src/Prelude/Result.antt =====
-- `utils::error::Result`: a value, or an error with the message that the code gives it. The chain
-- of trace messages that `LINGLONG_TRACE` adds is not kept.
use Prim.Native.String.{String}
use mathlib.Core.Path.{◌≡◌, refl}
use mathlib.Core.Logic.{◌⊎◌, inl, inr}
use mathlib.Core.Option.{Option, none, some}

pub data Result {ℓ} (A : Type ℓ) : Type ℓ where
  err : String → Result A
  ok : A → Result A

pub Result-cases {ℓ} :
    {A : Type ℓ} (r : Result A) → ((a : A) × (r ≡ ok a)) ⊎ ((e : String) × (r ≡ err e))
Result-cases (ok a) = inl (a, refl)
Result-cases (err e) = inr (e, refl)

-- The value, or this message.
abbrev pub or_fail {ℓ} : {A : Type ℓ} → Option A → String → Result A
or_fail (some value) message = ok value
or_fail none message = err message

module _ {ℓ κ} {A : Type ℓ} {B : Type κ} where
  infixl 5 ◌>>=◌
  abbrev pub ◌>>=◌ : Result A → (A → Result B) → Result B
  err message >>= next = err message
  ok value >>= next = next value

  -- A chain that returned has taken its first step.
  pub >>=-eq-ok :
      (first : Result A) (next : A → Result B) {out : B}
      → (first >>= next) ≡ ok out
      → (value : A) × (first ≡ ok value) × (next value ≡ ok out)
  >>=-eq-ok (err message) next returned = cc
  >>=-eq-ok (ok value) next returned = (value, refl, returned)

  -- A step that asks for a value and goes on has it.
  pub or_fail-bind :
      (o : Option A) (message : String) (next : A → Result B) {out : B}
      → (or_fail o message >>= next) ≡ ok out
      → (value : A) × (o ≡ some value) × (next value ≡ ok out)
  or_fail-bind (some value) message next returned = (value, refl, returned)
  or_fail-bind none message next returned = cc
