-- ===== src/Package/Numeral.antt =====
-- Decimal numerals with no leading zeros, which the version pattern `0|[1-9]\d*` describes, and
-- the numbers that they stand for.
use linglong.Prelude.{
  ℕ, zero, suc, ◌+◌, ◌-◌, ◌*◌, ◌/◌, ◌%◌, ◌≤◌, ◌<◌, ◌≡◌, refl, ◌∙◌, Bool, ◌&&◌, [], ◌∷◌, ◌++◌,
  append-nil, arith, leb, ◌==◌, if◌then◌else◌,
}
use native.Mathlib.Decide.{dec_lt}
use linglong.Prelude.Text.{Text}

abbrev pub is_digit : ℕ → Bool
is_digit c = leb b'0' c && leb c b'9'

-- Every code unit is one of `0` to `9`.
abbrev pub AreDigits : Text → Type 0
AreDigits [] = Unit
AreDigits (c ∷ s) = (b'0' ≤ c) × (c ≤ b'9') × AreDigits s

-- `0`, or digits of which the first is not `0`.
abbrev pub IsNumeral : Text → Type 0
IsNumeral [] = ⊥
IsNumeral (c ∷ []) = (b'0' ≤ c) × (c ≤ b'9')
IsNumeral (c ∷ d ∷ s) = (b'0' < c) × (c ≤ b'9') × AreDigits (d ∷ s)

-- The number that digits stand for, after those read so far.
unfoldable pub value_from : ℕ → Text → ℕ
value_from n [] = n
value_from n (c ∷ s) = value_from (n * 10 + (c - b'0')) s

abbrev pub value : Text → ℕ
value s = value_from 0 s

-- The digits of a number before a text; no digit for 0. The fuel bounds the number.
emit : ℕ → ℕ → Text → Text
emit zero n out = out
emit (suc f) n out =
    let rest = emit f (n / 10) ((b'0' + n % 10) ∷ out) in if n == 0 then out else rest

-- The decimal numeral of a number.
unfoldable pub decimal : ℕ → Text
unfolding emit
decimal n = if n == 0 then b'0' ∷ [] else emit n n []

emit_fuel : (f g n : ℕ) (out : Text) → n ≤ f → n ≤ g → emit f n out ≡ emit g n out
unfolding emit
emit_fuel zero zero n out h k = refl
emit_fuel zero (suc g) n out h k = ground arith
emit_fuel (suc f) zero n out h k = ground arith
emit_fuel (suc f) (suc g) n out h k = ground (arith, emit_fuel f g (n / 10) ((b'0' + n % 10) ∷ out))

emit_step :
    (f n : ℕ) (out : Text) → 0 < n → emit (suc f) n out ≡ emit f (n / 10) ((b'0' + n % 10) ∷ out)
unfolding emit
emit_step f n out h = ground arith

value_from-emit : (f n : ℕ) (out : Text) → n ≤ f → value_from 0 (emit f n out) ≡ value_from n out
unfolding emit value_from
value_from-emit zero n out h = ground arith
value_from-emit (suc f) n out h = ground (arith, value_from-emit f (n / 10) ((b'0' + n % 10) ∷ out))

pub value-decimal : (n : ℕ) → value (decimal n) ≡ n
unfolding decimal value_from
value-decimal n = ground (arith, value_from-emit n n [])

emit-AreDigits : (f n : ℕ) (out : Text) → AreDigits out → AreDigits (emit f n out)
unfolding emit
emit-AreDigits zero n out h = h
emit-AreDigits (suc f) n out h = ground (arith, emit-AreDigits f (n / 10) ((b'0' + n % 10) ∷ out))

emit_zero : (f : ℕ) (out : Text) → emit f 0 out ≡ out
unfolding emit
emit_zero zero out = refl
emit_zero (suc f) out = refl

pub IsNumeral-cons :
    (c : ℕ) (out : Text) → b'0' < c → c ≤ b'9' → AreDigits out → IsNumeral (c ∷ out)
IsNumeral-cons c [] p h d = omega arith
IsNumeral-cons c (x ∷ out) p h d = (p, h, d)

-- With a number above 0 the first digit is not `0`.
emit-IsNumeral : (f n : ℕ) (out : Text) → 0 < n → n ≤ f → AreDigits out → IsNumeral (emit f n out)
emit-IsNumeral zero n out p h d = absurd (omega arith)
emit-IsNumeral (suc f) n out p h d = rw (emit_step f n out p) (elim (dec_lt 9 n) [
  | yes big ↦
      emit-IsNumeral f (n / 10) ((b'0' + n % 10) ∷ out) (omega arith) (omega arith)
        (omega arith, omega arith, d)
  | no small ↦
      let e : n / 10 ≡ 0 = omega arith in
      rw (e, emit_zero f) (IsNumeral-cons (b'0' + n % 10) out (omega arith) (omega arith) d)
])

pub decimal-IsNumeral : (n : ℕ) → IsNumeral (decimal n)
unfolding decimal
decimal-IsNumeral zero = omega arith
decimal-IsNumeral (suc n) =
    ground (arith, emit-IsNumeral (suc n) (suc n) [] (omega arith) (omega arith) tt)

le-value_from : (n : ℕ) (s : Text) → 0 < n → n ≤ value_from n s
unfolding value_from
le-value_from n [] h = omega arith
le-value_from n (c ∷ s) h = omega (arith, le-value_from (n * 10 + (c - b'0')) s (omega arith))

-- One more digit behind a number above 0.
emit-digit :
    (f n c : ℕ) (out : Text)
    → 0 < n
    → b'0' ≤ c
    → c ≤ b'9'
    → n * 10 + (c - b'0') ≤ f
    → emit f (n * 10 + (c - b'0')) out ≡ emit f n (c ∷ out)
emit-digit f n c out h p q k =
    let m = n * 10 + (c - b'0') in
    let tenth : m / 10 ≡ n = omega arith in
    let digit : b'0' + m % 10 ≡ c = omega arith in
    emit_fuel f (suc f) m out (omega arith) (omega arith)
    ∙ emit_step f m out (omega arith)
    ∙ rw (tenth, digit)

-- Reading digits behind a number above 0 and printing the result gives the digits back.
emit-value_from :
    (f n : ℕ) (s out : Text)
    → 0 < n
    → AreDigits s
    → value_from n s ≤ f
    → emit f (value_from n s) out ≡ emit f n (s ++ out)
unfolding value_from
emit-value_from f n [] out h d k = refl
emit-value_from f n (c ∷ s) out h d k =
    emit-value_from f (n * 10 + (c - b'0')) s out (omega arith) d.2 k
    ∙ emit-digit f n c (s ++ out) h d.0 d.1
        (omega (arith, le-value_from (n * 10 + (c - b'0')) s (omega arith)))

emit-single : (f n : ℕ) (out : Text) → 0 < n → n ≤ 9 → emit (suc f) n out ≡ (b'0' + n) ∷ out
unfolding emit
emit-single f n out h k =
    let e : n / 10 ≡ 0 = omega arith in
    let d : n % 10 ≡ n = omega arith in emit_step f n out h ∙ rw (e, d) (emit_zero f _)

decimal_pos : (n : ℕ) → 0 < n → decimal n ≡ emit n n []
unfolding decimal
decimal_pos n h = ground arith

-- A numeral whose first digit is not `0` is the one for its number.
decimal-value_pos :
    (c : ℕ) (s : Text) → b'0' < c → c ≤ b'9' → AreDigits s → decimal (value (c ∷ s)) ≡ c ∷ s
unfolding value_from
decimal-value_pos c s p q d =
    let n = 0 + (c - b'0') in
    let v = value_from n s in
    let big : n ≤ v = le-value_from n s (omega arith) in
    let first : b'0' + n ≡ c = omega arith in
    decimal_pos v (omega arith)
    ∙ emit-value_from v n s [] (omega arith) d (omega arith)
    ∙ emit_fuel v (suc v) n (s ++ []) big (omega arith)
    ∙ emit-single v n (s ++ []) (omega arith) (omega arith)
    ∙ rw (first, append-nil s)

decimal_zero : decimal (value (b'0' ∷ [])) ≡ b'0' ∷ []
unfolding decimal value_from
decimal_zero = refl

-- A numeral is the only one for its number.
pub decimal-value : (s : Text) → IsNumeral s → decimal (value s) ≡ s
decimal-value [] h = elim h [ ]
decimal-value (c ∷ []) h = elim (dec_lt b'0' c) [
  | yes pos ↦ decimal-value_pos c [] pos h.1 tt
  | no zero_digit ↦ let e : c ≡ b'0' = omega arith in rw e decimal_zero
]
decimal-value (c ∷ d ∷ s) h = decimal-value_pos c (d ∷ s) h.0 h.1 h.2
