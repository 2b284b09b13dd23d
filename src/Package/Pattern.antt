-- ===== src/Package/Pattern.antt =====
-- The pieces of the regular expressions of package/*.cpp. Each expression is matched the way that
-- `QRegularExpression` matches it: a class takes as much as it can, and where that fails the
-- classes here leave nothing that a shorter choice could match.
use linglong.Prelude.{
  ℕ, ◌≡◌, ◌≢◌, refl, Bool, true, false, Option, none, some, [], ◌∷◌, ◌++◌, arith, ◌==◌,
  if◌then◌else◌, Bool-cases, Option-cases, inl, inr, ◌∙◌,
}
use mathlib.Core.Path.{subst}
use linglong.Prelude.Text.{Text, Lacks, is_empty, ne_of_is_empty}
use linglong.Package.Numeral.{is_digit, AreDigits, IsNumeral, IsNumeral-cons}

-- `\d*`: the digits at the front, and what follows them.
unfoldable pub span_digits : Text → Text × Text
span_digits [] = ([], [])
span_digits (c ∷ s) =
    let (ds, rest) = span_digits s in if is_digit c then (c ∷ ds, rest) else ([], c ∷ s)

-- `(0|[1-9]\d*)`
unfoldable pub scan_numeral : Text → Option (Text × Text)
scan_numeral [] = none
scan_numeral (c ∷ s) =
    let (ds, rest) = span_digits s in
    if c == b'0' then some (b'0' ∷ [], s) else if is_digit c then some (c ∷ ds, rest) else none

-- A single character.
unfoldable pub expect : ℕ → Text → Option Text
expect c [] = none
expect c (d ∷ s) = if d == c then some s else none

-- `$`: at the end, or before a line feed at the end.
unfoldable pub at_end : Text → Bool
at_end [] = true
at_end (c ∷ []) = c == b'\n'
at_end (c ∷ d ∷ s) = false

-- `[^c]*`: what stands before the first `c`, and the rest from that `c` on.
unfoldable pub span_until : ℕ → Text → Text × Text
span_until c [] = ([], [])
span_until c (d ∷ s) =
    let (ds, rest) = span_until c s in if d == c then ([], d ∷ s) else (d ∷ ds, rest)

-- What follows a numeral in a matched text is no digit.
abbrev pub StartsNoDigit : Text → Type 0
StartsNoDigit [] = Unit
StartsNoDigit (c ∷ s) = is_digit c ≡ false

pub span_digits-append :
    (ds rest : Text) → AreDigits ds → StartsNoDigit rest → span_digits (ds ++ rest) ≡ (ds, rest)
unfolding span_digits
span_digits-append [] [] h k = refl
span_digits-append [] (c ∷ rest) h k = ground arith
span_digits-append (d ∷ ds) rest h k = ground (arith, span_digits-append ds rest h.2 k)

pub scan_numeral-append :
    (s rest : Text) → IsNumeral s → StartsNoDigit rest → scan_numeral (s ++ rest) ≡ some (s, rest)
unfolding scan_numeral
scan_numeral-append [] rest h k = elim h [ ]
scan_numeral-append (c ∷ []) rest h k = ground (arith, span_digits-append [] rest tt k)
scan_numeral-append (c ∷ d ∷ s) rest h k = ground (arith, span_digits-append (d ∷ s) rest h.2 k)

-- The two parts are digits and the text.
abbrev Splits : Text → Text × Text → Type 0
Splits s p = AreDigits p.0 × (s ≡ p.0 ++ p.1)

span_digits_parts : (s : Text) → Splits s (span_digits s)
unfolding span_digits
span_digits_parts [] = (tt, refl)
span_digits_parts (c ∷ s) = ground (arith, span_digits_parts s)

IsNumeral-split :
    {s : Text} (a b ds rest : Text)
    → IsNumeral a
    → s ≡ a ++ b
    → ◌≡◌ {A = Option (Text × Text)} (some (a, b)) (some (ds, rest))
    → IsNumeral ds × (s ≡ ds ++ rest)
IsNumeral-split a b ds rest n e h =
    let ea : a ≡ ds = ground arith in
    let eb : b ≡ rest = ground arith in (subst IsNumeral ea n, rw (← ea, ← eb) e)

pub scan_numeral_parts :
    (s ds rest : Text) → scan_numeral s ≡ some (ds, rest) → IsNumeral ds × (s ≡ ds ++ rest)
unfolding scan_numeral
scan_numeral_parts [] ds rest h = cc
scan_numeral_parts (c ∷ s) ds rest h = elim (Bool-cases (c == b'0')) [
  | inl zero_digit ↦
      IsNumeral-split (b'0' ∷ []) s ds rest (omega arith) (ground arith) (ground arith)
  | inr other ↦
      let p = span_digits_parts s in
      IsNumeral-split (c ∷ (span_digits s).0) (span_digits s).1 ds rest
        (IsNumeral-cons c (span_digits s).0 (ground arith) (ground arith) p.0) (ground (arith, p))
        (ground arith)
]

pub span_until-append :
    (c : ℕ) (s rest : Text) → Lacks c s → span_until c (s ++ c ∷ rest) ≡ (s, c ∷ rest)
unfolding span_until
span_until-append c [] rest h = ground arith
span_until-append c (d ∷ s) rest h = ground (arith, span_until-append c s rest h.1)

pub span_until_all : (c : ℕ) (s : Text) → Lacks c s → span_until c s ≡ (s, [])
unfolding span_until
span_until_all c [] h = refl
span_until_all c (d ∷ s) h = ground (arith, span_until_all c s h.1)

-- `[^c]+`
unfoldable pub span_some : ℕ → Text → Option (Text × Text)
unfolding span_until is_empty
span_some c s = let (ds, rest) = span_until c s in if is_empty ds then none else some (ds, rest)

-- A pattern with no `^` matches at the first place where it can.
unfoldable pub search {ℓ} : {A : Type ℓ} → (Text → Option A) → Text → Option A
search at [] = at []
search at (c ∷ s) = let later = search at s in elim (at (c ∷ s)) [ some a ↦ some a | none ↦ later ]

pub expect_self : (c : ℕ) (s : Text) → expect c (c ∷ s) ≡ some s
unfolding expect
expect_self c s = ground arith

pub span_some-append :
    (c : ℕ) (s rest : Text) → Lacks c s → s ≢ [] → span_some c (s ++ c ∷ rest) ≡ some (s, c ∷ rest)
unfolding span_some
span_some-append c [] rest h k = absurd (k refl)
span_some-append c (d ∷ s) rest h k = ground (arith, span_until-append c (d ∷ s) rest h)

pub span_some_all : (c : ℕ) (s : Text) → Lacks c s → s ≢ [] → span_some c s ≡ some (s, [])
unfolding span_some
span_some_all c [] h k = absurd (k refl)
span_some_all c (d ∷ s) h k = ground (arith, span_until_all c (d ∷ s) h)

pub search_here {ℓ} :
    {A : Type ℓ} (at : Text → Option A) (s : Text) (a : A) → at s ≡ some a → search at s ≡ some a
unfolding search
search_here at [] a h = h
search_here at (c ∷ s) a h = rw (h, search)

pub span_until-Lacks : (c : ℕ) (s : Text) → Lacks c (span_until c s).0
unfolding span_until
span_until-Lacks c [] = tt
span_until-Lacks c (d ∷ s) = elim (Bool-cases (d == c)) [
  | inl hit ↦ rw (hit, span_until) tt
  | inr miss ↦ rw (miss, span_until) (ground arith, span_until-Lacks c s)
]

pub span_some_parts :
    (c : ℕ) (s a rest : Text) → span_some c s ≡ some (a, rest) → Lacks c a × (a ≢ [])
unfolding span_some
span_some_parts c s a rest h =
    let full : is_empty (span_until c s).0 ≡ false = ground arith in
    let same : (span_until c s).0 ≡ a = ground arith in
    (subst (Lacks c) same (span_until-Lacks c s), ne_of_is_empty a (rw same at full))

-- What is found stands at one of the places.
pub search_found {ℓ} :
    {A : Type ℓ} (at : Text → Option A) (s : Text) (a : A)
    → search at s ≡ some a
    → (t : Text) × (at t ≡ some a)
unfolding search
search_found at [] a h = ([], h)
search_found at (c ∷ s) a h = elim (Option-cases (at (c ∷ s))) [
  | inl e ↦ search_found at s a (rw (e, search) at h)
  | inr (b, e) ↦ (c ∷ s, e ∙ (rw (e, search) at h))
]
