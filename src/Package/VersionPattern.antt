-- ===== src/Package/VersionPattern.antt =====
-- The regular expression of package/version.cpp, and the texts that it matches.
use linglong.Prelude.{
  ℕ, ◌≡◌, refl, ◌∙◌, true, ◌⊎◌, inl, inr, Option, none, some, [], ◌∷◌, ◌++◌, append_assoc,
  append-nil, arith, if◌then◌else◌, Option-cases,
}
use mathlib.Core.Path.{subst}
use linglong.Prelude.Text.{Text}
use linglong.Prelude.Partial.{◌>>=◌, >>=-eq-some}
use linglong.Package.Numeral.{IsNumeral}
use linglong.Package.Pattern.{
  StartsNoDigit, scan_numeral, expect, at_end, scan_numeral-append, scan_numeral_parts,
}

-- The groups of a match; `none` for a fourth one that took no part.
pub record Captures : Type 0 where
  pub first : Text
  pub second : Text
  pub third : Text
  pub fourth : Option Text

-- `(0|[1-9]\d*)\.`
scan_dotted : Text → Option (Text × Text)
scan_dotted s = do (ds, rest) ← scan_numeral s; rest' ← expect b'.' rest; some (ds, rest')

-- `\.(0|[1-9]\d*)$`
scan_last : Text → Option Text
scan_last s = do
  r ← expect b'.' s
  (ds, rest) ← scan_numeral r
  if at_end rest then some ds else none

-- `(?:\.(0|[1-9]\d*))?$`
scan_tweak : Text → Option (Option Text)
unfolding scan_last
scan_tweak s = elim (scan_last s) [
  | some ds ↦ some (some ds)
  | none ↦ if at_end s then some none else none
]

-- `^(0|[1-9]\d*)\.(0|[1-9]\d*)\.(0|[1-9]\d*)(?:\.(0|[1-9]\d*))?$`
unfoldable pub match_version : Text → Option Captures
unfolding scan_dotted scan_tweak
match_version raw = do
  (a, r₁) ← scan_dotted raw
  (b, r₂) ← scan_dotted r₁
  (c, r₃) ← scan_numeral r₂
  d ← scan_tweak r₃
  some (record { first = a; second = b; third = c; fourth = d })

scan_dotted-append :
    (s rest : Text) → IsNumeral s → scan_dotted (s ++ (b'.' ∷ rest)) ≡ some (s, rest)
unfolding scan_dotted expect
scan_dotted-append s rest h = ground (arith, scan_numeral-append s (b'.' ∷ rest) h refl)

unfoldable pub dotted : Option Text → Text
dotted none = []
dotted (some d) = b'.' ∷ d

abbrev pub IsTweakNumeral : Option Text → Type 0
IsTweakNumeral none = Unit
IsTweakNumeral (some d) = IsNumeral d

scan_numeral_whole : (s : Text) → IsNumeral s → scan_numeral s ≡ some (s, [])
scan_numeral_whole s h = rw append-nil at (scan_numeral-append s [] h tt)

scan_tweak-dotted : (d : Option Text) → IsTweakNumeral d → scan_tweak (dotted d) ≡ some d
unfolding scan_tweak scan_last dotted at_end expect
scan_tweak-dotted none h = refl
scan_tweak-dotted (some d) h = ground (arith, scan_numeral_whole d h)

abbrev pub join : Captures → Text
join m = m.first ++ (b'.' ∷ (m.second ++ (b'.' ∷ (m.third ++ dotted m.fourth))))

abbrev pub AreNumerals : Captures → Type 0
AreNumerals m = IsNumeral m.first × IsNumeral m.second × IsNumeral m.third × IsTweakNumeral m.fourth

StartsNoDigit-dotted : (d : Option Text) → StartsNoDigit (dotted d)
unfolding dotted
StartsNoDigit-dotted none = tt
StartsNoDigit-dotted (some d) = refl

pub match_version-join : (m : Captures) → AreNumerals m → match_version (join m) ≡ some m
unfolding match_version
match_version-join m (a, b, c, d) = ground (
  arith,
  scan_dotted-append m.first (m.second ++ (b'.' ∷ (m.third ++ dotted m.fourth))) a,
  scan_dotted-append m.second (m.third ++ dotted m.fourth) b,
  scan_numeral-append m.third (dotted m.fourth) c (StartsNoDigit-dotted m.fourth),
  scan_tweak-dotted m.fourth d,
)

-- The end of a text, with or without one line feed.
abbrev pub IsLineEnd : Text → Type 0
IsLineEnd t = (t ≡ []) ⊎ (t ≡ b'\n' ∷ [])

at_end-IsLineEnd : (s : Text) → at_end s ≡ true → IsLineEnd s
unfolding at_end
at_end-IsLineEnd [] h = inl refl
at_end-IsLineEnd (c ∷ []) h = ground arith
at_end-IsLineEnd (c ∷ d ∷ s) h = cc

expect_parts : (c : ℕ) (s rest : Text) → expect c s ≡ some rest → s ≡ c ∷ rest
unfolding expect
expect_parts c [] rest h = cc
expect_parts c (d ∷ s) rest h = ground arith

-- A pair that a scan returns, as the parts that it was put together from.
pair_first {ℓ} :
    {A B : Type ℓ} (a c : A) (b d : B)
    → ◌≡◌ {A = Option (A × B)} (some (a, b)) (some (c, d))
    → (a ≡ c) × (b ≡ d)
pair_first a c b d h = (cc, cc)

scan_dotted_parts :
    (s ds rest : Text) → scan_dotted s ≡ some (ds, rest) → IsNumeral ds × (s ≡ ds ++ (b'.' ∷ rest))
unfolding scan_dotted
scan_dotted_parts s ds rest h =
    let ((a, r), e, k) = >>=-eq-some (scan_numeral s) _ h in
    let (r', e', k') = >>=-eq-some (expect b'.' r) _ k in
    let (n, split) = scan_numeral_parts s a r e in
    let (ea, er) = pair_first a ds r' rest k' in
    (subst IsNumeral ea n, split ∙ rw (expect_parts b'.' r r' e', ea, er))

scan_last_parts :
    (s ds : Text)
    → scan_last s ≡ some ds
    → IsNumeral ds × ((end : Text) × IsLineEnd end × (s ≡ b'.' ∷ (ds ++ end)))
unfolding scan_last
scan_last_parts s ds h =
    let (r, e, k) = >>=-eq-some (expect b'.' s) _ h in
    let ((a, end), e', k') = >>=-eq-some (scan_numeral r) _ k in
    let (n, split) = scan_numeral_parts r a end e' in
    let ends : at_end end ≡ true = ground arith in
    let ea : a ≡ ds = ground arith in
    (
      subst IsNumeral ea n,
      (end, at_end-IsLineEnd end ends, rw (expect_parts b'.' s r e, split, ea)),
    )

scan_tweak_parts :
    (s : Text) (d : Option Text)
    → scan_tweak s ≡ some d
    → IsTweakNumeral d × ((end : Text) × IsLineEnd end × (s ≡ dotted d ++ end))
unfolding scan_tweak dotted
scan_tweak_parts s d h = elim (Option-cases (scan_last s)) [
  | inl e ↦
      let ends : at_end s ≡ true = ground arith in
      let ed : none ≡ d = ground arith in
      subst (λ d. IsTweakNumeral d × ((end : Text) × IsLineEnd end × (s ≡ dotted d ++ end))) ed
        (tt, (s, at_end-IsLineEnd s ends, refl))
  | inr (ds, e) ↦
      let ed : some ds ≡ d = ground arith in
      subst (λ d. IsTweakNumeral d × ((end : Text) × IsLineEnd end × (s ≡ dotted d ++ end))) ed
        (scan_last_parts s ds e)
]

join_parts :
    (m : Captures) (end : Text) {raw r₁ r₂ r₃ : Text}
    → raw ≡ m.first ++ (b'.' ∷ r₁)
    → r₁ ≡ m.second ++ (b'.' ∷ r₂)
    → r₂ ≡ m.third ++ r₃
    → r₃ ≡ dotted m.fourth ++ end
    → raw ≡ join m ++ end
join_parts m end p q r s = p ∙ rw (q, r, s) (simp append_assoc)

-- A text that the pattern matches is made of its captures, and at most one line feed behind them.
pub match_version_parts :
    (raw : Text) (m : Captures)
    → match_version raw ≡ some m
    → AreNumerals m × ((end : Text) × IsLineEnd end × (raw ≡ join m ++ end))
unfolding match_version
match_version_parts raw m h =
    let ((a, r₁), e₁, k₁) = >>=-eq-some (scan_dotted raw) _ h in
    let ((b, r₂), e₂, k₂) = >>=-eq-some (scan_dotted r₁) _ k₁ in
    let ((c, r₃), e₃, k₃) = >>=-eq-some (scan_numeral r₂) _ k₂ in
    let (d, e₄, k₄) = >>=-eq-some (scan_tweak r₃) _ k₃ in
    let (na, sa) = scan_dotted_parts raw a r₁ e₁ in
    let (nb, sb) = scan_dotted_parts r₁ b r₂ e₂ in
    let (nc, sc) = scan_numeral_parts r₂ c r₃ e₃ in
    let (nd, (end, ends, sd)) = scan_tweak_parts r₃ d e₄ in
    let n : Captures = record { first = a; second = b; third = c; fourth = d } in
    let em : n ≡ m = cc k₄ in
    subst (λ m. AreNumerals m × ((end : Text) × IsLineEnd end × (raw ≡ join m ++ end))) em
      ((na, nb, nc, nd), (end, ends, join_parts n end sa sb sc sd))
