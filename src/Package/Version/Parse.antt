-- ===== src/Package/Version/Parse.antt =====
-- `Version::parse`: the texts that it accepts and those that `Version::toString` makes.
use linglong.Prelude.{
  ℕ, ◌<◌, ◌≡◌, refl, sym, ap, ◌∙◌, Option, none, some, ◌++◌, arith, ltb, lt→ltb, if◌then◌else◌,
}
use mathlib.Core.Option
use mathlib.Core.Path.{subst}
use linglong.Prelude.Text.{Text}
use linglong.Prelude.Result.{ok, >>=-eq-ok, or_fail-bind}
use linglong.Package.Numeral.{IsNumeral, value, value-decimal, decimal-IsNumeral, decimal-value}
use linglong.Package.Qt.{Qt, qlonglong_limit}
use linglong.Package.VersionPattern.{
  Captures, match_version, dotted, join, AreNumerals, IsTweakNumeral, IsLineEnd, match_version-join,
  match_version_parts,
}
use linglong.Package.Version.{Version, parse_tweak, parse, tweak_text, to_string}

abbrev pub TweakInRange : Option ℕ → Type 0
TweakInRange none = Unit
TweakInRange (some t) = t < qlonglong_limit

-- Every field fits in a `qlonglong`.
pub record IsInRange (v : Version) : Type 0 where
  pub major : v.major < qlonglong_limit
  pub minor : v.minor < qlonglong_limit
  pub patch : v.patch < qlonglong_limit
  pub tweak : TweakInRange v.tweak

range_test :
    (v n limit : ℕ) → (if ltb v limit then some v else none) ≡ some n → (v < limit) × (v ≡ n)
range_test v n limit h = ground arith

module _ (qt : Qt) where
  number-IsNumeral : (n : ℕ) → n < qlonglong_limit → IsNumeral (qt.number n)
  number-IsNumeral n h = rw (qt.number_decimal n h) (decimal-IsNumeral n)

  to_long_long-number : (n : ℕ) → n < qlonglong_limit → qt.to_long_long (qt.number n) ≡ some n
  to_long_long-number n h =
      qt.to_long_long_numeral (qt.number n) (number-IsNumeral n h)
      ∙ rw (qt.number_decimal n h, value-decimal n, lt→ltb n qlonglong_limit h)

  -- A numeral that converts is the one that is printed for its number.
  number-to_long_long :
      (s : Text) (n : ℕ)
      → IsNumeral s
      → qt.to_long_long s ≡ some n
      → (n < qlonglong_limit) × (qt.number n ≡ s)
  number-to_long_long s n h e =
      let (fits, same) =
        range_test (value s) n qlonglong_limit (sym (qt.to_long_long_numeral s h) ∙ e) in
      let small : n < qlonglong_limit = omega arith in
      (small, qt.number_decimal n small ∙ rw (← same) (decimal-value s h))

  captures : Version → Captures
  captures v = record {
    first = qt.number v.major;
    second = qt.number v.minor;
    third = qt.number v.patch;
    fourth = Option.map qt.number v.tweak;
  }

  tweak_text-dotted : (t : Option ℕ) → tweak_text qt t ≡ dotted (Option.map qt.number t)
  unfolding tweak_text dotted Option.map
  tweak_text-dotted none = refl
  tweak_text-dotted (some t) = refl

  to_string-join : (v : Version) → to_string qt v ≡ join (captures v)
  unfolding to_string captures
  to_string-join v = rw (tweak_text-dotted v.tweak)

  IsTweakNumeral-number : (t : Option ℕ) → TweakInRange t → IsTweakNumeral (Option.map qt.number t)
  unfolding Option.map
  IsTweakNumeral-number none h = tt
  IsTweakNumeral-number (some t) h = number-IsNumeral t h

  parse_tweak-number :
      (t : Option ℕ) → TweakInRange t → parse_tweak qt (Option.map qt.number t) ≡ ok t
  unfolding parse_tweak Option.map
  parse_tweak-number none h = refl
  parse_tweak-number (some t) h = rw (to_long_long-number t h)

  match_version-to_string :
      (v : Version) → IsInRange v → match_version (to_string qt v) ≡ some (captures v)
  match_version-to_string v r = rw to_string-join (
      match_version-join (captures v) (
        unfold captures in
        (
          number-IsNumeral v.major r.major,
          number-IsNumeral v.minor r.minor,
          number-IsNumeral v.patch r.patch,
          IsTweakNumeral-number v.tweak r.tweak,
        )))

  -- Parsing the text of a version whose fields fit in a `qlonglong` gives the version back.
  pub parse-to_string_version : (v : Version) → IsInRange v → parse qt (to_string qt v) ≡ ok v
  unfolding parse captures
  parse-to_string_version v r = simp (
    match_version-to_string v r,
    to_long_long-number v.major r.major,
    to_long_long-number v.minor r.minor,
    to_long_long-number v.patch r.patch,
    parse_tweak-number v.tweak r.tweak,
  )

  tweak_parts :
      (o : Option Text) (t : Option ℕ)
      → IsTweakNumeral o
      → parse_tweak qt o ≡ ok t
      → TweakInRange t × (tweak_text qt t ≡ dotted o)
  unfolding parse_tweak tweak_text dotted
  tweak_parts none none h e = (tt, refl)
  tweak_parts none (some t) h e = cc
  tweak_parts (some s) none h e =
      let (n, _, k) = or_fail-bind (qt.to_long_long s) "tweak too large" _ e in cc k
  tweak_parts (some s) (some t) h e =
      let (n, e', k) = or_fail-bind (qt.to_long_long s) "tweak too large" _ e in
      let en : n ≡ t = cc k in
      let (small, same) = number-to_long_long s t h (e' ∙ ap some en) in (small, rw same)

  -- A version whose fields were read from the groups of a match is printed as the match.
  converted :
      (m : Captures) (v : Version)
      → AreNumerals m
      → qt.to_long_long m.first ≡ some v.major
      → qt.to_long_long m.second ≡ some v.minor
      → qt.to_long_long m.third ≡ some v.patch
      → parse_tweak qt m.fourth ≡ ok v.tweak
      → IsInRange v × (to_string qt v ≡ join m)
  unfolding to_string
  converted m v (na, nb, nc, nd) ea eb ec et =
      let (ra, sa) = number-to_long_long m.first v.major na ea in
      let (rb, sb) = number-to_long_long m.second v.minor nb eb in
      let (rc, sc) = number-to_long_long m.third v.patch nc ec in
      let (rd, sd) = tweak_parts m.fourth v.tweak nd et in
      (record { major = ra; minor = rb; patch = rc; tweak = rd }, rw (sa, sb, sc, sd))

  parse_converted :
      (raw : Text) (v : Version)
      → parse qt raw ≡ ok v
      → (m : Captures) × (match_version raw ≡ some m) × (IsInRange v × (to_string qt v ≡ join m))
  unfolding parse
  parse_converted raw v h =
      let (m, e, k) = or_fail-bind (match_version raw) _ _ h in
      let (a, ea, ka) = or_fail-bind (qt.to_long_long m.first) _ _ k in
      let (b, eb, kb) = or_fail-bind (qt.to_long_long m.second) _ _ ka in
      let (c, ec, kc) = or_fail-bind (qt.to_long_long m.third) _ _ kb in
      let (t, et, kt) = >>=-eq-ok (parse_tweak qt m.fourth) _ kc in
      let w : Version = record { major = a; minor = b; patch = c; tweak = t } in
      let ew : w ≡ v = cc kt in
      let (n, _) = match_version_parts raw m e in
      (m, e, subst (λ v. IsInRange v × (to_string qt v ≡ join m)) ew (converted m w n ea eb ec et))

  -- A text that is accepted is that of the version, up to one line feed, and the version fits in
  -- `qlonglong`s.
  pub parse_parts :
      (raw : Text) (v : Version)
      → parse qt raw ≡ ok v
      → IsInRange v × ((end : Text) × IsLineEnd end × (raw ≡ to_string qt v ++ end))
  parse_parts raw v h =
      let (m, e, (range, same)) = parse_converted raw v h in
      let (_, (end, ends, shape)) = match_version_parts raw m e in
      (range, (end, ends, shape ∙ ap (λ s. s ++ end) (sym same)))
