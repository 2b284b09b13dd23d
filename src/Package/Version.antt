-- ===== src/Package/Version.antt =====
-- package/version.{h,cpp}: versions of three or four numbers. The fields are never negative: the
-- pattern admits no sign, and no code assigns a field but `tweak`. `PreRelease`, which nothing
-- uses, is left out.
pub mod Parse
pub mod Printed
pub mod Order
use linglong.Prelude.{
  ℕ, Bool, xor, true, false, not, ◌&&◌, ◌||◌, Option, none, some, [], ◌∷◌, ◌++◌, ltb, ◌==◌,
  if◌then◌else◌,
}
use linglong.Prelude.Text.{Text}
use linglong.Prelude.Result.{Result, ok, err, ◌>>=◌, or_fail}
use linglong.Package.Qt.{Qt}
use linglong.Package.VersionPattern.{match_version}

pub record Version : Type 0 where
  pub major : ℕ
  pub minor : ℕ
  pub patch : ℕ
  pub tweak : Option ℕ

unfoldable pub parse_tweak : Qt → Option Text → Result (Option ℕ)
parse_tweak qt none = ok none
parse_tweak qt (some s) = do n ← or_fail (qt.to_long_long s) "tweak too large"; ok (some n)

-- `Version::Version(raw)`; `Version::parse` turns what it throws into an error.
unfoldable pub parse : Qt → Text → Result Version
unfolding parse_tweak
parse qt raw = do
  m ←
      or_fail (match_version raw)
        "version regex mismatched, please use four digits version like 1.0.0.0"
  major ← or_fail (qt.to_long_long m.first) "major too large"
  minor ← or_fail (qt.to_long_long m.second) "minor too large"
  patch ← or_fail (qt.to_long_long m.third) "patch too large"
  tweak ← parse_tweak qt m.fourth
  ok (record { major = major; minor = minor; patch = patch; tweak = tweak })

unfoldable pub tweak_text : Qt → Option ℕ → Text
tweak_text qt none = []
tweak_text qt (some t) = b'.' ∷ qt.number t

unfoldable pub to_string : Qt → Version → Text
unfolding tweak_text
to_string qt v =
    qt.number v.major
    ++ (b'.' ∷ (qt.number v.minor ++ (b'.' ∷ (qt.number v.patch ++ tweak_text qt v.tweak))))

-- `tweak.value_or(0)`
unfoldable pub tweak_or_zero : Version → ℕ
tweak_or_zero v = elim v.tweak [ none ↦ 0 | some t ↦ t ]

-- `tweak.has_value()`
unfoldable pub has_tweak : Version → Bool
has_tweak v = elim v.tweak [ none ↦ false | some t ↦ true ]

-- `operator==`
unfoldable pub eq : Version → Version → Bool
unfolding tweak_or_zero has_tweak
eq a b =
    if xor (has_tweak a) (has_tweak b)
    then false
    else a.major == b.major
      && (a.minor == b.minor && (a.patch == b.patch && tweak_or_zero a == tweak_or_zero b))

-- `operator!=`
unfoldable pub ne : Version → Version → Bool
unfolding eq
ne a b = not (eq a b)

-- `operator<`: that of two tuples of four numbers
unfoldable pub lt : Version → Version → Bool
unfolding tweak_or_zero
lt a b =
    if ltb a.major b.major
    then true
    else if ltb b.major a.major
    then false
    else if ltb a.minor b.minor
    then true
    else if ltb b.minor a.minor
    then false
    else if ltb a.patch b.patch
    then true
    else if ltb b.patch a.patch
    then false
    else ltb (tweak_or_zero a) (tweak_or_zero b)

-- `operator>`
unfoldable pub gt : Version → Version → Bool
unfolding lt
gt a b = lt b a

-- `operator<=`
unfoldable pub le : Version → Version → Bool
unfolding eq lt
le a b = eq a b || lt a b

-- `operator>=`
unfoldable pub ge : Version → Version → Bool
unfolding eq gt
ge a b = eq a b || gt a b
