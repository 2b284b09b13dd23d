-- ===== src/Package/Version/Printed.antt =====
-- The characters of the text of a version: digits and dots.
use linglong.Prelude.{ℕ, ◌<◌, ◌≢◌, ◌⊎◌, Option, none, some, [], ◌∷◌, ◌++◌, arith}
use linglong.Prelude.Text.{Text, Lacks, Lacks-append}
use linglong.Package.Numeral.{AreDigits, IsNumeral, decimal, decimal-IsNumeral}
use linglong.Package.Qt.{Qt, qlonglong_limit}
use linglong.Package.Version.{Version, tweak_text, to_string}
use linglong.Package.Version.Parse.{TweakInRange, IsInRange}

-- Neither a digit nor a dot.
abbrev pub IsSeparator : ℕ → Type 0
IsSeparator c = (c ≢ b'.') × ((c < b'0') ⊎ (b'9' < c))

AreDigits-Lacks : (c : ℕ) (s : Text) → IsSeparator c → AreDigits s → Lacks c s
AreDigits-Lacks c [] h d = tt
AreDigits-Lacks c (x ∷ s) h d = (omega arith, AreDigits-Lacks c s h d.2)

IsNumeral-Lacks : (c : ℕ) (s : Text) → IsSeparator c → IsNumeral s → Lacks c s
IsNumeral-Lacks c [] h n = tt
IsNumeral-Lacks c (x ∷ []) h n = (omega arith, tt)
IsNumeral-Lacks c (x ∷ y ∷ s) h n = (omega arith, AreDigits-Lacks c (y ∷ s) h n.2)

number-Lacks : (qt : Qt) (c n : ℕ) → IsSeparator c → n < qlonglong_limit → Lacks c (qt.number n)
number-Lacks qt c n h r =
    rw (qt.number_decimal n r) (IsNumeral-Lacks c (decimal n) h (decimal-IsNumeral n))

tweak_text-Lacks :
    (qt : Qt) (c : ℕ) (t : Option ℕ) → IsSeparator c → TweakInRange t → Lacks c (tweak_text qt t)
unfolding tweak_text
tweak_text-Lacks qt c none h r = tt
tweak_text-Lacks qt c (some t) h r = (omega arith, number-Lacks qt c t h r)

pub to_string-Lacks :
    (qt : Qt) (c : ℕ) (v : Version) → IsSeparator c → IsInRange v → Lacks c (to_string qt v)
unfolding to_string
to_string-Lacks qt c v h r =
    let dot : b'.' ≢ c = omega arith in
    Lacks-append c (qt.number v.major) _ (number-Lacks qt c v.major h r.major) (
      dot,
      Lacks-append c (qt.number v.minor) _ (number-Lacks qt c v.minor h r.minor) (
        dot,
        Lacks-append c (qt.number v.patch) _ (number-Lacks qt c v.patch h r.patch)
            (tweak_text-Lacks qt c v.tweak h r.tweak),
      ),
    )

append-ne-nil : (s : Text) (c : ℕ) (t : Text) → s ++ (c ∷ t) ≢ []
append-ne-nil [] c t e = cc
append-ne-nil (x ∷ s) c t e = cc

pub to_string-ne-nil : (qt : Qt) (v : Version) → to_string qt v ≢ []
unfolding to_string
to_string-ne-nil qt v = append-ne-nil (qt.number v.major) b'.' _
