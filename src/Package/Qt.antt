-- ===== src/Package/Qt.antt =====
-- The conversions between numbers and texts that the package code takes from Qt, which is not part
-- of this repository. The laws are what Qt documents of them.
use linglong.Prelude.{ℕ, ◌^◌, ◌<◌, ◌≡◌, refl, Option, none, some, ltb, if◌then◌else◌}
use linglong.Prelude.Text.{Text}
use linglong.Package.Numeral.{IsNumeral, value, decimal}

-- One more than the greatest `qlonglong`.
abbrev pub qlonglong_limit : ℕ
qlonglong_limit = 2 ^ 63

pub record Qt : Type 0 where
  -- `QString::toLongLong(&ok)`: `none` where `ok` is set to false
  pub to_long_long : Text → Option ℕ
  -- `QString::number` and the replacement that `QString::arg` makes of a number
  pub number : ℕ → Text
  pub to_long_long_numeral :
      (s : Text)
      → IsNumeral s
      → to_long_long s ≡ (if ltb (value s) qlonglong_limit then some (value s) else none)
  pub number_decimal : (n : ℕ) → n < qlonglong_limit → number n ≡ decimal n

-- Functions that have the laws.
abbrev pub plain_qt : Qt
plain_qt = record {
  to_long_long = λ s. if ltb (value s) qlonglong_limit then some (value s) else none;
  number = decimal;
  to_long_long_numeral = λ s h. refl;
  number_decimal = λ n h. refl;
}
