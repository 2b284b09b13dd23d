-- ===== src/Scenarios/Versions.antt =====
-- Versions, version ranges and architectures at concrete inputs.
use linglong.Prelude.{◌≡◌, refl, ◌⊎◌, true, false, some, ◌++◌}
use linglong.Prelude.Text.{Text, codes}
use linglong.Prelude.Result.{ok}
use linglong.Package.Qt.{plain_qt}
use linglong.Package.VersionPattern.{IsLineEnd}
use linglong.Package.Version
use linglong.Package.Version.{Version}
use linglong.Package.Version.Parse.{IsInRange, parse-to_string_version, parse_parts}
use linglong.Package.Version.Order.{lt_trichotomy, order_gap}
use linglong.Package.VersionRange
use linglong.Package.VersionRange.{VersionRange}
use linglong.Package.VersionRange.RoundTrip.{parse-to_string_range}
use linglong.Scenarios.Data.{v1234, v123, v2000, v1234-IsInRange, v2000-IsInRange}

to_string_test : Version.to_string plain_qt v1234 ≡ codes "1.2.3.4"
unfolding Version.to_string linglong.Package.Numeral.decimal
to_string_test = refl

parse-to_string_version_example :
    Version.parse plain_qt (Version.to_string plain_qt v1234) ≡ ok v1234
parse-to_string_version_example = parse-to_string_version plain_qt v1234 v1234-IsInRange

parse_parts_example :
    IsInRange v1234
    × ((end : Text) × IsLineEnd end
        × (Version.to_string plain_qt v1234 ≡ Version.to_string plain_qt v1234 ++ end))
parse_parts_example =
    parse_parts plain_qt (Version.to_string plain_qt v1234) v1234
      (parse-to_string_version plain_qt v1234 v1234-IsInRange)

lt_trichotomy_example :
    ((Version.lt v1234 v2000 ≡ true)
      × (Version.eq v1234 v2000 ≡ false)
      × (Version.gt v1234 v2000 ≡ false))
    ⊎ ((Version.lt v1234 v2000 ≡ false)
        × (Version.eq v1234 v2000 ≡ true)
        × (Version.gt v1234 v2000 ≡ false))
    ⊎ ((Version.lt v1234 v2000 ≡ false)
        × (Version.eq v1234 v2000 ≡ false)
        × (Version.gt v1234 v2000 ≡ true))
unfolding Version.has_tweak
lt_trichotomy_example = lt_trichotomy v1234 v2000 refl

abbrev v1230 : Version
v1230 = record { major = 1; minor = 2; patch = 3; tweak = some 0 }

order_gap_example :
    (Version.ne v123 v1230 ≡ true)
    × (Version.lt v123 v1230 ≡ false)
    × (Version.gt v123 v1230 ≡ false)
    × (Version.le v123 v1230 ≡ false)
    × (Version.ge v123 v1230 ≡ false)
unfolding Version.has_tweak Version.tweak_or_zero
order_gap_example = order_gap v123 v1230 (λ e. cc e) refl refl refl refl

abbrev range : VersionRange
range = record { begin = v1234; end = v2000 }

parse-to_string_range_example :
    VersionRange.parse plain_qt (VersionRange.to_string plain_qt range) ≡ ok range
parse-to_string_range_example = parse-to_string_range plain_qt range v1234-IsInRange v2000-IsInRange

abbrev v1235 : Version
v1235 = record { major = 1; minor = 2; patch = 3; tweak = some 5 }

abbrev v1300 : Version
v1300 = record { major = 1; minor = 3; patch = 0; tweak = some 0 }
