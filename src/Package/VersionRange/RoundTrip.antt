-- ===== src/Package/VersionRange/RoundTrip.antt =====
-- `VersionRange::parse` on the texts that `VersionRange::toString` makes.
use linglong.Prelude.{◌≡◌, ◌≢◌, some, [], ◌∷◌, ◌++◌, arith}
use linglong.Prelude.Text.{Text, Lacks}
use linglong.Prelude.Result.{ok}
use linglong.Package.Qt.{Qt}
use linglong.Package.Pattern.{expect_self, span_some-append, search_here}
use linglong.Package.Version
use linglong.Package.Version.{Version}
use linglong.Package.Version.Parse.{IsInRange, parse-to_string_version}
use linglong.Package.Version.Printed.{to_string-Lacks, to_string-ne-nil}
use linglong.Package.VersionRange.{VersionRange, match_range_at, captured_bounds, parse, to_string}

match_range_at-bounds :
    (a b : Text)
    → Lacks b',' a
    → a ≢ []
    → Lacks b')' b
    → b ≢ []
    → match_range_at (b'[' ∷ (a ++ (b',' ∷ (b ++ (b')' ∷ []))))) ≡ some (a, b)
unfolding match_range_at
match_range_at-bounds a b la na lb nb = simp (
  expect_self,
  span_some-append b',' a (b ++ (b')' ∷ [])) la na,
  span_some-append b')' b [] lb nb,
)

captured_bounds-to_string :
    (qt : Qt) (r : VersionRange)
    → IsInRange r.begin
    → IsInRange r.end
    → captured_bounds (to_string qt r) ≡ (Version.to_string qt r.begin, Version.to_string qt r.end)
unfolding captured_bounds to_string
captured_bounds-to_string qt r hb he =
    let comma = to_string-Lacks qt b',' r.begin (omega arith) hb in
    let paren = to_string-Lacks qt b')' r.end (omega arith) he in
    rw (
      search_here match_range_at _ _ (
          match_range_at-bounds (Version.to_string qt r.begin) (Version.to_string qt r.end) comma
            (to_string-ne-nil qt r.begin) paren (to_string-ne-nil qt r.end)),
      captured_bounds,
    )

-- Parsing the text of a range whose bounds fit in `qlonglong`s gives the range back.
pub parse-to_string_range :
    (qt : Qt) (r : VersionRange)
    → IsInRange r.begin
    → IsInRange r.end
    → parse qt (to_string qt r) ≡ ok r
unfolding parse
parse-to_string_range qt r hb he = simp (
  captured_bounds-to_string qt r hb he,
  parse-to_string_version qt r.begin hb,
  parse-to_string_version qt r.end he,
)
