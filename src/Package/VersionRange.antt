-- ===== src/Package/VersionRange.antt =====
-- package/version_range.{h,cpp}: half-open ranges of versions.
pub mod Contains
pub mod RoundTrip
use linglong.Prelude.{Bool, ◌&&◌, Option, none, some, [], ◌∷◌, ◌++◌}
use linglong.Prelude.Text.{Text}
use linglong.Prelude.Result.{Result, ok, ◌>>=◌}
use linglong.Prelude.Partial
use linglong.Package.Qt.{Qt}
use linglong.Package.Pattern.{expect, span_some, search}
use linglong.Package.Version
use linglong.Package.Version.{Version}

pub record VersionRange : Type 0 where
  pub begin : Version
  pub end : Version

-- `\[([^,]+),([^\)]+)\)` at one place; the same chain of steps as `do` in `Option`
unfoldable pub match_range_at : Text → Option (Text × Text)
match_range_at s = Partial.◌>>=◌ (expect b'[' s) λ r₁. Partial.◌>>=◌ (span_some b',' r₁) λ p.
    Partial.◌>>=◌ (expect b',' p.1) λ r₂.
      Partial.◌>>=◌ (span_some b')' r₂) λ q. Partial.◌>>=◌ (expect b')' q.1) λ r₃. some (p.0, q.0)

-- Where nothing matches both groups are null, and read as empty texts.
unfoldable pub captured_bounds : Text → Text × Text
unfolding match_range_at
captured_bounds raw = elim (search match_range_at raw) [ none ↦ ([], []) | some p ↦ p ]

-- `VersionRange::VersionRange(raw)`; `VersionRange::parse` turns what it throws into an error.
unfoldable pub parse : Qt → Text → Result VersionRange
parse qt raw = do
  let bounds = captured_bounds raw
  begin ← Version.parse qt bounds.0
  end ← Version.parse qt bounds.1
  ok (record { begin = begin; end = end })

unfoldable pub to_string : Qt → VersionRange → Text
to_string qt r =
    b'[' ∷ (Version.to_string qt r.begin ++ (b',' ∷ (Version.to_string qt r.end ++ (b')' ∷ []))))

unfoldable pub contains : VersionRange → Version → Bool
contains r ver = Version.le r.begin ver && Version.lt ver r.end
