-- ===== src/Package/Reference/Accepts.antt =====
-- What `Reference::parse` accepts.
use linglong.Prelude.{◌≡◌, ◌≢◌, some, [], ◌∷◌, ◌++◌, append_assoc, arith}
use mathlib.Core.Path.{subst}
use linglong.Prelude.Text.{Text, Lacks}
use linglong.Prelude.Result.{ok, >>=-eq-ok, or_fail-bind}
use linglong.Prelude.Partial.{>>=-eq-some}
use linglong.Package.Qt.{Qt}
use linglong.Package.Pattern.{
  expect, expect_self, span_some, span_some-append, span_some_parts, search, search_here,
  search_found,
}
use linglong.Package.Version
use linglong.Package.Version.{Version}
use linglong.Package.Version.Parse.{parse_parts, parse-to_string_version}
use linglong.Package.Version.Printed.{to_string-Lacks, to_string-ne-nil}
use linglong.Package.Architecture
use linglong.Package.Architecture.{Architecture, parse-sound_arch, parse-to_string_arch}
use linglong.Package.Reference.{Reference, Groups, match_reference_at, create, parse, to_string}
use linglong.Package.Reference.RoundTrip.{
  IsWellFormed, arch-Lacks, arch-ne-nil, create_fits, parse-to_string_reference,
}

record GroupsFit (g : Groups) : Type 0 where
  channel_some : g.channel ≢ []
  channel_whole : Lacks b':' g.channel
  id_some : g.id ≢ []
  id_whole : Lacks b'/' g.id

match_reference_at-GroupsFit : (s : Text) (g : Groups) → match_reference_at s ≡ some g → GroupsFit g
unfolding match_reference_at
match_reference_at-GroupsFit s g h =
    let ((c, x₁), e₁, k₁) = >>=-eq-some (span_some b':' s) _ h in
    let (r₁, e₂, k₂) = >>=-eq-some (expect b':' x₁) _ k₁ in
    let ((i, x₂), e₃, k₃) = >>=-eq-some (span_some b'/' r₁) _ k₂ in
    let (r₂, e₄, k₄) = >>=-eq-some (expect b'/' x₂) _ k₃ in
    let ((v, x₃), e₅, k₅) = >>=-eq-some (span_some b'/' r₂) _ k₄ in
    let (r₃, e₆, k₆) = >>=-eq-some (expect b'/' x₃) _ k₅ in
    let ((a, x₄), e₇, k₇) = >>=-eq-some (span_some b'/' r₃) _ k₆ in
    let (lc, nc) = span_some_parts b':' s c x₁ e₁ in
    let (li, ni) = span_some_parts b'/' r₁ i x₂ e₃ in
    let made : Groups = record { channel = c; id = i; version = v; architecture = a } in
    let same : made ≡ g = cc k₇ in
    subst GroupsFit same
      (record { channel_some = nc; channel_whole = lc; id_some = ni; id_whole = li })

create_parts :
    (c i : Text) (v : Version) (a : Architecture) (r : Reference)
    → create c i v a ≡ ok r
    → record { channel = c; id = i; version = v; arch = a } ≡ r
unfolding create
create_parts c i v a r h = ground arith

parse_well_formed : (qt : Qt) (raw : Text) (r : Reference) → parse qt raw ≡ ok r → IsWellFormed r
unfolding parse
parse_well_formed qt raw r h =
    let (g, e, k) = or_fail-bind (search match_reference_at raw) _ _ h in
    let (v, ev, kv) = >>=-eq-ok (Version.parse qt g.version) _ k in
    let (a, ea, ka) = >>=-eq-ok (Architecture.parse g.architecture) _ kv in
    let (t, et) = search_found match_reference_at raw g e in
    let fit = match_reference_at-GroupsFit t g et in
    subst IsWellFormed (create_parts g.channel g.id v a r ka) (record {
      channel_some = fit.channel_some;
      channel_whole = fit.channel_whole;
      id_some = fit.id_some;
      id_whole = fit.id_whole;
      version = (parse_parts qt g.version v ev).0;
      arch = (parse-sound_arch g.architecture a ea).0;
    })

-- Every text that is accepted gives a well formed reference, with a channel and an id that its text
-- can hold, a version that fits and a known architecture, and it is read back from its own text.
pub parse-IsWellFormed_reference :
    (qt : Qt) (raw : Text) (r : Reference)
    → parse qt raw ≡ ok r
    → IsWellFormed r × (parse qt (to_string qt r) ≡ ok r)
parse-IsWellFormed_reference qt raw r h =
    let w = parse_well_formed qt raw r h in (w, parse-to_string_reference qt r w)

match_reference_at-append :
    (qt : Qt) (r : Reference) (junk : Text)
    → IsWellFormed r
    → match_reference_at (to_string qt r ++ (b'/' ∷ junk))
      ≡ some (record {
        channel = r.channel;
        id = r.id;
        version = Version.to_string qt r.version;
        architecture = Architecture.to_string r.arch;
      })
unfolding match_reference_at to_string
match_reference_at-append qt r junk w =
    let v = Version.to_string qt r.version in
    let a = Architecture.to_string r.arch in
    let tail = a ++ (b'/' ∷ junk) in
    simp append_assoc (
      simp (
        span_some-append b':' r.channel (r.id ++ (b'/' ∷ (v ++ (b'/' ∷ tail)))) w.channel_whole
            w.channel_some,
        expect_self,
        span_some-append b'/' r.id (v ++ (b'/' ∷ tail)) w.id_whole w.id_some,
        span_some-append b'/' v tail (to_string-Lacks qt b'/' r.version (omega arith) w.version)
            (to_string-ne-nil qt r.version),
        span_some-append b'/' a junk (arch-Lacks r.arch) (arch-ne-nil r.arch),
      ))

-- Whatever follows a slash behind the text of a well formed reference is ignored.
pub parse_ignores_rest :
    (qt : Qt) (r : Reference) (junk : Text)
    → IsWellFormed r
    → parse qt (to_string qt r ++ (b'/' ∷ junk)) ≡ ok r
unfolding parse
parse_ignores_rest qt r junk w = simp (
  search_here match_reference_at _ _ (match_reference_at-append qt r junk w),
  parse-to_string_version qt r.version w.version,
  parse-to_string_arch r.arch w.arch,
  create_fits qt r w,
)
