-- ===== src/Package/FuzzyReference/RoundTrip.antt =====
-- `FuzzyReference::parse` on the texts that `FuzzyReference::toString` makes.
use linglong.Prelude.{◌≡◌, ◌≢◌, refl, false, Option, none, some, [], ◌∷◌, ◌++◌, arith}
use linglong.Prelude.Text.{Text, Lacks, text_eq, is_empty, is_empty_ne}
use linglong.Prelude.Result.{ok}
use linglong.Package.Qt.{Qt}
use linglong.Package.Pattern.{expect_self, at_end, span_until-append, span_until_all}
use linglong.Package.Version
use linglong.Package.Version.{Version}
use linglong.Package.Version.Parse.{IsInRange, parse-to_string_version}
use linglong.Package.Version.Printed.{to_string-Lacks, to_string-ne-nil}
use linglong.Package.Architecture
use linglong.Package.Architecture.{
  Architecture, unknow, x86_64, arm64, loong64, loongarch64, parse-to_string_arch,
}
use linglong.Package.FuzzyReference.{
  FuzzyReference, match_rest, match_id, match_fuzzy, is_open, parse_channel, parse_version,
  parse_architecture, create, parse, text_or_unknown, version_text, arch_text, to_string,
}

abbrev pub ChannelFits : Option Text → Type 0
ChannelFits none = Unit
ChannelFits (some c) = (is_open c ≡ false) × Lacks b':' c

abbrev pub VersionFits : Option Version → Type 0
VersionFits none = Unit
VersionFits (some v) = IsInRange v

abbrev pub ArchFits : Option Architecture → Type 0
ArchFits none = Unit
ArchFits (some a) = a ≢ unknow

-- The parts that are given can stand in the text of a reference.
pub record IsWellFormed (f : FuzzyReference) : Type 0 where
  pub channel : ChannelFits f.channel
  pub id_some : f.id ≢ []
  pub id_whole : Lacks b'/' f.id
  pub version : VersionFits f.version
  pub arch : ArchFits f.arch

match_rest-parts :
    (v a : Text) → Lacks b'/' v → Lacks b'/' a → match_rest (b'/' ∷ (v ++ (b'/' ∷ a))) ≡ some (v, a)
unfolding match_rest at_end
match_rest-parts v a lv la = ground (
  arith,
  expect_self b'/' (v ++ (b'/' ∷ a)),
  span_until-append b'/' v a lv,
  expect_self b'/' a,
  span_until_all b'/' a la,
)

match_id-parts :
    (c i v a : Text)
    → Lacks b'/' i
    → Lacks b'/' v
    → Lacks b'/' a
    → match_id c (i ++ (b'/' ∷ (v ++ (b'/' ∷ a))))
      ≡ some (record { channel = c; id = i; version = v; architecture = a })
unfolding match_id
match_id-parts c i v a li lv la =
    ground (arith, span_until-append b'/' i (v ++ (b'/' ∷ a)) li, match_rest-parts v a lv la)

match_fuzzy-parts :
    (c i v a : Text)
    → Lacks b':' c
    → Lacks b'/' i
    → Lacks b'/' v
    → Lacks b'/' a
    → match_fuzzy (c ++ (b':' ∷ (i ++ (b'/' ∷ (v ++ (b'/' ∷ a))))))
      ≡ some (record { channel = c; id = i; version = v; architecture = a })
unfolding match_fuzzy
match_fuzzy-parts c i v a lc li lv la =
    let rest = i ++ (b'/' ∷ (v ++ (b'/' ∷ a))) in
    ground (
      arith,
      span_until-append b':' c rest lc,
      expect_self b':' rest,
      match_id-parts c i v a li lv la,
    )

text_or_unknown-Lacks : (c : Option Text) → ChannelFits c → Lacks b':' (text_or_unknown c)
unfolding text_or_unknown
text_or_unknown-Lacks none h = omega arith
text_or_unknown-Lacks (some c) h = h.1

version_text-Lacks : (qt : Qt) (v : Option Version) → VersionFits v → Lacks b'/' (version_text qt v)
unfolding version_text
version_text-Lacks qt none h = omega arith
version_text-Lacks qt (some v) h = to_string-Lacks qt b'/' v (omega arith) h

arch_text-Lacks : (a : Option Architecture) → Lacks b'/' (arch_text a)
unfolding arch_text Architecture.to_string
arch_text-Lacks none = omega arith
arch_text-Lacks (some unknow) = omega arith
arch_text-Lacks (some x86_64) = omega arith
arch_text-Lacks (some arm64) = omega arith
arch_text-Lacks (some loong64) = omega arith
arch_text-Lacks (some loongarch64) = omega arith

parse_channel-text : (c : Option Text) → ChannelFits c → parse_channel (text_or_unknown c) ≡ c
unfolding parse_channel text_or_unknown text_eq is_empty
parse_channel-text none h = refl
parse_channel-text (some c) h = rw (h.0, parse_channel)

-- The text of a version is not taken for an open part, since it holds no `u`.
is_open_text : (s : Text) → s ≢ [] → Lacks b'u' s → is_open s ≡ false
unfolding is_open is_empty text_eq
is_open_text [] h l = absurd (h refl)
is_open_text (c ∷ s) h l = ground arith

is_open_empty : (s : Text) → is_open s ≡ false → is_empty s ≡ false
unfolding is_open
is_open_empty s h = ground arith

parse_version-text :
    (qt : Qt) (v : Option Version) → VersionFits v → parse_version qt (version_text qt v) ≡ ok v
unfolding parse_version version_text is_empty text_eq
parse_version-text qt none h = refl
parse_version-text qt (some v) h = rw (
  is_open_text (Version.to_string qt v) (to_string-ne-nil qt v)
      (to_string-Lacks qt b'u' v (omega arith) h),
  parse_version,
  parse-to_string_version qt v h,
)

parse_architecture-text :
    (a : Option Architecture) → ArchFits a → parse_architecture (arch_text a) ≡ ok a
unfolding parse_architecture arch_text is_empty text_eq Architecture.to_string Architecture.parse
parse_architecture-text none h = refl
parse_architecture-text (some unknow) h = absurd (h refl)
parse_architecture-text (some x86_64) h = refl
parse_architecture-text (some arm64) h = refl
parse_architecture-text (some loong64) h = refl
parse_architecture-text (some loongarch64) h = refl

create_fits :
    (c : Option Text) (i : Text) (v : Option Version) (a : Option Architecture)
    → ChannelFits c
    → i ≢ []
    → create c i v a ≡ ok (record { channel = c; id = i; version = v; arch = a })
unfolding create
create_fits none i v a h k = rw (is_empty_ne i k, create)
create_fits (some c) i v a h k = ground (arith, is_open_empty c h.0, is_empty_ne i k)

-- A fuzzy reference is read back from its text if its id is not empty and has no slash, and the
-- parts that are given can stand there: a channel without a colon that is neither empty nor
-- `unknown`, a version that fits in `qlonglong`s, a known architecture.
pub parse-to_string_fuzzy :
    (qt : Qt) (f : FuzzyReference) → IsWellFormed f → parse qt (to_string qt f) ≡ ok f
unfolding to_string parse
parse-to_string_fuzzy qt f w = simp (
  match_fuzzy-parts (text_or_unknown f.channel) f.id (version_text qt f.version) (arch_text f.arch)
      (text_or_unknown-Lacks f.channel w.channel) w.id_whole
      (version_text-Lacks qt f.version w.version) (arch_text-Lacks f.arch),
  parse_version-text qt f.version w.version,
  parse_architecture-text f.arch w.arch,
  parse_channel-text f.channel w.channel,
  create_fits f.channel f.id f.version f.arch w.channel w.id_some,
)
